-- ===== src/Databases/Postgresql/Atomic/Updates.antt =====
-- What `UpdateTimer` of the PostgreSQL store
-- (server/databases/postgresql/postgresql_timer_store_impl.go) makes of the table.
use durable_timer.Base.{ℕ, String, Bool, true, ◌≡◌, ◌<◌, ◌==◌, if◌then◌else◌}
use durable_timer.Databases.Models.{Uuid, UpdateDbTimerRequest}
use durable_timer.Databases.Results.{Result, Answer, value}
use durable_timer.Databases.Rows.{Row, is_timer_row}
use durable_timer.Databases.Sql.{Server, select, update, first_row}
use durable_timer.Databases.Codec.{Codec, Encoded}
use durable_timer.Databases.Table.{Table, without_rows, with_row, with_rows_changed}
use durable_timer.Databases.Sql.Laws.{TableView}
use durable_timer.Databases.Postgresql.Update.{
  updated, current_or_error, CurrentTimer, scan_current, is_timer_at, set_callback, moved_row,
}

module _ (server : Server) (view : TableView server) {Json : Type 0} (codec : Codec Json)
    (parse_uuid : Uuid → Answer Uuid) where
  open server use {Db, Tx}
  open view use {tx_rows, tx_before}

  -- The table had a row of the timer. Where the row has the execution time of the request, the rows of
  -- the timer get the values of the request; where it has another one, it gives way to a row at the time of
  -- the request, with its UUID, its time of creation and its attempts.
  pub record Updates (shard_id : ℕ) (namespace : String) (request : UpdateDbTimerRequest Json)
      (j : Encoded) (before after : Table) : Type 0 where
    pub row : Row
    pub current : CurrentTimer
    pub scanned : scan_current server (value row) ≡ value current
    pub of_timer : is_timer_row shard_id namespace request.timer_id row ≡ true
    pub found : 0 < before (is_timer_at shard_id current.execute_at current.timer_uuid)
    pub changed : after ≡ (
        if current.execute_at == request.execute_at
        then with_rows_changed
            (λ r. view.stored (set_callback request j r))
            (is_timer_row shard_id namespace request.timer_id)
            before
        else with_row
            (view.stored (moved_row shard_id namespace request j current current.timer_uuid))
            (without_rows (is_timer_at shard_id current.execute_at current.timer_uuid) before))

  module _ (parses : (u v : Uuid) → parse_uuid u ≡ value v → v ≡ u) (shard_id : ℕ)
      (namespace : String) (request : UpdateDbTimerRequest Json) (j : Encoded) where
    abbrev is_timer : Row → Bool
    is_timer = is_timer_row shard_id namespace request.timer_id

    abbrev read : Tx → Result CurrentTimer
    read tx =
        current_or_error
          (scan_current server (first_row server.no_rows (server.tx_query (select is_timer) tx).0))

    abbrev update_in_place : Tx → Result (Unit {0}) × Tx
    update_in_place tx =
        let (answer, tx') = server.tx_exec (update (set_callback request j) is_timer) tx in
        (updated answer, tx')
