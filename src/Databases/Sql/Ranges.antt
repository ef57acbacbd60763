-- ===== src/Databases/Sql/Ranges.antt =====
-- What the operations of the SQL stores on ranges of timers share
-- (server/databases/mysql/mysql_timer_store_impl.go, postgresql/postgresql_timer_store_impl.go).
use durable_timer.Base.{ℕ, String, Option, none, some, List, [], ◌∷◌}
use durable_timer.Databases.Models.{
  GoError, DbTimer, RangeDeleteTimersRequest, RangeDeleteTimersResponse, new_generic_db_error,
  new_db_error_on_shard_condition_fail,
}
use durable_timer.Databases.Results.{Result, ok, err, Answer, value, fault, ◌>>=◌, or_generic}
use durable_timer.Databases.Rows.{is_timer_in_range, timer_row}
use durable_timer.Databases.Sql.{Server, insert, delete}
use durable_timer.Databases.Codec.{Codec, encode}
use durable_timer.Databases.Sql.Session.{with_shard_version}

module _ {Json : Type 0} (server : Server) (codec : Codec Json) where
  open server use {Db, Tx}

  abbrev pub check_iteration : Option GoError → Result (Unit {0})
  check_iteration none = ok tt
  check_iteration (some e) = err (new_generic_db_error "failed to iterate over timer rows" (some e))

  -- The loop that inserts the timers, each of which is encoded in its turn.
  unfoldable pub insert_timers : ℕ → List (DbTimer Json) → Tx → Result (Unit {0}) × Tx
  unfolding timer_row
  insert_timers shard_id [] tx = (ok tt, tx)
  insert_timers shard_id (timer ∷ timers) tx =
      elim (encode codec timer.payload timer.retry_policy) [
        | err e ↦ (err e, tx)
        | ok j ↦
            let (answer, tx') =
              server.tx_exec (insert (timer_row shard_id timer j.payload_json j.retry_policy_json))
                tx in
            let rest = insert_timers shard_id timers tx' in
            elim answer [
              | fault e ↦ (err (new_generic_db_error "failed to insert timer" (some e)), tx')
              | value _ ↦ rest
            ]
      ]

  abbrev pub affected : String → Answer (Answer ℕ) → Result ℕ
  affected msg res = do answer ← or_generic "failed to delete timers" res; or_generic msg answer

  abbrev pub response_of : ℕ → Result (Unit {0}) → Result RangeDeleteTimersResponse
  response_of count (ok _) = ok (record { deleted_count = count })
  response_of count (err e) = err e

  -- What `RangeDeleteWithBatchInsertTxn` does in its transaction: the deletion, then the inserts.
  unfoldable pub delete_and_insert :
      ℕ
      → RangeDeleteTimersRequest
      → List (DbTimer Json)
      → Tx
      → Result RangeDeleteTimersResponse × Tx
  unfolding insert_timers
  delete_and_insert shard_id request timers_to_insert tx =
      let (res, tx') =
        server.tx_exec
          (delete
            (is_timer_in_range shard_id request.start_timestamp request.start_time_uuid
              request.end_timestamp request.end_time_uuid)
            none)
          tx in
      elim (affected "failed to get deleted rows count" res) [
        | err e ↦ (err e, tx')
        | ok deleted_count ↦
            let (inserted, tx'') = insert_timers shard_id timers_to_insert tx' in
            (response_of deleted_count inserted, tx'')
      ]

  -- `RangeDeleteWithBatchInsertTxn`, with what it says of a transaction that does not start
  unfoldable pub replace_range :
      String
      → ℕ
      → ℕ
      → RangeDeleteTimersRequest
      → List (DbTimer Json)
      → Db
      → Result RangeDeleteTimersResponse × Db
  unfolding with_shard_version delete_and_insert
  replace_range start_failed shard_id shard_version request timers_to_insert db =
      with_shard_version server start_failed shard_id shard_version
        (new_generic_db_error "shard record does not exist" none)
        (new_db_error_on_shard_condition_fail
          "shard version mismatch during delete and insert operation" none)
        (delete_and_insert shard_id request timers_to_insert) db
