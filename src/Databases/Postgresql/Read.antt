-- ===== src/Databases/Postgresql/Read.antt =====
-- How the PostgreSQL store reads timers (server/databases/postgresql/postgresql_timer_store_impl.go):
-- `GetTimer` and `RangeGetTimers`. A UUID column is scanned as a text, which is then parsed.
use durable_timer.Base.{ℕ, String, some, List, [], ◌∷◌, if◌then◌else◌}
use durable_timer.Databases.Models.{
  Uuid, DbTimer, RangeGetTimersRequest, RangeGetTimersResponse, new_generic_db_error,
  new_db_error_not_exists,
}
use durable_timer.Databases.Results.{Result, ok, err, Answer, value, fault, ◌>>=◌, or_generic}
use durable_timer.Databases.Rows.{Row, is_timer_row, is_timer_in_range}
use durable_timer.Databases.Sql.{Server, select, select_in_order, first_row}
use durable_timer.Databases.Codec.{Codec}
use durable_timer.Databases.Sql.Columns.{ScannedTimer, scan_timer, timer_of, scan_first}
use durable_timer.Databases.Sql.Ranges.{check_iteration}

-- `parse_uuid` is `uuid.Parse` of the text that the driver gives for the UUID of a row.
module _ {Json : Type 0} (server : Server) (codec : Codec Json)
    (parse_uuid : Uuid → Answer Uuid) where
  open server use {Db}

  -- The timer of scanned columns, whose UUID is parsed first.
  unfoldable pub parsed_timer_of : ScannedTimer → Result (DbTimer Json)
  unfolding timer_of
  parsed_timer_of s = do
    timer_uuid ← or_generic "failed to parse timer UUID" (parse_uuid s.row.timer_uuid)
    timer ← timer_of server codec s
    ok (record timer { timer_uuid = timer_uuid })

  -- What `GetTimer` makes of the row that it reads.
  unfoldable pub timer_of_answer : Answer ScannedTimer → Result (DbTimer Json)
  unfolding parsed_timer_of
  timer_of_answer (value s) = parsed_timer_of s
  timer_of_answer (fault e) = err (
      if e.is_no_rows
      then new_db_error_not_exists "timer not found" (some e)
      else new_generic_db_error "failed to query timer" (some e))

  -- `GetTimer`
  unfoldable pub get_timer : ℕ → String → String → Db → Result (DbTimer Json) × Db
  unfolding scan_timer timer_of_answer
  get_timer shard_id namespace timer_id db =
      let (res, db') = server.query (select (is_timer_row shard_id namespace timer_id)) db in
      (timer_of_answer (scan_first server codec (first_row server.no_rows res)), db')

  -- The loop over the rows: the first row that does not scan, parse or decode ends it.
  unfoldable pub read_rows : List Row → Result (List (DbTimer Json))
  unfolding scan_timer parsed_timer_of
  read_rows [] = ok []
  read_rows (r ∷ rs) = do
    s ← or_generic "failed to scan timer row" (scan_timer server r)
    timer ← parsed_timer_of s
    timers ← read_rows rs
    ok (timer ∷ timers)

  -- `RangeGetTimers`
  unfoldable pub range_get_timers :
      ℕ → RangeGetTimersRequest → Db → Result (RangeGetTimersResponse Json) × Db
  unfolding read_rows
  range_get_timers shard_id request db =
      let (res, db') =
        server.query
          (select_in_order
            (is_timer_in_range shard_id request.start_timestamp request.start_time_uuid
              request.end_timestamp request.end_time_uuid)
            request.limit)
          db in
      (
        (do
          set ← or_generic "failed to query timers" res
          timers ← read_rows set.rows
          _ ← check_iteration server codec set.rows_err
          ok (record { timers = timers })),
        db',
      )
