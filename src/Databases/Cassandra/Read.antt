-- ===== src/Databases/Cassandra/Read.antt =====
-- How the Cassandra store reads timers (server/databases/cassandra/cassandra_timer_store_impl.go):
-- `GetTimer` and `RangeGetTimers`.
use durable_timer.Base.{ℕ, String, none, some, List, [], ◌∷◌, if◌then◌else◌}
use durable_timer.Databases.Models.{
  DbTimer, RangeGetTimersRequest, RangeGetTimersResponse, new_generic_db_error,
  new_db_error_not_exists,
}
use durable_timer.Databases.Results.{Result, ok, err, Answer, value, fault, ◌>>=◌}
use durable_timer.Databases.Codec.{Codec, decode_json}
use durable_timer.Databases.Rows.{Row, is_timer_row, is_timer_in_range}
use durable_timer.Databases.Sql.{select, select_in_order}
use durable_timer.Databases.Cassandra.Cql.{Session, Iterator, first_row, or_zero}

module _ {Json : Type 0} (codec : Codec Json) where
  -- The timer of a row; the update and the execution time keep their zero values.
  unfoldable pub timer_of_row : Row → Result (DbTimer Json)
  unfolding decode_json
  timer_of_row r = do
    payload ← decode_json codec "failed to unmarshal timer payload" r.timer_payload
    retry_policy ← decode_json codec "failed to unmarshal timer retry policy" r.timer_retry_policy
    ok (record {
      id = or_zero "" r.timer_id;
      timer_uuid = r.timer_uuid;
      namespace = or_zero "" r.timer_namespace;
      execute_at = r.timer_execute_at;
      callback_url = or_zero "" r.timer_callback_url;
      payload = payload;
      retry_policy = retry_policy;
      callback_timeout_seconds = or_zero 0 r.timer_callback_timeout_seconds;
      created_at = or_zero 0 r.timer_created_at;
      updated_at = 0;
      executed_at = 0;
      attempts = or_zero 0 r.timer_attempts;
    })

  -- What `GetTimer` makes of the row that it reads.
  unfoldable pub timer_of_answer : Answer Row → Result (DbTimer Json)
  unfolding timer_of_row
  timer_of_answer (value r) = timer_of_row r
  timer_of_answer (fault e) = err (
      if e.is_not_found
      then new_db_error_not_exists "timer not found" (some e)
      else new_generic_db_error "failed to query timer" (some e))

  -- The loop over the rows: the first row that does not decode ends it.
  unfoldable pub read_rows : List Row → Result (List (DbTimer Json))
  unfolding timer_of_row
  read_rows [] = ok []
  read_rows (r ∷ rs) = do timer ← timer_of_row r; timers ← read_rows rs; ok (timer ∷ timers)

  abbrev check_close : Iterator → Result (Unit {0})
  check_close it = elim it.close_err [
    | none ↦ ok tt
    | some e ↦ err (new_generic_db_error "failed to query timers" (some e))
  ]

  module _ (session : Session) where
    open session use {Db}

    -- `GetTimer`
    unfoldable pub get_timer : ℕ → String → String → Db → Result (DbTimer Json) × Db
    unfolding timer_of_answer
    get_timer shard_id namespace timer_id db =
        let (it, db') = session.iterate (select (is_timer_row shard_id namespace timer_id)) db in
        (timer_of_answer (first_row session.not_found it), db')

    -- `RangeGetTimers`
    unfoldable pub range_get_timers :
        ℕ → RangeGetTimersRequest → Db → Result (RangeGetTimersResponse Json) × Db
    unfolding read_rows
    range_get_timers shard_id request db =
        let (it, db') =
          session.iterate
            (select_in_order
              (is_timer_in_range shard_id request.start_timestamp request.start_time_uuid
                request.end_timestamp request.end_time_uuid)
              request.limit)
            db in
        ((do timers ← read_rows it.rows; _ ← check_close it; ok (record { timers = timers })), db')
