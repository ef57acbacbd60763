-- ===== src/Databases/Mysql/Range.antt =====
-- The operations of the MySQL store on ranges of timers
-- (server/databases/mysql/mysql_timer_store_impl.go): `RangeGetTimers`,
-- `RangeDeleteWithBatchInsertTxn` and `RangeDeleteWithLimit`.
use durable_timer.Base.{ℕ, some, List, [], ◌∷◌}
use durable_timer.Databases.Models.{
  DbTimer, RangeGetTimersRequest, RangeGetTimersResponse, RangeDeleteTimersRequest,
  RangeDeleteTimersResponse,
}
use durable_timer.Databases.Results.{Result, ok, ◌>>=◌, or_generic}
use durable_timer.Databases.Rows.{Row, is_timer_in_range}
use durable_timer.Databases.Sql.{Server, delete, select_in_order}
use durable_timer.Databases.Codec.{Codec}
use durable_timer.Databases.Sql.Ranges.{check_iteration, affected, replace_range}
use durable_timer.Databases.Sql.Columns.{scan_timer, timer_of}
use durable_timer.Databases.Mysql.Write.{start_failed}

module _ {Json : Type 0} (server : Server) (codec : Codec Json) where
  open server use {Db, Tx}

  -- The loop over the rows: the first row that does not scan or decode ends it.
  unfoldable pub read_rows : List Row → Result (List (DbTimer Json))
  unfolding scan_timer timer_of
  read_rows [] = ok []
  read_rows (r ∷ rs) = do
    s ← or_generic "failed to scan timer row" (scan_timer server r)
    timer ← timer_of server codec s
    timers ← read_rows rs
    ok (timer ∷ timers)

  -- `RangeGetTimers`
  unfoldable pub range_get_timers :
      ℕ → RangeGetTimersRequest → Db → Result (RangeGetTimersResponse Json) × Db
  unfolding read_rows
  range_get_timers shard_id request db =
      let (res, db') =
        server.query
          (select_in_order
            (is_timer_in_range shard_id request.start_timestamp request.start_time_uuid
              request.end_timestamp request.end_time_uuid)
            request.limit)
          db in
      (
        (do
          set ← or_generic "failed to query timers" res
          timers ← read_rows set.rows
          _ ← check_iteration server codec set.rows_err
          ok (record { timers = timers })),
        db',
      )

  -- `RangeDeleteWithBatchInsertTxn`
  unfoldable pub range_delete_with_batch_insert_txn :
      ℕ
      → ℕ
      → RangeDeleteTimersRequest
      → List (DbTimer Json)
      → Db
      → Result RangeDeleteTimersResponse × Db
  unfolding replace_range
  range_delete_with_batch_insert_txn shard_id shard_version request timers_to_insert db =
      replace_range server codec start_failed shard_id shard_version request timers_to_insert db

  -- `RangeDeleteWithLimit`
  unfoldable pub range_delete_with_limit :
      ℕ → RangeDeleteTimersRequest → ℕ → Db → Result RangeDeleteTimersResponse × Db
  range_delete_with_limit shard_id request limit db =
      let (res, db') =
        server.exec
          (delete
            (is_timer_in_range shard_id request.start_timestamp request.start_time_uuid
              request.end_timestamp request.end_time_uuid)
            (some limit))
          db in
      (
        (do
          deleted_count ← affected server codec "failed to get rows affected" res
          ok (record { deleted_count = deleted_count })),
        db',
      )
