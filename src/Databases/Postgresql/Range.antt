-- ===== src/Databases/Postgresql/Range.antt =====
-- The deletion of ranges of timers in the PostgreSQL store
-- (server/databases/postgresql/postgresql_timer_store_impl.go): `RangeDeleteWithBatchInsertTxn` and
-- `RangeDeleteWithLimit`.
use durable_timer.Base.{ℕ, List}
use durable_timer.Databases.Models.{DbTimer, RangeDeleteTimersRequest, RangeDeleteTimersResponse}
use durable_timer.Databases.Results.{Result, ok, ◌>>=◌}
use durable_timer.Databases.Rows.{is_timer_in_range}
use durable_timer.Databases.Sql.{Server, delete_in_order}
use durable_timer.Databases.Codec.{Codec}
use durable_timer.Databases.Sql.Ranges.{affected, replace_range}
use durable_timer.Databases.Postgresql.Write.{start_failed}

module _ {Json : Type 0} (server : Server) (codec : Codec Json) where
  open server use {Db}

  -- `RangeDeleteWithBatchInsertTxn`
  unfoldable pub range_delete_with_batch_insert_txn :
      ℕ
      → ℕ
      → RangeDeleteTimersRequest
      → List (DbTimer Json)
      → Db
      → Result RangeDeleteTimersResponse × Db
  unfolding replace_range
  range_delete_with_batch_insert_txn = replace_range server codec start_failed

  -- `RangeDeleteWithLimit`, which deletes the first timers of the range.
  unfoldable pub range_delete_with_limit :
      ℕ → RangeDeleteTimersRequest → ℕ → Db → Result RangeDeleteTimersResponse × Db
  range_delete_with_limit shard_id request limit db =
      let (res, db') =
        server.exec
          (delete_in_order
            (is_timer_in_range shard_id request.start_timestamp request.start_time_uuid
              request.end_timestamp request.end_time_uuid)
            limit)
          db in
      (
        (do
          deleted_count ← affected server codec "failed to get rows affected" res
          ok (record { deleted_count = deleted_count })),
        db',
      )
