-- ===== src/Databases/Mongodb/Range.antt =====
-- The deletion of ranges of timers in the MongoDB store
-- (server/databases/mongodb/mongodb_timer_store_impl.go), and its conditions on ranges.
use durable_timer.Base.{ℕ, Bool, none, some, List, [], ◌∷◌, ◌&&◌, ◌||◌, ◌==◌, ltb, leb}
use durable_timer.Databases.Models.{
  Time, Uuid, DbTimer, RangeDeleteTimersRequest, RangeDeleteTimersResponse, row_type_timer,
  new_generic_db_error, new_db_error_on_shard_condition_fail,
}
use durable_timer.Databases.Results.{Result, ok, err, value, fault, ◌>>=◌, or_generic}
use durable_timer.Databases.Codec.{Codec, encode}
use durable_timer.Databases.Rows.{Row}
use durable_timer.Databases.Mongodb.Driver.{Client, insert_one, delete_many}
use durable_timer.Databases.Mongodb.Session.{with_transaction}
use durable_timer.Databases.Mongodb.Write.{build_timer_document}

-- The operators that `buildRangeCondition` knows; with another one it panics.
pub data RangeOperator : Type 0 where
  gte : RangeOperator
  lte : RangeOperator

-- `buildRangeCondition`
unfoldable pub build_range_condition : RangeOperator → Time → Uuid → Row → Bool
build_range_condition gte timestamp uuid r =
    ltb timestamp r.timer_execute_at || (r.timer_execute_at == timestamp && leb uuid r.timer_uuid)
build_range_condition lte timestamp uuid r =
    ltb r.timer_execute_at timestamp || (r.timer_execute_at == timestamp && leb r.timer_uuid uuid)

-- The filter of a range
unfoldable pub range_filter : ℕ → Time → Uuid → Time → Uuid → Row → Bool
unfolding build_range_condition
range_filter shard_id start_timestamp start_uuid end_timestamp end_uuid r =
    r.shard_id == shard_id
    && r.row_type == row_type_timer
    && build_range_condition gte start_timestamp start_uuid r
    && build_range_condition lte end_timestamp end_uuid r

module _ {Json : Type 0} (client : Client) (codec : Codec Json) where
  open client use {Db, Session}

  -- The loop that inserts the timers, each of which is encoded in its turn.
  unfoldable pub insert_timers : ℕ → List (DbTimer Json) → Session → Result (Unit {0}) × Session
  unfolding build_timer_document
  insert_timers shard_id [] session = (ok tt, session)
  insert_timers shard_id (timer ∷ timers) session =
      elim (encode codec timer.payload timer.retry_policy) [
        | err e ↦ (err e, session)
        | ok j ↦
            let (answer, session') =
              client.session_write (insert_one (build_timer_document shard_id timer j)) session in
            let rest = insert_timers shard_id timers session' in
            elim answer [
              | fault e ↦ (err (new_generic_db_error "failed to insert timer" (some e)), session')
              | value _ ↦ rest
            ]
      ]

  abbrev counted : ℕ → Result (Unit {0}) → Result RangeDeleteTimersResponse
  counted n (ok _) = ok (record { deleted_count = n })
  counted n (err e) = err e

  abbrev pub delete_filter : ℕ → RangeDeleteTimersRequest → Row → Bool
  delete_filter shard_id request =
      range_filter shard_id request.start_timestamp request.start_time_uuid request.end_timestamp
        request.end_time_uuid

  -- What the batch does once the version is checked.
  unfoldable pub delete_and_insert :
      ℕ
      → RangeDeleteTimersRequest
      → List (DbTimer Json)
      → Session
      → Result RangeDeleteTimersResponse × Session
  unfolding range_filter insert_timers
  delete_and_insert shard_id request timers_to_insert session =
      let (answer, session') =
        client.session_write (delete_many (delete_filter shard_id request)) session in
      elim answer [
        | fault e ↦ (err (new_generic_db_error "failed to delete timers" (some e)), session')
        | value deleted_count ↦
            let (inserted, session'') = insert_timers shard_id timers_to_insert session' in
            (counted deleted_count inserted, session'')
      ]

  -- `RangeDeleteWithBatchInsertTxn`
  unfoldable pub range_delete_with_batch_insert_txn :
      ℕ
      → ℕ
      → RangeDeleteTimersRequest
      → List (DbTimer Json)
      → Db
      → Result RangeDeleteTimersResponse × Db
  unfolding with_transaction delete_and_insert
  range_delete_with_batch_insert_txn shard_id shard_version request timers_to_insert db =
      with_transaction client shard_id shard_version
        (new_generic_db_error "shard record does not exist" none)
        (new_db_error_on_shard_condition_fail
          "shard version mismatch during delete and insert operation" none)
        (delete_and_insert shard_id request timers_to_insert) db

  -- `RangeDeleteWithLimit`, which ignores the limit.
  unfoldable pub range_delete_with_limit :
      ℕ → RangeDeleteTimersRequest → ℕ → Db → Result RangeDeleteTimersResponse × Db
  unfolding range_filter
  range_delete_with_limit shard_id request limit db =
      let (res, db') = client.write (delete_many (delete_filter shard_id request)) db in
      (
        (do
          deleted_count ← or_generic "failed to delete timers" res
          ok (record { deleted_count = deleted_count })),
        db',
      )
