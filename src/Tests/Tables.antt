-- ===== src/Tests/Tables.antt =====
-- Examples for what the MySQL store makes of the table in memory.
use durable_timer.Base.{◌≡◌, refl, false, ◌||◌, ◌==◌, if◌then◌else◌, none, some, [], ◌∷◌}
use durable_timer.Databases.Models.{ShardMetadata, default_metadata}
use durable_timer.Databases.TimerUuid.{generate_timer_uuid}
use durable_timer.Databases.Results.{value}
use durable_timer.Databases.Rows.{
  is_shard_row, is_timer_row, is_shard_row_at, timer_row, set_metadata,
}
use durable_timer.Databases.Sql.{update}
use durable_timer.Databases.Table.{Becomes, with_rows_changed, without_rows}
use durable_timer.Databases.Mysql.Write.{delete_timer, update_timer, reschedule}
use durable_timer.Databases.Mysql.Range.{range_delete_with_batch_insert_txn}
use durable_timer.Databases.Sql.Atomic.{IsAtomic, IsAtomicCall}
use durable_timer.Databases.Mysql.Atomic.Timers.{delete_timer-IsAtomicCall}
use durable_timer.Databases.Mysql.Atomic.Ranges.{range_delete_with_batch_insert_txn-IsAtomic}
use durable_timer.Databases.Sql.Replace.{replaced}
use durable_timer.Databases.Mysql.Atomic.Updates.{update_timer-IsAtomicCall}
use durable_timer.Databases.Mysql.{mysql_timer_store}
use durable_timer.Engine.ShardOwnership
use durable_timer.Engine.ShardOwnership.{ShardOwnership}
use durable_timer.Engine.ShardOwnership.Takeover.{owner_after_claim}
use durable_timer.Tests.Data.{timer, encoded, request, request_encoded, range}
use durable_timer.Tests.Fixtures.{table, texts, digest, timer_at, shard_row}
use durable_timer.Tests.View.{view}

-- The shard and one of its timers.
unfoldable db : table.Db
unfolding table
db = shard_row ∷ timer_row 7 timer (some "=a") none ∷ []

delete_timer-IsAtomicCall_example :
    IsAtomicCall table view 7 3
      (Becomes (without_rows (is_timer_row 7 "ns" "t1")))
      db
      (delete_timer table 7 3 "ns" "t1" db)
delete_timer-IsAtomicCall_example = delete_timer-IsAtomicCall table view 7 3 "ns" "t1" db

range_delete_with_batch_insert_txn-IsAtomic_example :
    IsAtomic table view 7 3
      (Becomes (replaced table view texts 7 range (timer_at "t2" 2 400 ∷ [])))
      db
      (range_delete_with_batch_insert_txn table texts 7 3 range (timer_at "t2" 2 400 ∷ []) db)
range_delete_with_batch_insert_txn-IsAtomic_example =
    range_delete_with_batch_insert_txn-IsAtomic table view texts 7 3 range
      (timer_at "t2" 2 400 ∷ []) db

update_timer-IsAtomicCall_example :
    IsAtomicCall table view 7 3
      (Becomes (
        with_rows_changed
          (λ r.
            view.stored
              (reschedule (generate_timer_uuid digest "ns" "t1") request (some "=a") none r))
          (is_timer_row 7 "ns" "t1")))
      db
      (update_timer table texts digest 7 3 "ns" request db)
update_timer-IsAtomicCall_example =
    update_timer-IsAtomicCall table view texts digest 7 3 "ns" request encoded db request_encoded

-- An owner that claimed the shard before the one of version 3.
abbrev old_owner : ShardOwnership
old_owner = record {
  shard_id = 7;
  shard_version = 2;
  shard_metadata = default_metadata;
  is_released = false;
}

abbrev new_metadata : ShardMetadata
new_metadata = record { committed_offset_timestamp = 100; committed_offset_uuid = 1 }

no_row_changes :
    (table.exec (update (set_metadata "default") (is_shard_row_at 7 2)) db).0 ≡ value (value 0)
unfolding table db shard_row timer_row is_shard_row_at is_shard_row
no_row_changes = refl

owner_after_claim_example :
    let p = is_shard_row_at 7 2 in
    let is_stale = view.rows db p == 0 in
    let (_, s', db') =
      ShardOwnership.update_shard_metadata
        (mysql_timer_store table texts digest (λ _. 1000))
        new_metadata
        old_owner
        db in
    (s'.is_released ≡ (false || is_stale))
    × (s'.shard_metadata ≡ (if is_stale then default_metadata else new_metadata))
    × (view.rows db' ≡ (
        if is_stale
        then view.rows db
        else with_rows_changed (λ r. view.stored (set_metadata "default" r)) p (view.rows db)))
owner_after_claim_example =
    owner_after_claim table view texts digest (λ _. 1000) new_metadata "default" old_owner db
      (value 0) refl no_row_changes
