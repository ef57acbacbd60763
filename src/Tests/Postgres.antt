-- ===== src/Tests/Postgres.antt =====
-- Examples for the PostgreSQL store, over the table in memory, and for claims that race.
use durable_timer.Base.{◌≡◌, ◌⊎◌, ◌≤◌, refl, true, false, ◌==◌, none, some, List, [], ◌∷◌}
use durable_timer.Databases.Models.{Uuid, RangeGetTimersRequest, new_db_error_not_exists}
use durable_timer.Databases.Results.{Answer, value, fault}
use durable_timer.Databases.Rows.{Row, is_shard_row, is_shard_row_at, is_timer_row, timer_row}
use durable_timer.Databases.Sql.{delete}
use durable_timer.Databases.Sql.Columns.{ScannedShard}
use durable_timer.Databases.Sql.Session.{read_shard_version}
use durable_timer.Databases.Sql.Atomic.{IsAtomicCall}
use durable_timer.Databases.Sql.Exclusion.{attempt, left, one_winner_per_version}
use durable_timer.Databases.Race.{winners}
use durable_timer.Databases.Mysql.Read
use durable_timer.Databases.Mysql.Range as MysqlRange
use durable_timer.Databases.Mysql.Write as MysqlWrite
use durable_timer.Databases.Postgresql.Shard.{is_duplicate_key_error}
use durable_timer.Databases.Postgresql.Write.{create_timer, delete_timer}
use durable_timer.Databases.Postgresql.Update.{update_timer}
use durable_timer.Databases.Postgresql.Read.{get_timer, range_get_timers}
use durable_timer.Databases.Postgresql.Range.{range_delete_with_batch_insert_txn}
use durable_timer.Databases.Postgresql.Fence.{stale_owner_is_refused}
use durable_timer.Databases.Postgresql.Agreement.{reads_agree, deletes_agree_on_existing}
use durable_timer.Databases.Postgresql.Atomic.Timers.{Removes, delete_existing-IsAtomicCall}
use durable_timer.Databases.Postgresql.Atomic.Updates.{Updates}
use durable_timer.Databases.Sql.Fence.{IsStale, ChangesNothing, RefusedFrom}
use durable_timer.Tests.Data.{timer, request, range}
use durable_timer.Tests.Fixtures.{table, texts, timer_at, shard_row}
use durable_timer.Tests.View.{view}

abbrev rows : List Row
rows = shard_row ∷ timer_row 7 timer (some "=a") none ∷ []

-- The shard and one of its timers.
unfoldable db : table.Db
unfolding table
db = rows

unfoldable tx : table.Tx
unfolding table
tx = (rows, rows)

begins : table.begin db ≡ (value tx, db)
unfolding table db tx
begins = refl

version_read : read_shard_version table 7 tx ≡ (value 3, tx)
unfolding table tx read_shard_version shard_row is_shard_row
version_read = refl

abbrev parse_uuid : Uuid → Answer Uuid
parse_uuid u = value u

abbrev uuid_of : Answer Uuid → Uuid
uuid_of (value u) = u
uuid_of (fault e) = 0

delete_existing-IsAtomicCall_example :
    IsAtomicCall table view 7 3
      (Removes (is_timer_row 7 "ns" "t1"))
      db
      (delete_timer table 7 3 "ns" "t1" db)
delete_existing-IsAtomicCall_example = delete_existing-IsAtomicCall table view 7 3 "ns" "t1" db

abbrev read_range : RangeGetTimersRequest
read_range = record {
  start_timestamp = 0;
  start_time_uuid = 0;
  end_timestamp = 200;
  end_time_uuid = 0;
  limit = 10;
}

reads_agree_example :
    (get_timer table texts parse_uuid 7 "ns" "t1" db ≡ Read.get_timer table texts 7 "ns" "t1" db)
    × (range_get_timers table texts parse_uuid 7 read_range db
        ≡ MysqlRange.range_get_timers table texts 7 read_range db)
reads_agree_example = reads_agree table texts parse_uuid (λ u. refl) 7 "ns" "t1" read_range db

unfoldable emptied : table.Tx
unfolding table
emptied = (rows, shard_row ∷ [])

deletes : table.tx_exec (delete (is_timer_row 7 "ns" "t1") none) tx ≡ (value (value 1), emptied)
unfolding table tx emptied shard_row timer_row is_timer_row
deletes = refl

deletes_agree_on_existing_example :
    let deleted = delete_timer table 7 3 "ns" "t1" db in
    let deleted' = MysqlWrite.delete_timer table 7 3 "ns" "t1" db in
    (((1 == 0) ≡ false) × (deleted ≡ deleted'))
    ⊎ (((1 == 0) ≡ true)
        × (deleted
            ≡ (some (new_db_error_not_exists "timer not found" none), table.rollback emptied))
        × (deleted'.1 ≡ (table.commit emptied).1))
deletes_agree_on_existing_example =
    deletes_agree_on_existing table 7 3 "ns" "t1" 1 db db tx tx emptied begins version_read deletes

abbrev scanned : ScannedShard
scanned = record {
  version = 3;
  owner_addr = "localhost";
  claimed_at = 900;
  metadata_json = "default";
}

one_winner_per_version_example :
    (winners
      (attempt table view texts is_duplicate_key_error 7 scanned)
      (left table view texts is_duplicate_key_error 7 scanned)
      (("a", 1000) ∷ ("b", 1001) ∷ ("c", 1002) ∷ [])
      db).0
    ≤ 1
one_winner_per_version_example =
    one_winner_per_version table view texts is_duplicate_key_error 7 scanned
      (("a", 1000) ∷ ("b", 1001) ∷ ("c", 1002) ∷ []) db

stale : IsStale table view 7 2 db
unfolding view table db shard_row timer_row is_shard_row_at is_shard_row
stale = refl

stale_owner_is_refused_example :
    ChangesNothing table view db (create_timer table texts 7 2 "ns" timer db)
    × ChangesNothing table view db (update_timer table texts parse_uuid 7 2 "ns" request db)
    × ChangesNothing table view db (delete_timer table 7 2 "ns" "t1" db)
    × RefusedFrom table view db
        (range_delete_with_batch_insert_txn table texts 7 2 range (timer_at "t2" 2 400 ∷ []) db)
stale_owner_is_refused_example =
    stale_owner_is_refused table view texts parse_uuid 7 2 "ns" timer request range
      (timer_at "t2" 2 400 ∷ []) db stale
