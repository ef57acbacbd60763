-- ===== src/Tests/Stores.antt =====
-- Examples for the MySQL store, over the table in memory.
use durable_timer.Base.{refl, List, [], ◌∷◌}
use durable_timer.Databases.Rows.{Row, is_shard_row, is_shard_row_at}
use durable_timer.Databases.Mysql.Write.{create_timer, update_timer, delete_timer}
use durable_timer.Databases.Mysql.Write.Fence.{stale_owner_writes_nothing}
use durable_timer.Tests.Data.{timer, request, range}
use durable_timer.Databases.Sql.Fence.{IsStale, ChangesNothing, RefusedFrom}
use durable_timer.Databases.Mysql.Range.{range_delete_with_batch_insert_txn}
use durable_timer.Tests.View.{view}
use durable_timer.Tests.Fixtures.{table, texts, digest, shard_row}

abbrev rows : List Row
rows = shard_row ∷ []

unfoldable db : table.Db
unfolding table
db = rows

stale : IsStale table view 7 2 db
unfolding view table db shard_row is_shard_row_at is_shard_row
stale = refl

stale_owner_writes_nothing_example :
    ChangesNothing table view db (create_timer table texts 7 2 "ns" timer db)
    × ChangesNothing table view db (update_timer table texts digest 7 2 "ns" request db)
    × ChangesNothing table view db (delete_timer table 7 2 "ns" "t1" db)
    × RefusedFrom table view db
        (range_delete_with_batch_insert_txn table texts 7 2 range (timer ∷ []) db)
stale_owner_writes_nothing_example =
    stale_owner_writes_nothing table view texts digest 7 2 "ns" timer request range (timer ∷ []) db
      stale
