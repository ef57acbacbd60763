-- ===== src/Databases/Mysql/Atomic/Ranges.antt =====
-- What `RangeDeleteWithBatchInsertTxn` of the MySQL store
-- (server/databases/mysql/mysql_timer_store_impl.go) makes of the table.
use durable_timer.Base.{ℕ, List}
use durable_timer.Databases.Models.{DbTimer, RangeDeleteTimersRequest}
use durable_timer.Databases.Sql.{Server}
use durable_timer.Databases.Codec.{Codec}
use durable_timer.Databases.Sql.Laws.{TableView}
use durable_timer.Databases.Mysql.Range.{range_delete_with_batch_insert_txn}
use durable_timer.Databases.Sql.Replace.{replaced, replace_range-IsAtomic}
use durable_timer.Databases.Table.{Becomes}
use durable_timer.Databases.Sql.Atomic.{IsAtomic}

module _ (server : Server) (view : TableView server) {Json : Type 0} (codec : Codec Json) where
  open server use {Db}

  -- Over a server that keeps the laws of a table: a batch that succeeds was sent with the stored version
  -- of the shard, replaces the rows of the range by those of the new timers, as the columns keep them, and
  -- changes no other row; one that fails changes nothing, unless its error reports a commit that failed,
  -- the version was the stored one and all of this took place.
  pub range_delete_with_batch_insert_txn-IsAtomic :
      (shard_id shard_version : ℕ) (request : RangeDeleteTimersRequest)
      (timers : List (DbTimer Json)) (db : Db)
      → IsAtomic server view shard_id shard_version
          (Becomes (replaced server view codec shard_id request timers))
          db
          (range_delete_with_batch_insert_txn server codec shard_id shard_version request timers db)
  unfolding range_delete_with_batch_insert_txn
  range_delete_with_batch_insert_txn-IsAtomic s v request timers db =
      replace_range-IsAtomic server view codec _ s v request timers db
