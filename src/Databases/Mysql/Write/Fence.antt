-- ===== src/Databases/Mysql/Write/Fence.antt =====
-- An owner of a shard that another owner has claimed
-- (server/databases/mysql/mysql_timer_store_impl.go).
use durable_timer.Base.{ℕ, String, none, inl, inr, List}
use durable_timer.Databases.Models.{Uuid, DbTimer, UpdateDbTimerRequest, RangeDeleteTimersRequest}
use durable_timer.Databases.Results.{Result-cases}
use durable_timer.Databases.Sql.{Server, update, delete}
use durable_timer.Databases.Codec.{Codec, encode}
use durable_timer.Databases.Sql.Laws.{TableView}
use durable_timer.Databases.Sql.Fence.{
  IsStale, ChangesNothing, RefusedFrom, not_encoded, with_shard_version-stale, refused_call,
}
use durable_timer.Databases.Sql.Ranges.{replace_range, delete_and_insert}
use durable_timer.Databases.Mysql.Write.{
  create_timer, update_timer, delete_timer, tx_upsert_timer, updated, deleted, reschedule,
}
use durable_timer.Databases.Rows.{timer_row, is_timer_row}
use durable_timer.Databases.TimerUuid.{generate_timer_uuid}
use durable_timer.Databases.Mysql.Range.{range_delete_with_batch_insert_txn}

module _ {Json : Type 0} (server : Server) (view : TableView server) (codec : Codec Json)
    (md5 : String → Uuid) where
  open server use {Db}

  -- Over a server that keeps the laws of a table: where no row of the shard has the version of the caller,
  -- a creation, an update, a deletion and a batch of the MySQL store return an error and leave the table as
  -- it was.
  pub stale_owner_writes_nothing :
      (shard_id shard_version : ℕ) (namespace : String) (timer : DbTimer Json)
      (request : UpdateDbTimerRequest Json) (range : RangeDeleteTimersRequest)
      (timers : List (DbTimer Json)) (db : Db)
      → IsStale server view shard_id shard_version db
      → ChangesNothing server view db
          (create_timer server codec shard_id shard_version namespace timer db)
        × ChangesNothing server view db
            (update_timer server codec md5 shard_id shard_version namespace request db)
        × ChangesNothing server view db
            (delete_timer server shard_id shard_version namespace timer.id db)
        × RefusedFrom server view db
            (range_delete_with_batch_insert_txn server codec shard_id shard_version range timers db)
  unfolding create_timer update_timer delete_timer range_delete_with_batch_insert_txn replace_range
  stale_owner_writes_nothing s v ns timer request range timers db stale = (
    elim (Result-cases (encode codec timer.payload timer.retry_policy)) [
      | inr (error, e) ↦ rw (e, create_timer) (not_encoded server view error db)
      | inl (j, e) ↦
          rw (e, create_timer)
            (refused_call server view _ db (
              with_shard_version-stale server view _ s v _ _
                (tx_upsert_timer server codec
                  (timer_row s timer j.payload_json j.retry_policy_json))
                db stale))
    ],
    elim (Result-cases (encode codec request.payload request.retry_policy)) [
      | inr (error, e) ↦ rw (e, update_timer) (not_encoded server view error db)
      | inl (j, e) ↦
          rw (e, update_timer)
            (refused_call server view _ db (
              with_shard_version-stale server view _ s v _ _
                (λ tx.
                  let (answer, tx') =
                    server.tx_exec
                      (update
                        (reschedule (generate_timer_uuid md5 ns request.timer_id) request
                          j.payload_json j.retry_policy_json)
                        (is_timer_row s ns request.timer_id))
                      tx in
                  (updated server codec answer, tx'))
                db stale))
    ],
    refused_call server view _ db (
        with_shard_version-stale server view _ s v _ _
          (λ tx.
            let (answer, tx') = server.tx_exec (delete (is_timer_row s ns timer.id) none) tx in
            (deleted server answer, tx'))
          db stale),
    with_shard_version-stale server view _ s v _ _ (delete_and_insert server codec s range timers)
        db stale,
  )
