-- ===== src/Databases/Postgresql/Fence.antt =====
-- An owner of a shard whose version is not the stored one, at the PostgreSQL store
-- (server/databases/postgresql/postgresql_timer_store_impl.go).
use durable_timer.Base.{ℕ, String, none, inl, inr, List}
use durable_timer.Databases.Models.{Uuid, DbTimer, UpdateDbTimerRequest, RangeDeleteTimersRequest}
use durable_timer.Databases.Results.{Answer, Result-cases}
use durable_timer.Databases.Sql.{Server, delete}
use durable_timer.Databases.Codec.{Codec, encode}
use durable_timer.Databases.Sql.Laws.{TableView}
use durable_timer.Databases.Sql.Fence.{
  IsStale, ChangesNothing, RefusedFrom, not_encoded, with_shard_version-stale, refused_call,
}
use durable_timer.Databases.Sql.Ranges.{replace_range, delete_and_insert}
use durable_timer.Databases.Postgresql.Write.{
  create_timer, delete_timer, upsert_of, upserted, deleted,
}
use durable_timer.Databases.Rows.{timer_row, is_timer_row}
use durable_timer.Databases.Postgresql.Update.{update_timer, update_current}
use durable_timer.Databases.Postgresql.Range.{range_delete_with_batch_insert_txn}

module _ {Json : Type 0} (server : Server) (view : TableView server) (codec : Codec Json)
    (parse_uuid : Uuid → Answer Uuid) where
  open server use {Db}

  -- Over a server that keeps the laws of a table: where no row of the shard has the version of the caller,
  -- a creation, an update, a deletion and a batch of the PostgreSQL store return an error and leave the table as
  -- it was.
  pub stale_owner_is_refused :
      (shard_id shard_version : ℕ) (namespace : String) (timer : DbTimer Json)
      (request : UpdateDbTimerRequest Json) (range : RangeDeleteTimersRequest)
      (timers : List (DbTimer Json)) (db : Db)
      → IsStale server view shard_id shard_version db
      → ChangesNothing server view db
          (create_timer server codec shard_id shard_version namespace timer db)
        × ChangesNothing server view db
            (update_timer server codec parse_uuid shard_id shard_version namespace request db)
        × ChangesNothing server view db
            (delete_timer server shard_id shard_version namespace timer.id db)
        × RefusedFrom server view db
            (range_delete_with_batch_insert_txn server codec shard_id shard_version range timers db)
  unfolding create_timer update_timer delete_timer range_delete_with_batch_insert_txn replace_range
  stale_owner_is_refused s v ns timer request range timers db stale = (
    elim (Result-cases (encode codec timer.payload timer.retry_policy)) [
      | inr (error, e) ↦ rw (e, create_timer) (not_encoded server view error db)
      | inl (j, e) ↦
          rw (e, create_timer)
            (refused_call server view _ db (
              with_shard_version-stale server view _ s v _ _
                (λ tx.
                  let (answer, tx') =
                    server.tx_exec
                      (upsert_of (timer_row s timer j.payload_json j.retry_policy_json)) tx in
                  (upserted answer, tx'))
                db stale))
    ],
    elim (Result-cases (encode codec request.payload request.retry_policy)) [
      | inr (error, e) ↦ rw (e, update_timer) (not_encoded server view error db)
      | inl (j, e) ↦
          rw (e, update_timer)
            (refused_call server view _ db (
              with_shard_version-stale server view _ s v _ _
                (update_current server codec parse_uuid s ns request j) db stale))
    ],
    refused_call server view _ db (
        with_shard_version-stale server view _ s v _ _
          (λ tx.
            let (answer, tx') = server.tx_exec (delete (is_timer_row s ns timer.id) none) tx in
            (deleted answer, tx'))
          db stale),
    with_shard_version-stale server view _ s v _ _ (delete_and_insert server codec s range timers)
        db stale,
  )
