-- ===== src/Databases/Mysql/Atomic/Updates.antt =====
-- What `UpdateTimer` and `UpdateShardMetadata` of the MySQL store
-- (server/databases/mysql/mysql_timer_store_impl.go) make of the table.
use durable_timer.Base.{ℕ, String, Bool, ◌≡◌, ◌≢◌, ◌⊎◌, ◌<◌, inl, inr, ◌∙◌, ap, sym, none, arith}
use durable_timer.Databases.Models.{Uuid, ShardMetadata, UpdateDbTimerRequest}
use durable_timer.Databases.TimerUuid.{generate_timer_uuid}
use durable_timer.Databases.Results.{Result, ok, Answer-cases, value}
use durable_timer.Databases.Rows.{Row, is_timer_row, is_shard_row_at, set_metadata}
use durable_timer.Databases.Sql.{Server, update}
use durable_timer.Databases.Codec.{Codec, Encoded, encode}
use durable_timer.Databases.Sql.Laws.{TableView}
use durable_timer.Databases.Table.{Becomes, with_rows_changed}
use durable_timer.Databases.Mysql.Shard.{update_shard_metadata}
use durable_timer.Databases.Mysql.Write.{update_timer, updated, reschedule}
use durable_timer.Databases.Sql.Atomic.{
  IsAtomicCall, IsAtomicCall-error_of, HasEffect, with_shard_version-IsAtomic,
}

module _ (server : Server) (view : TableView server) {Json : Type 0} (codec : Codec Json) where
  open server use {Db, Tx}
  open view use {rows, tx_rows, tx_before}

  abbrev update_body : (Row → Row) → (Row → Bool) → Tx → Result (Unit {0}) × Tx
  update_body f p tx =
      let (answer, tx') = server.tx_exec (update f p) tx in (updated server codec answer, tx')

  update_body-HasEffect :
      (f : Row → Row) (p : Row → Bool)
      → HasEffect server view
          (Becomes (with_rows_changed (λ r. view.stored (f r)) p))
          (update_body f p)
  update_body-HasEffect f p = record {
    before_kept = λ tx. view.tx_exec_before _ tx;
    effect_done = λ tx tx' a h. elim (Answer-cases (server.tx_exec (update f p) tx).0) [
      | inl (n, e) ↦ sym (ap (λ o. tx_rows o.1) h) ∙ (view.tx_update f p tx n e).1
      | inr (error, e) ↦ ground (arith, e, h)
    ];
  }

  -- Over a server that keeps the laws of a table, for a request whose values can be encoded: an
  -- update that succeeds was sent with the stored version of the shard and changes exactly the rows of the
  -- timer, to the request's values with no attempts, as the columns keep them; one that fails changes
  -- nothing, unless its error reports a commit that failed, the version was the stored one and the change
  -- took place.
  pub update_timer-IsAtomicCall :
      (md5 : String → Uuid) (shard_id shard_version : ℕ) (namespace : String)
      (request : UpdateDbTimerRequest Json) (j : Encoded) (db : Db)
      → encode codec request.payload request.retry_policy ≡ ok j
      → IsAtomicCall server view shard_id shard_version
          (Becomes (
            with_rows_changed
              (λ r. view.stored (
                reschedule
                  (generate_timer_uuid md5 namespace request.timer_id)
                  request
                  j.payload_json
                  j.retry_policy_json
                  r))
              (is_timer_row shard_id namespace request.timer_id)))
          db
          (update_timer server codec md5 shard_id shard_version namespace request db)
  unfolding update_timer
  update_timer-IsAtomicCall md5 s v ns request j db h =
      rw (h, update_timer)
        (IsAtomicCall-error_of server view s v _ db _
          (with_shard_version-IsAtomic server view s v _ _ (update_body-HasEffect _ _) _ _ _ db))

  -- Over a server that keeps the laws of a table, for metadata that can be encoded: an update of
  -- the metadata of a shard succeeds only if the shard has a row of the given version, and then it
  -- changes the metadata of such rows and nothing else; if it fails, it changes nothing.
  pub update_shard_metadata_conditional :
      (shard_id shard_version : ℕ) (metadata : ShardMetadata) (json : String) (db : Db)
      → codec.marshal_metadata metadata ≡ value json
      → let p = is_shard_row_at shard_id shard_version in
        let (update_err, db') =
          update_shard_metadata server codec shard_id shard_version metadata db in
        ((update_err ≡ none)
          × (0 < rows db p)
          × (rows db' ≡ with_rows_changed (λ r. view.stored (set_metadata json r)) p (rows db)))
        ⊎ ((update_err ≢ none) × (rows db' ≡ rows db))
  unfolding update_shard_metadata
  update_shard_metadata_conditional s v metadata json db h =
      let p = is_shard_row_at s v in
      elim (Answer-cases (server.exec (update (set_metadata json) p) db).0) [
        | inr (error, e) ↦ ground (arith, h, e, view.exec_fault _ db error e)
        | inl (n, e) ↦ ground (
          arith,
          h,
          e,
          view.exec_update (set_metadata json) p db n e,
          view.none_changed (λ r. view.stored (set_metadata json r)) p db,
        )
      ]
