-- ===== src/Databases/Cassandra/Fence.antt =====
-- An owner of a shard whose version is not the stored one, at the Cassandra store
-- (server/databases/cassandra/cassandra_timer_store_impl.go).
use durable_timer.Base.{
  ℕ, String, false, ◌≡◌, ◌≢◌, ◌∙◌, refl, ap, inl, inr, none, Option, List, ◌∷◌, [], arith,
}
use durable_timer.Databases.Models.{
  new_db_error_not_exists, DbError, DbTimer, ShardMetadata, UpdateDbTimerRequest,
  RangeDeleteTimersRequest,
}
use durable_timer.Databases.Results.{
  Result, Result-cases, ok, err, Answer, Answer-cases, value, fault, error_of, is_ok,
}
use durable_timer.Databases.Codec.{Codec}
use durable_timer.Databases.Rows.{set_metadata}
use durable_timer.Databases.Cassandra.Cql.{Session, Cql, Cas, update_if_version, shard_key}
use durable_timer.Databases.Cassandra.Laws.{CasView, has_version, is_batch_applied}
use durable_timer.Databases.Cassandra.Lookup.{look_up}
use durable_timer.Databases.Cassandra.Shard.{update_shard_metadata}
use durable_timer.Databases.Cassandra.Write.{
  check_batch, check_version, create_timer, range_delete_with_batch_insert_txn, encode_texts,
  insert_statements, range_of,
}
use durable_timer.Databases.Cassandra.Update.{check_fenced_batch, update_timer, delete_timer}

module _ (session : Session) (view : CasView session) where
  open session use {Db}
  open view use {rows}

  -- The call failed and left the table as it was.
  unfoldable pub ChangesNothing : Db → Option DbError × Db → Type 0
  ChangesNothing db (failure, db') = (failure ≢ none) × (rows db' ≡ rows db)

  check_batch-refuses :
      (failed mismatch : String) (res : Answer Cas)
      → is_batch_applied res ≡ false
      → is_ok (check_batch failed mismatch res) ≡ false
  unfolding check_batch
  check_batch-refuses failed mismatch (fault e) h = refl
  check_batch-refuses failed mismatch (value c) h = ground (arith, h)

  check_fenced_batch-refuses :
      (version : ℕ) (failed mismatch unexpected : String) (res : Answer Cas)
      → is_batch_applied res ≡ false
      → is_ok (check_fenced_batch version failed mismatch unexpected res) ≡ false
  unfolding check_fenced_batch
  check_fenced_batch-refuses v failed mismatch unexpected (fault e) h = refl
  check_fenced_batch-refuses v failed mismatch unexpected (value c) h = ground (arith, h)

  error_of-fails : (res : Result (Unit {0})) → is_ok res ≡ false → error_of res ≢ none
  error_of-fails (ok _) h = absurd (ground (arith, h))
  error_of-fails (err e) h = λ e'. ground (arith, e')

  look_up-keeps :
      (shard_id : ℕ) (namespace timer_id : String) (missing : DbError) (db : Db)
      → rows (look_up session shard_id namespace timer_id missing db).1 ≡ rows db
  unfolding look_up
  look_up-keeps s ns id missing db = view.iterate_rows _ db

  still_stale :
      (shard_id shard_version : ℕ) (db1 db : Db)
      → rows db1 ≡ rows db
      → rows db (has_version (shard_key shard_id) shard_version) ≡ 0
      → rows db1 (has_version (shard_key shard_id) shard_version) ≡ 0
  still_stale s v db1 db kept stale = ap (λ t. t (has_version (shard_key s) v)) kept ∙ stale

  -- A batch with a check of the version that no row meets.
  module _ (shard_id shard_version : ℕ) (db : Db)
      (stale : rows db (has_version (shard_key shard_id) shard_version) ≡ 0) where
    refused :
        (others : List Cql)
        → let (res, db') = session.batch_cas (check_version shard_id shard_version ∷ others) db in
          (is_batch_applied res ≡ false) × (rows db' ≡ rows db)
    unfolding check_version
    refused others = view.batch_refused _ (shard_key shard_id) shard_version others db stale

    fenced-ChangesNothing :
        (failed mismatch unexpected : String) (others : List Cql)
        → let (res, db') = session.batch_cas (check_version shard_id shard_version ∷ others) db in
          ChangesNothing db
            (error_of (check_fenced_batch shard_version failed mismatch unexpected res), db')
    unfolding ChangesNothing
    fenced-ChangesNothing failed mismatch unexpected others =
        let (fails, same) = refused others in
        (
          error_of-fails _
              (check_fenced_batch-refuses shard_version failed mismatch unexpected _ fails),
          same,
        )

  module _ {Json : Type 0} (codec : Codec Json) where
    create-ChangesNothing :
        (shard_id shard_version : ℕ) (namespace : String) (timer : DbTimer Json) (db : Db)
        → rows db (has_version (shard_key shard_id) shard_version) ≡ 0
        → ChangesNothing db (create_timer session codec shard_id shard_version namespace timer db)
    unfolding create_timer ChangesNothing
    create-ChangesNothing s v ns timer db stale =
        elim (Result-cases (encode_texts codec timer.payload timer.retry_policy)) [
          | inr (error, e) ↦ rw (e, create_timer) (λ e'. ground (arith, e'), refl)
          | inl (j, e) ↦
              let (fails, same) = refused s v db stale _ in
              rw (e, create_timer) (error_of-fails _ (check_batch-refuses _ _ _ fails), same)
        ]

    range-fails :
        (shard_id shard_version : ℕ) (request : RangeDeleteTimersRequest)
        (timers : List (DbTimer Json)) (db : Db)
        → rows db (has_version (shard_key shard_id) shard_version) ≡ 0
        → let (res, db') =
            range_delete_with_batch_insert_txn session codec shard_id shard_version request timers
              db in
          (is_ok res ≡ false) × (rows db' ≡ rows db)
    unfolding range_delete_with_batch_insert_txn
    range-fails s v request timers db stale =
        elim (Result-cases (insert_statements codec s timers)) [
          | inr (error, e) ↦ rw (e, range_delete_with_batch_insert_txn) (refl, refl)
          | inl (inserts, e) ↦
              let (fails, same) = refused s v db stale (range_of s request ∷ inserts) in
              let sent = session.batch_cas (check_version s v ∷ range_of s request ∷ inserts) db in
              let is_err =
                check_batch-refuses "failed to execute atomic delete and insert batch"
                  "shard version mismatch during delete and insert operation" sent.0 fails in
              rw (e, range_delete_with_batch_insert_txn) (ground (arith, is_err), same)
        ]

    update-ChangesNothing :
        (shard_id shard_version : ℕ) (namespace : String) (request : UpdateDbTimerRequest Json)
        (db : Db)
        → rows db (has_version (shard_key shard_id) shard_version) ≡ 0
        → ChangesNothing db (update_timer session codec shard_id shard_version namespace request db)
    unfolding update_timer ChangesNothing
    update-ChangesNothing s v ns request db stale =
        let missing = new_db_error_not_exists "timer not found for update" none in
        let looked_up = look_up session s ns request.timer_id missing db in
        let kept = look_up-keeps s ns request.timer_id missing db in
        elim (Result-cases (encode_texts codec request.payload request.retry_policy)) [
          | inr (error, e) ↦ rw (e, update_timer) (λ e'. ground (arith, e'), refl)
          | inl (j, e) ↦ elim (Result-cases looked_up.0) [
            | inr (error, e1) ↦ rw (e, update_timer) (rw e1 (λ e'. ground (arith, e'), kept))
            | inl (found, e1) ↦
                let (fails, same) =
                  fenced-ChangesNothing s v looked_up.1 (still_stale s v _ db kept stale) _ _ _ _ in
                rw (e, update_timer) (rw e1 (fails, same ∙ kept))
          ]
        ]

    metadata-ChangesNothing :
        (shard_id shard_version : ℕ) (metadata : ShardMetadata) (db : Db)
        → rows db (has_version (shard_key shard_id) shard_version) ≡ 0
        → ChangesNothing db (update_shard_metadata session codec shard_id shard_version metadata db)
    unfolding update_shard_metadata ChangesNothing
    metadata-ChangesNothing s v metadata db stale =
        elim (Answer-cases (codec.marshal_metadata metadata)) [
          | inr (error, e) ↦ rw (e, update_shard_metadata) (λ e'. ground (arith, e'), refl)
          | inl (json, e) ↦
              let (fails, same) =
                view.batch_refused (set_metadata json) (shard_key s) v [] db stale in
              let sent =
                (session.batch_cas (update_if_version (set_metadata json) (shard_key s) v ∷ [])
                  db).0 in
              elim (Answer-cases sent) [
                | inr (error, e1) ↦
                    rw (e, update_shard_metadata) (rw e1 (λ e'. ground (arith, e'), same))
                | inl (c, e1) ↦
                    rw (e, update_shard_metadata)
                      (rw e1 (λ e'. ground (arith, e1, fails, e'), same))
              ]
        ]

  delete-ChangesNothing :
      (shard_id shard_version : ℕ) (namespace timer_id : String) (db : Db)
      → rows db (has_version (shard_key shard_id) shard_version) ≡ 0
      → ChangesNothing db (delete_timer session shard_id shard_version namespace timer_id db)
  unfolding delete_timer ChangesNothing
  delete-ChangesNothing s v ns id db stale =
      let missing = new_db_error_not_exists "timer not found" none in
      let looked_up = look_up session s ns id missing db in
      let kept = look_up-keeps s ns id missing db in
      elim (Result-cases looked_up.0) [
        | inr (error, e) ↦ rw (e, delete_timer) (λ e'. ground (arith, e'), kept)
        | inl (found, e) ↦
            let (fails, same) =
              fenced-ChangesNothing s v looked_up.1 (still_stale s v _ db kept stale) _ _ _ _ in
            rw (e, delete_timer) (fails, same ∙ kept)
      ]

  -- Over a session that keeps the laws of conditional statements, if no row of the shard has the
  -- version of the caller: an update of the metadata, a creation, an update and a deletion of a timer,
  -- and a batch all fail and leave the table as it was, whatever their arguments.
  pub stale_owner-ChangesNothing :
      {Json : Type 0} (codec : Codec Json) (shard_id shard_version : ℕ) (namespace : String)
      (metadata : ShardMetadata) (timer : DbTimer Json) (request : UpdateDbTimerRequest Json)
      (timer_id : String) (range : RangeDeleteTimersRequest) (timers : List (DbTimer Json))
      (db : Db)
      → rows db (has_version (shard_key shard_id) shard_version) ≡ 0
      → let (replaced, db') =
          range_delete_with_batch_insert_txn session codec shard_id shard_version range timers db in
        ChangesNothing db (update_shard_metadata session codec shard_id shard_version metadata db)
        × ChangesNothing db (create_timer session codec shard_id shard_version namespace timer db)
        × ChangesNothing db (update_timer session codec shard_id shard_version namespace request db)
        × ChangesNothing db (delete_timer session shard_id shard_version namespace timer_id db)
        × (is_ok replaced ≡ false)
        × (rows db' ≡ rows db)
  stale_owner-ChangesNothing codec s v ns metadata timer request id range timers db stale =
      let (fails, same) = range-fails codec s v range timers db stale in
      (
        metadata-ChangesNothing codec s v metadata db stale,
        create-ChangesNothing codec s v ns timer db stale,
        update-ChangesNothing codec s v ns request db stale,
        delete-ChangesNothing s v ns id db stale,
        fails,
        same,
      )
