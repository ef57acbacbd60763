-- ===== src/Databases/Mongodb/Fence.antt =====
-- An owner of a shard whose version is not the stored one, at the MongoDB store
-- (server/databases/mongodb/mongodb_timer_store_impl.go).
use durable_timer.Base.{
  ℕ, String, Option, Option-cases, none, some, ◌≡◌, ◌≢◌, false, refl, inl, inr, ◌∙◌, arith, ◌==◌,
  List, Bool-cases,
}
use durable_timer.Databases.Models.{
  Uuid, DbError, DbTimer, UpdateDbTimerRequest, RangeDeleteTimersRequest,
}
use durable_timer.Databases.TimerUuid.{generate_timer_uuid}
use durable_timer.Databases.Results.{Result, ok, err, is_ok, error_of, Answer-cases, Result-cases}
use durable_timer.Databases.Codec.{Codec, encode}
use durable_timer.Databases.Rows.{is_shard_row, is_timer_row}
use durable_timer.Databases.Mongodb.Driver.{Client, or_zero, update_one, delete_one}
use durable_timer.Databases.Mongodb.Laws.{DocView, has_version}
use durable_timer.Databases.Mongodb.Session.{with_transaction, checked}
use durable_timer.Databases.Mongodb.Write.{
  create_timer, update_timer, delete_timer, upsert_of, upserted, set_update, updated, deleted,
}
use durable_timer.Databases.Mongodb.Range.{range_delete_with_batch_insert_txn, delete_and_insert}

module _ (client : Client) (view : DocView client) where
  open client use {Db, Session}
  open view use {rows, left, seen}

  -- No document of the shard has the version.
  abbrev pub IsStale : ℕ → ℕ → Db → Type 0
  IsStale shard_id shard_version db = rows db (has_version shard_id shard_version) ≡ 0

  -- The operation returns an error and leaves the collection as it was.
  unfoldable pub RefusedFrom : {A : Type 0} → Db → Result A × Db → Type 0
  RefusedFrom db (res, db') = (is_ok res ≡ false) × (rows db' ≡ rows db)

  -- The same of a call that returns an error or nil.
  unfoldable pub ChangesNothing : Db → Option DbError × Db → Type 0
  ChangesNothing db (failure, db') = (failure ≢ none) × (rows db' ≡ rows db)

  refused_call :
      (out : Result (Unit {0}) × Db) (db : Db)
      → RefusedFrom db out
      → ChangesNothing db (error_of out.0, out.1)
  unfolding RefusedFrom ChangesNothing
  refused_call (ok a, db') db h = absurd (ground (arith, h))
  refused_call (err e, db') db (h, same) = (λ q. ground (arith, q), same)

  not_encoded : (e : DbError) (db : Db) → ChangesNothing db (some e, db)
  unfolding ChangesNothing
  not_encoded e db = (λ h. ground (arith, h), refl)

  -- A session in which no document has the version fails the check, and would leave what it would have.
  checked-stale :
      {A : Type 0} (shard_id shard_version : ℕ) (missing mismatch : DbError)
      (body : Session → Result A × Session) (session : Session)
      → seen session (has_version shard_id shard_version) ≡ 0
      → (is_ok (checked client shard_id shard_version missing mismatch body session).0 ≡ false)
        × (left (checked client shard_id shard_version missing mismatch body session).1
            ≡ left session)
  unfolding checked has_version
  checked-stale s v missing mismatch body session stale =
      let p = is_shard_row s in
      let same = view.find_left p session in
      elim (Answer-cases (client.session_find_one p session).0) [
        | inr (error, e) ↦ rw (e, checked) (refl, same)
        | inl (found, e) ↦ elim (Option-cases found) [
          | inl nothing ↦ rw (e, checked) (rw nothing (refl, same))
          | inr (doc, it) ↦ elim (Bool-cases (or_zero 0 doc.shard_version == v)) [
            | inr differs ↦ rw (e, checked) (rw it (rw differs (refl, same)))
            | inl equal ↦
                let (passes, counts) = view.find_some p session doc (ground (arith, e, it)) in
                absurd
                  (ground (arith, stale, counts (has_version s v) (ground (arith, passes, equal))))
          ]
        ]
      ]

  with_transaction-stale :
      {A : Type 0} (shard_id shard_version : ℕ) (missing mismatch : DbError)
      (body : Session → Result A × Session) (db : Db)
      → IsStale shard_id shard_version db
      → RefusedFrom db (with_transaction client shard_id shard_version missing mismatch body db)
  unfolding with_transaction RefusedFrom
  with_transaction-stale s v missing mismatch body db stale =
      elim (Answer-cases (client.start_session db).0) [
        | inr (error, e) ↦ rw (e, with_transaction) (refl, view.start_fault db error e)
        | inl (session, e) ↦
            let session1 = (client.start_transaction session).1 in
            let from_db = view.transaction_left session ∙ view.start_value db session e in
            elim (Option-cases (client.start_transaction session).0) [
              | inr (error, e1) ↦
                  rw (e, with_transaction)
                    (rw e1 (refl, view.end_rows _ ∙ view.abort_left session1 ∙ from_db))
              | inl e1 ↦
                  let reads = view.transaction_seen session e1 ∙ view.start_value db session e in
                  let (fails, same) =
                    checked-stale s v missing mismatch body session1
                      (ground (arith, reads, stale)) in
                  rw (e, with_transaction) (rw e1 (fails, view.end_rows _ ∙ same ∙ from_db))
            ]
      ]

  -- If the sessions keep the documented laws: where no document of the shard has the version of the
  -- caller, a creation, an update, a deletion and a batch of the MongoDB store return an error and leave the
  -- collection as it was.
  pub stale_owner_ends_session :
      {Json : Type 0} (codec : Codec Json) (md5 : String → Uuid) (shard_id shard_version : ℕ)
      (namespace : String) (timer : DbTimer Json) (request : UpdateDbTimerRequest Json)
      (range : RangeDeleteTimersRequest) (timers : List (DbTimer Json)) (db : Db)
      → IsStale shard_id shard_version db
      → ChangesNothing db (create_timer client codec shard_id shard_version namespace timer db)
        × ChangesNothing db
            (update_timer client codec md5 shard_id shard_version namespace request db)
        × ChangesNothing db (delete_timer client shard_id shard_version namespace timer.id db)
        × RefusedFrom db
            (range_delete_with_batch_insert_txn client codec shard_id shard_version range timers db)
  unfolding create_timer update_timer delete_timer range_delete_with_batch_insert_txn
  stale_owner_ends_session codec md5 s v ns timer request range timers db stale = (
    elim (Result-cases (encode codec timer.payload timer.retry_policy)) [
      | inr (error, e) ↦ rw (e, create_timer) (not_encoded error db)
      | inl (j, e) ↦
          rw (e, create_timer)
            (refused_call _ db (
              with_transaction-stale s v _ _
                (λ session.
                  let (answer, session') = client.session_write (upsert_of s timer j) session in
                  (upserted answer, session'))
                db stale))
    ],
    elim (Result-cases (encode codec request.payload request.retry_policy)) [
      | inr (error, e) ↦ rw (e, update_timer) (not_encoded error db)
      | inl (j, e) ↦
          rw (e, update_timer)
            (refused_call _ db (
              with_transaction-stale s v _ _
                (λ session.
                  let (answer, session') =
                    client.session_write
                      (update_one (is_timer_row s ns request.timer_id)
                        (set_update (generate_timer_uuid md5 ns request.timer_id) request j))
                      session in
                  (updated answer, session'))
                db stale))
    ],
    refused_call _ db (
        with_transaction-stale s v _ _
          (λ session.
            let (answer, session') =
              client.session_write (delete_one (is_timer_row s ns timer.id)) session in
            (deleted client answer, session'))
          db stale),
    with_transaction-stale s v _ _ (delete_and_insert client codec s range timers) db stale,
  )
