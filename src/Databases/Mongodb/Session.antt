-- ===== src/Databases/Mongodb/Session.antt =====
-- The transaction that the operations of the MongoDB store
-- (server/databases/mongodb/mongodb_timer_store_impl.go) share.
use durable_timer.Base.{ℕ, not, none, some, ◌==◌, if◌then◌else◌}
use durable_timer.Databases.Models.{DbError, new_generic_db_error}
use durable_timer.Databases.Results.{value, fault, Result, ok, err}
use durable_timer.Databases.Rows.{is_shard_row}
use durable_timer.Databases.Mongodb.Driver.{Client, or_zero}

module _ (client : Client) {A : Type 0} where
  open client use {Db, Session}

  -- The commit at the end of an operation; a session that ends otherwise aborts its transaction.
  unfoldable pub finish : Result A × Session → Result A × Session
  finish (err e, session) = (err e, session)
  finish (ok a, session) =
      let (commit_err, session') = client.commit_transaction session in
      (
        elim commit_err [
          | none ↦ ok a
          | some e ↦ err (new_generic_db_error "failed to commit transaction" (some e))
        ],
        session',
      )

  -- What runs under `mongo.WithSession` once the transaction has started: the check of the version,
  -- and then the body.
  unfoldable pub checked :
      ℕ → ℕ → DbError → DbError → (Session → Result A × Session) → Session → Result A × Session
  unfolding finish
  checked shard_id shard_version missing mismatch body session =
      let (found, session1) = client.session_find_one (is_shard_row shard_id) session in
      elim found [
        | fault e ↦ (err (new_generic_db_error "failed to read shard" (some e)), session1)
        | value none ↦ (err missing, session1)
        | value (some doc) ↦
            if not (or_zero 0 doc.shard_version == shard_version)
            then (err mismatch, session1)
            else finish (body session1)
      ]

  -- An operation in a session of its own.
  unfoldable pub with_transaction :
      ℕ → ℕ → DbError → DbError → (Session → Result A × Session) → Db → Result A × Db
  unfolding checked
  with_transaction shard_id shard_version missing mismatch body db =
      let (started, db1) = client.start_session db in
      elim started [
        | fault e ↦ (err (new_generic_db_error "failed to start MongoDB session" (some e)), db1)
        | value session ↦
            let (start_err, session1) = client.start_transaction session in
            elim start_err [
              | some e ↦ (
                err (new_generic_db_error "transaction failed" (some e)),
                client.end_session (client.abort_transaction session1),
              )
              | none ↦
                  let (res, session2) =
                    checked shard_id shard_version missing mismatch body session1 in
                  (res, client.end_session session2)
            ]
      ]
