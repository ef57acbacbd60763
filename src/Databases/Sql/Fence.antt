-- ===== src/Databases/Sql/Fence.antt =====
-- An owner of a shard whose version no row of the shard has, in the transactions of the SQL stores
-- (server/databases/mysql, postgresql).
use durable_timer.Base.{
  ℕ, String, ◌≡◌, ◌≢◌, false, Option, none, some, refl, inl, inr, ◌∙◌, ◌==◌, Bool-cases, arith,
}
use durable_timer.Databases.Models.{DbError}
use durable_timer.Databases.Results.{Result, ok, err, is_ok, Answer-cases, error_of}
use durable_timer.Databases.Rows.{is_shard_row_at}
use durable_timer.Databases.Sql.{Server}
use durable_timer.Databases.Sql.Laws.{TableView}
use durable_timer.Databases.Sql.Session.{with_shard_version, read_shard_version}
use durable_timer.Databases.Sql.Atomic.{read-Owns, read-keeps}

module _ (server : Server) (view : TableView server) where
  open server use {Db, Tx}
  open view use {rows}

  -- No row of the shard has the version.
  abbrev pub IsStale : ℕ → ℕ → Db → Type 0
  IsStale shard_id shard_version db = rows db (is_shard_row_at shard_id shard_version) ≡ 0

  -- The operation returns an error and leaves the table as it was.
  unfoldable pub RefusedFrom : {A : Type 0} → Db → Result A × Db → Type 0
  RefusedFrom db (res, db') = (is_ok res ≡ false) × (rows db' ≡ rows db)

  -- The same of a call that returns an error or nil.
  unfoldable pub ChangesNothing : Db → Option DbError × Db → Type 0
  ChangesNothing db (failure, db') = (failure ≢ none) × (rows db' ≡ rows db)

  pub with_shard_version-stale :
      {A : Type 0} (start_failed : String) (shard_id shard_version : ℕ) (missing mismatch : DbError)
      (body : Tx → Result A × Tx) (db : Db)
      → IsStale shard_id shard_version db
      → RefusedFrom db
          (with_shard_version server start_failed shard_id shard_version missing mismatch body db)
  unfolding with_shard_version RefusedFrom
  with_shard_version-stale msg s v missing mismatch body db stale =
      elim (Answer-cases (server.begin db).0) [
        | inr (error, e) ↦
            rw (e, with_shard_version) (ground (arith, e), view.begin_fault db error e)
        | inl (tx, e) ↦
            let (rows_kept, before) = read-keeps server view s tx in
            let (tx_is, tx_from) = view.begin_value db tx e in
            let unchanged =
              view.rollback_rows (read_shard_version server s tx).1 ∙ before ∙ tx_from in
            elim (Answer-cases (read_shard_version server s tx).0) [
              | inr (error, e1) ↦
                  rw (e, with_shard_version) (rw e1 (ground (arith, e, e1), unchanged))
              | inl (version, e1) ↦ elim (Bool-cases (version == v)) [
                | inl same ↦
                    absurd
                      (ground (arith, stale, read-Owns server view s v version db tx tx_is e1 same))
                | inr differs ↦
                    rw (e, with_shard_version)
                      (rw e1 (rw differs (ground (arith, e, e1, differs), unchanged)))
              ]
            ]
      ]

  pub refused_call :
      (out : Result (Unit {0}) × Db) (db : Db)
      → RefusedFrom db out
      → ChangesNothing db (error_of out.0, out.1)
  unfolding RefusedFrom ChangesNothing
  refused_call (ok a, db') db h = absurd (ground (arith, h))
  refused_call (err e, db') db (h, same) = (λ q. ground (arith, q), same)

  pub not_encoded : (e : DbError) (db : Db) → ChangesNothing db (some e, db)
  unfolding ChangesNothing
  not_encoded e db = (λ h. ground (arith, h), refl)
