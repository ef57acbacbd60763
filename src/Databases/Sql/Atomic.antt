-- ===== src/Databases/Sql/Atomic.antt =====
-- What the transactions of the SQL stores (server/databases/mysql, postgresql) make of the table.
use durable_timer.Base.{
  ℕ, String, ◌≡◌, ◌⊎◌, inl, inr, refl, ◌∙◌, sym, subst, Option-cases, Bool-cases, Option, none,
  some, ◌==◌, ◌<◌, true, arith,
}
use durable_timer.Databases.Models.{DbError, GoError, new_generic_db_error}
use durable_timer.Databases.Rows.{is_shard_row, is_shard_row_at}
use durable_timer.Databases.Results.{Result, ok, err, Answer-cases, error_of, value}
use durable_timer.Databases.Sql.{Server, select, first_row}
use durable_timer.Databases.Table.{Table}
use durable_timer.Databases.Sql.Laws.{TableView}
use durable_timer.Databases.Sql.Session.{with_shard_version, finish, read_shard_version}

module _ (server : Server) (view : TableView server) where
  open server use {Db, Tx}
  open view use {rows, tx_rows, tx_before}

  -- The row of the shard is there at the version.
  abbrev pub Owns : ℕ → ℕ → Db → Type 0
  Owns shard_id shard_version db = 0 < rows db (is_shard_row_at shard_id shard_version)

  -- The session is what a commit left that failed, of a transaction that began from the table, and the
  -- error is the one that reports the failure.
  pub record CommitFailed (db : Db) (error : DbError) (db' : Db) : Type 0 where
    pub tx : Tx
    pub cause : GoError
    pub began : tx_before tx ≡ rows db
    pub refused : (server.commit tx).0 ≡ some cause
    pub left : db' ≡ (server.commit tx).1
    pub reported : error ≡ new_generic_db_error "failed to commit transaction" (some cause)

  -- Where the operation succeeded, the version was the stored one, and all of the effect took place. Where
  -- it failed, nothing changed, or the commit failed, and then the version was the stored one and all of
  -- the effect took place.
  unfoldable pub IsAtomic :
      {A : Type 0} → ℕ → ℕ → (Table → Table → Type 0) → Db → Result A × Db → Type 0
  IsAtomic s v Effect db (ok _, db') = Owns s v db × Effect (rows db) (rows db')
  IsAtomic s v Effect db (err e, db') =
      (rows db' ≡ rows db) ⊎ (CommitFailed db e db' × Owns s v db × Effect (rows db) (rows db'))

  -- What the body of a transaction does to the table that it sees.
  pub record HasEffect {A : Type 0} (Effect : Table → Table → Type 0) (body : Tx → Result A × Tx)
      : Type 0 where
    pub before_kept : (tx : Tx) → tx_before (body tx).1 ≡ tx_before tx
    pub effect_done :
        (tx tx' : Tx) (a : A) → body tx ≡ (ok a, tx') → Effect (tx_rows tx) (tx_rows tx')

  pub read-keeps :
      (shard_id : ℕ) (tx : Tx)
      → (tx_rows (read_shard_version server shard_id tx).1 ≡ tx_rows tx)
        × (tx_before (read_shard_version server shard_id tx).1 ≡ tx_before tx)
  unfolding read_shard_version
  read-keeps shard_id tx = (view.tx_query_rows _ tx, view.tx_query_before _ tx)

  -- A version that is read is the version of a row of the shard.
  pub read-Owns :
      (shard_id shard_version version : ℕ) (db : Db) (tx : Tx)
      → tx_rows tx ≡ rows db
      → (read_shard_version server shard_id tx).0 ≡ value version
      → (version == shard_version) ≡ true
      → Owns shard_id shard_version db
  unfolding read_shard_version is_shard_row_at
  read-Owns s v version db tx same h e =
      let first = first_row server.no_rows (server.tx_query (select (is_shard_row s)) tx).0 in
      elim (Answer-cases first) [
        | inr (error, q) ↦ absurd (ground (arith, q, h))
        | inl (row, q) ↦
            let (passes, counts) = view.tx_select_first (is_shard_row s) tx row q in
            let at_version : is_shard_row_at s v row ≡ true =
              elim (Option-cases row.shard_version) [
                | inl missing ↦ absurd (ground (arith, missing, q, h))
                | inr (n, found) ↦ ground (arith, found, q, h, e, passes)
              ] in
            subst (λ t. 0 < t (is_shard_row_at s v)) same (counts (is_shard_row_at s v) at_version)
      ]

  module _ {A : Type 0} (s v : ℕ) (Effect : Table → Table → Type 0) where
    finish-IsAtomic :
        (out : Result A × Tx) (db : Db)
        → tx_before out.1 ≡ rows db
        → Owns s v db
        → ((a : A) (tx : Tx) → out ≡ (ok a, tx) → Effect (rows db) (tx_rows tx))
        → IsAtomic s v Effect db (finish server out)
    unfolding finish IsAtomic
    finish-IsAtomic (err e, tx) db b o h = inl (view.rollback_rows tx ∙ b)
    finish-IsAtomic (ok a, tx) db b o h = elim (Option-cases (server.commit tx).0) [
      | inl e ↦ rw e (o, subst (Effect (rows db)) (sym (view.commit_none tx e)) (h a tx refl))
      | inr (error, e) ↦ rw e (elim (view.commit_some tx error e) [
        | inl same ↦ inl (same ∙ b)
        | inr done ↦ inr (
          record { tx = tx; cause = error; began = b; refused = e; left = refl; reported = refl },
          o,
          subst (Effect (rows db)) (sym done) (h a tx refl),
        )
      ])
    ]

    pub with_shard_version-IsAtomic :
        (body : Tx → Result A × Tx)
        → HasEffect Effect body
        → (start_failed : String) (missing mismatch : DbError) (db : Db)
        → IsAtomic s v Effect db
            (with_shard_version server start_failed s v missing mismatch body db)
    unfolding with_shard_version IsAtomic
    with_shard_version-IsAtomic body has msg missing mismatch db =
        elim (Answer-cases (server.begin db).0) [
          | inr (error, e) ↦ rw (e, with_shard_version) (inl (view.begin_fault db error e))
          | inl (tx, e) ↦
              let (rows_kept, before) = read-keeps s tx in
              let (tx_is, tx_from) = view.begin_value db tx e in
              let tx1 = (read_shard_version server s tx).1 in
              let unchanged = view.rollback_rows tx1 ∙ before ∙ tx_from in
              let done : (a : A) (tx2 : Tx)
                  → body tx1 ≡ (ok a, tx2)
                  → Effect (rows db) (tx_rows tx2) =
                λ a tx2 h.
                  subst (λ t. Effect t (tx_rows tx2)) (rows_kept ∙ tx_is)
                    (has.effect_done tx1 tx2 a h) in
              elim (Answer-cases (read_shard_version server s tx).0) [
                | inr (error, e1) ↦ rw (e, with_shard_version) (rw e1 (inl unchanged))
                | inl (version, e1) ↦ elim (Bool-cases (version == v)) [
                  | inr differs ↦ rw (e, with_shard_version) (rw e1 (rw differs (inl unchanged)))
                  | inl same ↦
                      rw (e, with_shard_version)
                        (rw e1 (
                          rw same (
                            finish-IsAtomic (body tx1) db (has.before_kept tx1 ∙ before ∙ tx_from)
                              (read-Owns s v version db tx tx_is e1 same) done)))
                ]
              ]
        ]

  -- `IsAtomic` of a call that returns an error or nil.
  unfoldable pub IsAtomicCall : ℕ → ℕ → (Table → Table → Type 0) → Db → Option DbError × Db → Type 0
  IsAtomicCall s v Effect db (none, db') = Owns s v db × Effect (rows db) (rows db')
  IsAtomicCall s v Effect db (some e, db') =
      (rows db' ≡ rows db) ⊎ (CommitFailed db e db' × Owns s v db × Effect (rows db) (rows db'))

  pub IsAtomicCall-error_of :
      (s v : ℕ) (Effect : Table → Table → Type 0) (db : Db) (out : Result (Unit {0}) × Db)
      → IsAtomic s v Effect db out
      → IsAtomicCall s v Effect db (error_of out.0, out.1)
  unfolding IsAtomicCall IsAtomic
  IsAtomicCall-error_of s v Effect db (ok _, db') h = h
  IsAtomicCall-error_of s v Effect db (err _, db') h = h
