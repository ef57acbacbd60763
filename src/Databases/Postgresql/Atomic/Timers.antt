-- ===== src/Databases/Postgresql/Atomic/Timers.antt =====
-- What `DeleteTimer` of the PostgreSQL store
-- (server/databases/postgresql/postgresql_timer_store_impl.go) makes of the table.
use durable_timer.Base.{ℕ, String, Bool, ◌≡◌, ◌<◌, inl, inr, ◌∙◌, ap, sym, none, arith}
use durable_timer.Databases.Results.{Result, Answer-cases}
use durable_timer.Databases.Rows.{Row, is_timer_row}
use durable_timer.Databases.Sql.{Server, delete}
use durable_timer.Databases.Table.{Table, without_rows}
use durable_timer.Databases.Sql.Laws.{TableView}
use durable_timer.Databases.Sql.Atomic.{
  IsAtomicCall, IsAtomicCall-error_of, HasEffect, with_shard_version-IsAtomic,
}
use durable_timer.Databases.Postgresql.Write.{delete_timer, deleted}

-- The rows that pass the test are there, and then gone.
abbrev pub Removes : (Row → Bool) → Table → Table → Type 0
Removes p before after = (0 < before p) × (after ≡ without_rows p before)

module _ (server : Server) (view : TableView server) where
  open server use {Db, Tx}
  open view use {tx_rows}

  abbrev delete_body : (Row → Bool) → Tx → Result (Unit {0}) × Tx
  delete_body p tx = let (answer, tx') = server.tx_exec (delete p none) tx in (deleted answer, tx')

  delete_body-HasEffect : (p : Row → Bool) → HasEffect server view (Removes p) (delete_body p)
  delete_body-HasEffect p = record {
    before_kept = λ tx. view.tx_exec_before _ tx;
    effect_done = λ tx tx' a h. elim (Answer-cases (server.tx_exec (delete p none) tx).0) [
      | inl (n, e) ↦
          let (count, gone) = view.tx_delete p tx n e in
          (ground (arith, h, e, count), sym (ap (λ o. tx_rows o.1) h) ∙ gone)
      | inr (error, e) ↦ absurd (ground (arith, e, h))
    ];
  }

  -- Over a server that keeps the laws of a table: a deletion of the PostgreSQL store that succeeds
  -- was sent with the stored version of the shard and had a row of the timer to remove, and changes no other
  -- row; one that fails changes nothing, unless its error reports a commit that failed, the version was the
  -- stored one and the deletion took place.
  pub delete_existing-IsAtomicCall :
      (shard_id shard_version : ℕ) (namespace timer_id : String) (db : Db)
      → IsAtomicCall server view shard_id shard_version
          (Removes (is_timer_row shard_id namespace timer_id))
          db
          (delete_timer server shard_id shard_version namespace timer_id db)
  unfolding delete_timer
  delete_existing-IsAtomicCall s v ns id db =
      IsAtomicCall-error_of server view s v _ db _
        (with_shard_version-IsAtomic server view s v _ _ (delete_body-HasEffect _) _ _ _ db)
