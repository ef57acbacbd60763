-- ===== src/Databases/Mysql/Atomic/Timers.antt =====
-- What `DeleteTimer` of the MySQL store (server/databases/mysql/mysql_timer_store_impl.go) makes of the
-- table, and calls that return an error alone.
use durable_timer.Base.{ℕ, String, Bool, inl, inr, ◌∙◌, ap, sym, none, arith}
use durable_timer.Databases.Results.{Result, Answer-cases}
use durable_timer.Databases.Rows.{Row, is_timer_row}
use durable_timer.Databases.Sql.{Server, delete}
use durable_timer.Databases.Table.{Becomes, without_rows}
use durable_timer.Databases.Sql.Laws.{TableView}
use durable_timer.Databases.Mysql.Write.{delete_timer, deleted}
use durable_timer.Databases.Sql.Atomic.{
  IsAtomicCall, IsAtomicCall-error_of, HasEffect, with_shard_version-IsAtomic,
}

module _ (server : Server) (view : TableView server) where
  open server use {Db, Tx}
  open view use {rows, tx_rows, tx_before}

  abbrev delete_body : (Row → Bool) → Tx → Result (Unit {0}) × Tx
  delete_body p tx =
      let (answer, tx') = server.tx_exec (delete p none) tx in (deleted server answer, tx')

  delete_body-HasEffect :
      (p : Row → Bool) → HasEffect server view (Becomes (without_rows p)) (delete_body p)
  delete_body-HasEffect p = record {
    before_kept = λ tx. view.tx_exec_before _ tx;
    effect_done = λ tx tx' a h. elim (Answer-cases (server.tx_exec (delete p none) tx).0) [
      | inl (n, e) ↦ sym (ap (λ o. tx_rows o.1) h) ∙ (view.tx_delete p tx n e).1
      | inr (error, e) ↦ ground (arith, e, h)
    ];
  }

  -- Over a server that keeps the laws of a table: a deletion that succeeds was sent with the stored
  -- version of the shard, removes the rows of the timer and changes no other row; one that fails changes
  -- nothing, unless its error reports a commit that failed, the version was the stored one and the rows
  -- are gone.
  pub delete_timer-IsAtomicCall :
      (shard_id shard_version : ℕ) (namespace timer_id : String) (db : Db)
      → IsAtomicCall server view shard_id shard_version
          (Becomes (without_rows (is_timer_row shard_id namespace timer_id)))
          db
          (delete_timer server shard_id shard_version namespace timer_id db)
  unfolding delete_timer
  delete_timer-IsAtomicCall s v ns id db =
      IsAtomicCall-error_of server view s v _ db _
        (with_shard_version-IsAtomic server view s v _ _ (delete_body-HasEffect _) _ _ _ db)
