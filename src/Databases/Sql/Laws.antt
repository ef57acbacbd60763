-- ===== src/Databases/Sql/Laws.antt =====
-- What MySQL and PostgreSQL document of the statements that the stores (server/databases/mysql,
-- postgresql) send, for a table that no other session changes meanwhile. A table is seen as how many of its rows pass a test,
-- so the order of the rows is not part of it.
use durable_timer.Base.{ℕ, true, false, ◌<◌, Bool, ◌≡◌, ◌⊎◌, none, some}
use durable_timer.Databases.Models.{GoError}
use durable_timer.Databases.Rows.{Row}
use durable_timer.Databases.Sql.{
  select, first_row, Server, Statement, insert, update, delete, Query,
}
use durable_timer.Databases.Results.{Answer, value, fault}
use durable_timer.Databases.Table.{Table, with_rows_changed, with_row, without_rows}

-- The tables that a server shows, in a session and in a transaction, with what the transaction began
-- from, and the laws of the statements. `stored` is what the columns keep of a row.
pub record TableView (server : Server) : Type 0 where
  pub rows : server.Db → Table
  pub tx_rows : server.Tx → Table
  pub tx_before : server.Tx → Table
  pub stored : Row → Row
  -- a statement that fails changes nothing, and one that succeeds knows how many rows it affected
  pub exec_fault :
      (s : Statement) (db : server.Db) (e : GoError)
      → (server.exec s db).0 ≡ fault e
      → rows (server.exec s db).1 ≡ rows db
  pub exec_insert :
      (r : Row) (db : server.Db) (n : Answer ℕ)
      → (server.exec (insert r) db).0 ≡ value n
      → rows (server.exec (insert r) db).1 ≡ with_row (stored r) (rows db)
  pub exec_update :
      (f : Row → Row) (p : Row → Bool) (db : server.Db) (n : Answer ℕ)
      → (server.exec (update f p) db).0 ≡ value n
      → (n ≡ value (rows db p))
        × (rows (server.exec (update f p) db).1 ≡ with_rows_changed (λ r. stored (f r)) p (rows db))
  pub tx_insert :
      (r : Row) (tx : server.Tx) (n : Answer ℕ)
      → (server.tx_exec (insert r) tx).0 ≡ value n
      → tx_rows (server.tx_exec (insert r) tx).1 ≡ with_row (stored r) (tx_rows tx)
  pub tx_update :
      (f : Row → Row) (p : Row → Bool) (tx : server.Tx) (n : Answer ℕ)
      → (server.tx_exec (update f p) tx).0 ≡ value n
      → (n ≡ value (tx_rows tx p))
        × (tx_rows (server.tx_exec (update f p) tx).1
            ≡ with_rows_changed (λ r. stored (f r)) p (tx_rows tx))
  pub tx_delete :
      (p : Row → Bool) (tx : server.Tx) (n : Answer ℕ)
      → (server.tx_exec (delete p none) tx).0 ≡ value n
      → (n ≡ value (tx_rows tx p))
        × (tx_rows (server.tx_exec (delete p none) tx).1 ≡ without_rows p (tx_rows tx))
  -- a change of rows that are not there is none
  pub none_changed :
      (f : Row → Row) (p : Row → Bool) (db : server.Db)
      → rows db p ≡ 0
      → with_rows_changed f p (rows db) ≡ rows db
  -- what a transaction began from stays, and a query changes nothing
  pub tx_exec_before :
      (s : Statement) (tx : server.Tx) → tx_before (server.tx_exec s tx).1 ≡ tx_before tx
  pub tx_query_before :
      (q : Query) (tx : server.Tx) → tx_before (server.tx_query q tx).1 ≡ tx_before tx
  pub query_rows : (q : Query) (db : server.Db) → rows (server.query q db).1 ≡ rows db
  pub tx_query_rows : (q : Query) (tx : server.Tx) → tx_rows (server.tx_query q tx).1 ≡ tx_rows tx
  -- a row that is read passes the test, and the table has it
  pub tx_select_first :
      (p : Row → Bool) (tx : server.Tx) (r : Row)
      → first_row server.no_rows (server.tx_query (select p) tx).0 ≡ value r
      → (p r ≡ true) × ((q : Row → Bool) → q r ≡ true → 0 < tx_rows tx q)
  -- no row passes a test that is never true, and a column of integers keeps its values
  pub rows_never : (db : server.Db) → rows db (λ r. false) ≡ 0
  pub stored_version : (r : Row) → (stored r).shard_version ≡ r.shard_version
  pub begin_fault :
      (db : server.Db) (e : GoError)
      → (server.begin db).0 ≡ fault e
      → rows (server.begin db).1 ≡ rows db
  pub begin_value :
      (db : server.Db) (tx : server.Tx)
      → (server.begin db).0 ≡ value tx
      → (tx_rows tx ≡ rows db) × (tx_before tx ≡ rows db)
  -- a commit that fails may have taken place
  pub commit_none :
      (tx : server.Tx) → (server.commit tx).0 ≡ none → rows (server.commit tx).1 ≡ tx_rows tx
  pub commit_some :
      (tx : server.Tx) (e : GoError)
      → (server.commit tx).0 ≡ some e
      → (rows (server.commit tx).1 ≡ tx_before tx) ⊎ (rows (server.commit tx).1 ≡ tx_rows tx)
  pub rollback_rows : (tx : server.Tx) → rows (server.rollback tx) ≡ tx_before tx
