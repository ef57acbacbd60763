-- ===== src/Databases/Cassandra/Laws.antt =====
-- What Cassandra documents of the conditional statements that the store (server/databases/cassandra)
-- sends, for a table as how many of its rows pass a test.
use durable_timer.Base.{ℕ, Bool, true, false, ◌&&◌, ◌≡◌, List, ◌∷◌}
use durable_timer.Databases.Results.{Answer, value, fault}
use durable_timer.Databases.Rows.{Row, number_is}
use durable_timer.Databases.Sql.{Query}
use durable_timer.Databases.Table.{Table, with_rows_changed}
use durable_timer.Databases.Cassandra.Cql.{Session, Key, has_key, Cql, Cas, update_if_version}

-- The rows that a condition on the version holds for.
unfoldable pub has_version : Key → ℕ → Row → Bool
unfolding has_key
has_version k version r = has_key k r && number_is r.shard_version version

-- Whether a statement, or a batch, is answered as applied.
abbrev pub is_applied : Answer Bool → Bool
is_applied (value applied) = applied
is_applied (fault _) = false

abbrev pub is_batch_applied : Answer Cas → Bool
is_batch_applied (value c) = c.applied
is_batch_applied (fault _) = false

pub record CasView (session : Session) : Type 0 where
  pub rows : session.Db → Table
  -- what the columns keep of a row, among them the version and no row that was not there
  pub stored : Row → Row
  pub stored_version : (r : Row) → (stored r).shard_version ≡ r.shard_version
  pub rows_never : (db : session.Db) → rows db (λ r. false) ≡ 0
  -- a query changes nothing
  pub iterate_rows : (q : Query) (db : session.Db) → rows (session.iterate q db).1 ≡ rows db
  -- a statement whose condition no row meets changes nothing, and is not answered as applied; the
  -- other statements of a batch go with it
  pub cas_refused :
      (f : Row → Row) (k : Key) (version : ℕ) (db : session.Db)
      → rows db (has_version k version) ≡ 0
      → (is_applied (session.cas (update_if_version f k version) db).0 ≡ false)
        × (rows (session.cas (update_if_version f k version) db).1 ≡ rows db)
  pub batch_refused :
      (f : Row → Row) (k : Key) (version : ℕ) (others : List Cql) (db : session.Db)
      → rows db (has_version k version) ≡ 0
      → (is_batch_applied (session.batch_cas (update_if_version f k version ∷ others) db).0 ≡ false)
        × (rows (session.batch_cas (update_if_version f k version ∷ others) db).1 ≡ rows db)
  -- one that is answered as applied has changed the rows that meet it
  pub cas_applied :
      (f : Row → Row) (k : Key) (version : ℕ) (db : session.Db)
      → is_applied (session.cas (update_if_version f k version) db).0 ≡ true
      → rows (session.cas (update_if_version f k version) db).1
        ≡ with_rows_changed (λ r. stored (f r)) (has_version k version) (rows db)
