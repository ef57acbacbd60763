-- ===== src/Databases/Mongodb/Laws.antt =====
-- What is documented of sessions of the MongoDB driver (server/databases/mongodb), for a collection that
-- no other session changes meanwhile. The collection is seen as how many of its documents pass a test.
use durable_timer.Base.{ℕ, Bool, true, ◌≡◌, ◌<◌, ◌&&◌, ◌==◌, none, some}
use durable_timer.Databases.Models.{GoError}
use durable_timer.Databases.Results.{value, fault}
use durable_timer.Databases.Rows.{Row, is_shard_row}
use durable_timer.Databases.Table.{Table}
use durable_timer.Databases.Mongodb.Driver.{Client, or_zero}

-- A document of the shard whose version, 0 where it is missing, is the given one.
unfoldable pub has_version : ℕ → ℕ → Row → Bool
has_version shard_id version r = is_shard_row shard_id r && or_zero 0 r.shard_version == version

-- The collection, what a session that ends now would leave of it, and what a session reads of it.
pub record DocView (client : Client) : Type 0 where
  pub rows : client.Db → Table
  pub left : client.Session → Table
  pub seen : client.Session → Table
  pub start_fault :
      (db : client.Db) (e : GoError)
      → (client.start_session db).0 ≡ fault e
      → rows (client.start_session db).1 ≡ rows db
  pub start_value :
      (db : client.Db) (session : client.Session)
      → (client.start_session db).0 ≡ value session
      → left session ≡ rows db
  -- a transaction starts from what was there, and no read and no abort changes it
  pub transaction_left :
      (session : client.Session) → left (client.start_transaction session).1 ≡ left session
  pub transaction_seen :
      (session : client.Session)
      → (client.start_transaction session).0 ≡ none
      → seen (client.start_transaction session).1 ≡ left session
  pub find_left :
      (p : Row → Bool) (session : client.Session)
      → left (client.session_find_one p session).1 ≡ left session
  -- a document that is found passes the filter, and the collection has it
  pub find_some :
      (p : Row → Bool) (session : client.Session) (doc : Row)
      → (client.session_find_one p session).0 ≡ value (some doc)
      → (p doc ≡ true) × ((q : Row → Bool) → q doc ≡ true → 0 < seen session q)
  pub abort_left :
      (session : client.Session) → left (client.abort_transaction session) ≡ left session
  pub end_rows : (session : client.Session) → rows (client.end_session session) ≡ left session
