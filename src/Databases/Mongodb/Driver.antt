-- ===== src/Databases/Mongodb/Driver.antt =====
-- The calls of the MongoDB driver that the store (server/databases/mongodb) makes, as data, and the
-- interface of the driver, which is a parameter. A document of the collection `timers` is a row, in
-- which `none` is a field that is missing or null.
use durable_timer.Base.{ℕ, Bool, Option, none, some, List}
use durable_timer.Databases.Models.{GoError}
use durable_timer.Databases.Results.{Answer}
use durable_timer.Databases.Rows.{Row}

pub data Write : Type 0 where
  insert_one : Row → Write
  -- UpdateOne with a filter and a $set
  update_one : (Row → Bool) → (Row → Row) → Write
  -- the same with upsert, and the document that it inserts where no document matches
  upsert_one : (Row → Bool) → (Row → Row) → Row → Write
  delete_one : (Row → Bool) → Write
  delete_many : (Row → Bool) → Write

-- `*mongo.Cursor`: what `Decode` gives after every `Next`, and then `Err`.
pub record Cursor : Type 0 where
  pub docs : List (Answer Row)
  pub err : Option GoError

-- `*mongo.Client` with the collection. A write answers with the number of documents that it matched, or
-- deleted.
pub record Client : Type 1 where
  pub Db : Type 0
  pub Session : Type 0
  pub write : Write → Db → Answer ℕ × Db
  -- `FindOne(...).Decode`, where `none` is `mongo.ErrNoDocuments`
  pub find_one : (Row → Bool) → Db → Answer (Option Row) × Db
  -- `Find` with the order of time and UUID, and a limit
  pub find : (Row → Bool) → ℕ → Db → Answer Cursor × Db
  pub start_session : Db → Answer Session × Db
  pub start_transaction : Session → Option GoError × Session
  pub session_write : Write → Session → Answer ℕ × Session
  pub session_find_one : (Row → Bool) → Session → Answer (Option Row) × Session
  pub commit_transaction : Session → Option GoError × Session
  pub abort_transaction : Session → Session
  -- `EndSession`, which aborts a transaction that is still running
  pub end_session : Session → Db

-- `getInt64FromBSON`, `getStringFromBSON` and `getTimeFromBSON`: a missing field gives the zero value.
abbrev pub or_zero {ℓ} : {A : Type ℓ} → A → Option A → A
or_zero zero_value none = zero_value
or_zero zero_value (some a) = a
