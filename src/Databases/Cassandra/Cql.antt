-- ===== src/Databases/Cassandra/Cql.antt =====
-- The CQL that the Cassandra store (server/databases/cassandra) sends, as data, and the interface of
-- `gocql`, which is a parameter.
use durable_timer.Base.{ℕ, Bool, Option, none, some, List, [], ◌∷◌, ◌&&◌, ◌==◌}
use durable_timer.Databases.Models.{
  Time, Uuid, GoError, row_type_shard, row_type_timer, zero_timestamp, zero_uuid,
}
use durable_timer.Databases.Results.{Answer, value, fault}
use durable_timer.Databases.Rows.{Row}
use durable_timer.Databases.Sql.{Query}

-- PRIMARY KEY (shard_id, row_type, timer_execute_at, timer_uuid)
pub record Key : Type 0 where
  pub shard_id : ℕ
  pub row_type : ℕ
  pub execute_at : Time
  pub uuid : Uuid

-- WHERE shard_id = ? AND row_type = ? AND timer_execute_at = ? AND timer_uuid = ?
unfoldable pub has_key : Key → Row → Bool
has_key k r =
    r.shard_id == k.shard_id
    && r.row_type == k.row_type
    && r.timer_execute_at == k.execute_at
    && r.timer_uuid == k.uuid

-- The key of the row of a shard, and of a timer.
abbrev pub shard_key : ℕ → Key
shard_key shard_id = record {
  shard_id = shard_id;
  row_type = row_type_shard;
  execute_at = zero_timestamp;
  uuid = zero_uuid;
}

abbrev pub timer_key : ℕ → Time → Uuid → Key
timer_key shard_id execute_at timer_uuid = record {
  shard_id = shard_id;
  row_type = row_type_timer;
  execute_at = execute_at;
  uuid = timer_uuid;
}

pub data Cql : Type 0 where
  -- INSERT, which overwrites the row of the same key
  insert : Row → Cql
  -- INSERT ... IF NOT EXISTS
  insert_if_not_exists : Row → Cql
  -- UPDATE ... SET ... WHERE (key) IF shard_version = ?
  update_if_version : (Row → Row) → Key → ℕ → Cql
  -- UPDATE ... SET ... WHERE (key) IF EXISTS
  update_if_exists : (Row → Row) → Key → Cql
  -- DELETE ... WHERE (range)
  delete_range : (Row → Bool) → Cql
  -- DELETE ... WHERE (key) IF EXISTS
  delete_if_exists : Key → Cql

-- `*gocql.Iter`: the rows that `Scan` gives, and then the error of `Close`.
pub record Iterator : Type 0 where
  pub rows : List Row
  pub close_err : Option GoError

-- What `MapExecuteBatchCAS` returns: whether the batch was applied, and `previous["shard_version"]`, where
-- the key may be missing and the value nil.
pub record Cas : Type 0 where
  pub applied : Bool
  pub previous_version : Option (Option ℕ)

-- `*gocql.Session`
pub record Session : Type 1 where
  pub Db : Type 0
  pub iterate : Query → Db → Iterator × Db
  pub exec : Cql → Db → Option GoError × Db
  -- `MapScanCAS` and `ScanCAS`, of which the store reads whether the statement was applied
  pub cas : Cql → Db → Answer Bool × Db
  pub batch_cas : List Cql → Db → Answer Cas × Db
  -- `gocql.ErrNotFound`
  pub not_found : GoError

abbrev first_of : GoError → List Row → Answer Row
first_of not_found [] = fault not_found
first_of not_found (r ∷ _) = value r

-- `Query.Scan`: the error of the query, or the first row, or `gocql.ErrNotFound`.
abbrev pub first_row : GoError → Iterator → Answer Row
first_row not_found it = elim it.close_err [ some e ↦ fault e | none ↦ first_of not_found it.rows ]

-- `Scan` of a column into a variable; NULL gives the zero value of its type.
abbrev pub or_zero {ℓ} : {A : Type ℓ} → A → Option A → A
or_zero zero_value none = zero_value
or_zero zero_value (some a) = a
