-- ===== src/Databases/Sql.antt =====
-- The SQL that the stores over MySQL and PostgreSQL send (server/databases/mysql, postgresql), as data:
-- the statements with their conditions as tests on rows, and the interface of `database/sql` with a
-- driver, which is a parameter.
pub mod Laws
pub mod Columns
pub mod Session
pub mod Claim
pub mod Exclusion
pub mod Fence
pub mod Claimed
pub mod Ranges
pub mod Replace
pub mod Atomic
use durable_timer.Base.{
  ℕ, String, Bool, false, ◌&&◌, ◌||◌, Option, none, some, ◌≡◌, ◌⊎◌, inl, inr, refl, List, [], ◌∷◌,
  ◌==◌, str_eq, ltb, leb,
}
use durable_timer.Databases.Models.{
  Time, Uuid, GoError, ShardMetadata, row_type_shard, row_type_timer, zero_timestamp, zero_uuid,
}
use durable_timer.Databases.Rows.{Row}
use durable_timer.Databases.Results.{Answer, fault, value}

pub data Statement : Type 0 where
  insert : Row → Statement
  -- INSERT ... ON DUPLICATE KEY UPDATE, with what the update makes of the row that is there
  upsert : Row → (Row → Row) → Statement
  -- INSERT ... ON CONFLICT (...) DO UPDATE SET ..., with the columns that are compared
  upsert_on : (Row → Row → Bool) → Row → (Row → Row) → Statement
  -- UPDATE ... SET ... WHERE ...
  update : (Row → Row) → (Row → Bool) → Statement
  -- DELETE ... WHERE ... LIMIT
  delete : (Row → Bool) → Option ℕ → Statement
  -- DELETE ... WHERE ctid IN (SELECT ctid ... ORDER BY timer_execute_at, timer_uuid LIMIT ?)
  delete_in_order : (Row → Bool) → ℕ → Statement

pub data Query : Type 0 where
  select : (Row → Bool) → Query
  -- SELECT ... WHERE ... ORDER BY timer_execute_at ASC, timer_uuid ASC LIMIT ?
  select_in_order : (Row → Bool) → ℕ → Query

-- `*sql.Rows`: the rows that `Next` gives, and then `Err`.
pub record RowSet : Type 0 where
  pub rows : List Row
  pub rows_err : Option GoError

-- `*sql.DB` and `*sql.Tx`. An execution answers with the call of `RowsAffected`.
pub record Server : Type 1 where
  pub Db : Type 0
  pub Tx : Type 0
  pub exec : Statement → Db → Answer (Answer ℕ) × Db
  pub query : Query → Db → Answer RowSet × Db
  pub begin : Db → Answer Tx × Db
  pub tx_exec : Statement → Tx → Answer (Answer ℕ) × Tx
  pub tx_query : Query → Tx → Answer RowSet × Tx
  pub commit : Tx → Option GoError × Db
  pub rollback : Tx → Db
  -- the errors of `Scan`, and `sql.ErrNoRows`
  pub scan_error : GoError
  pub no_rows : GoError

abbrev first_of : GoError → List Row → Option GoError → Answer Row
first_of no_rows [] none = fault no_rows
first_of no_rows [] (some e) = fault e
first_of no_rows (r ∷ _) _ = value r

-- `QueryRowContext`: the first row, or the error of the iteration, or `sql.ErrNoRows`.
abbrev pub first_row : GoError → Answer RowSet → Answer Row
first_row no_rows (fault e) = fault e
first_row no_rows (value s) = first_of no_rows s.rows s.rows_err
