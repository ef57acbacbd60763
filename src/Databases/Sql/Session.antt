-- ===== src/Databases/Sql/Session.antt =====
-- What the operations of the SQL stores (server/databases/mysql, postgresql) share: the transaction that
-- checks the shard's version, and the reading of the number of rows.
use durable_timer.Base.{ℕ, String, not, none, some, ◌==◌, if◌then◌else◌}
use durable_timer.Databases.Models.{DbError, new_generic_db_error}
use durable_timer.Databases.Results.{Answer, value, fault, Result, ok, err}
use durable_timer.Databases.Rows.{Row, is_shard_row}
use durable_timer.Databases.Sql.{Server, select, first_row}
use durable_timer.Databases.Sql.Columns.{scan_column}

-- `RowsAffected`, and the error for none
abbrev pub check_rows : DbError → Answer ℕ → Result (Unit {0})
check_rows no_match (fault e) = err (new_generic_db_error "failed to get rows affected" (some e))
check_rows no_match (value n) = if n == 0 then err no_match else ok tt

module _ (server : Server) where
  open server use {Db, Tx}

  abbrev scan_version : Answer Row → Answer ℕ
  scan_version (value r) = scan_column server r.shard_version
  scan_version (fault e) = fault e

  -- `SELECT shard_version` of the shard's row, in the transaction
  unfoldable pub read_shard_version : ℕ → Tx → Answer ℕ × Tx
  read_shard_version shard_id tx =
      let (res, tx') = server.tx_query (select (is_shard_row shard_id)) tx in
      (scan_version (first_row server.no_rows res), tx')

  module _ {A : Type 0} where
    -- The commit at the end of an operation; any other return rolls the transaction back.
    unfoldable pub finish : Result A × Tx → Result A × Db
    finish (err e, tx) = (err e, server.rollback tx)
    finish (ok a, tx) =
        let (commit_err, db') = server.commit tx in
        (
          elim commit_err [
            | none ↦ ok a
            | some e ↦ err (new_generic_db_error "failed to commit transaction" (some e))
          ],
          db',
        )

    -- The body of an operation in a transaction that first compares the shard's version; `start_failed`,
    -- `missing` and `mismatch` are what the operation says of a transaction that does not start, a shard without a
    -- row and another version.
    unfoldable pub with_shard_version :
        String → ℕ → ℕ → DbError → DbError → (Tx → Result A × Tx) → Db → Result A × Db
    unfolding finish read_shard_version
    with_shard_version start_failed shard_id shard_version missing mismatch body db =
        let (started, db1) = server.begin db in
        elim started [
          | fault e ↦ (err (new_generic_db_error start_failed (some e)), db1)
          | value tx ↦
              let (actual, tx1) = read_shard_version shard_id tx in
              elim actual [
                | fault e ↦ (
                  err (
                      if e.is_no_rows
                      then missing
                      else new_generic_db_error "failed to read shard" (some e)),
                  server.rollback tx1,
                )
                | value version ↦
                    if not (version == shard_version)
                    then (err mismatch, server.rollback tx1)
                    else finish (body tx1)
              ]
        ]
