-- ===== src/Databases/Postgresql/Write.antt =====
-- The creation and the deletion of timers in the PostgreSQL store
-- (server/databases/postgresql/postgresql_timer_store_impl.go).
use durable_timer.Base.{ℕ, String, Option, none, some}
use durable_timer.Databases.Models.{
  DbError, DbTimer, new_generic_db_error, new_db_error_on_shard_condition_fail,
  new_db_error_not_exists,
}
use durable_timer.Databases.Results.{
  Result, ok, err, Answer, value, fault, ◌>>=◌, or_generic, error_of,
}
use durable_timer.Databases.Rows.{Row, is_timer_row, same_lookup_key, timer_row, overwrite_timer}
use durable_timer.Databases.Sql.{Server, Statement, upsert_on, delete}
use durable_timer.Databases.Codec.{Codec, encode}
use durable_timer.Databases.Sql.Session.{with_shard_version, check_rows}

abbrev pub start_failed : String
start_failed = "failed to start PostgreSQL transaction"

-- INSERT ... ON CONFLICT (shard_id, row_type, timer_namespace, timer_id) DO UPDATE SET ...
abbrev pub upsert_of : Row → Statement
upsert_of row = upsert_on same_lookup_key row (overwrite_timer row)

-- The answer to the upsert, whose number of rows is not read.
abbrev pub upserted : Answer (Answer ℕ) → Result (Unit {0})
upserted (value _) = ok tt
upserted (fault e) = err (new_generic_db_error "failed to upsert timer" (some e))

-- The answer to the deletion, for which a timer that is not there is an error.
abbrev pub deleted : Answer (Answer ℕ) → Result (Unit {0})
deleted res = do
  rows_affected ← or_generic "failed to delete timer" res
  check_rows (new_db_error_not_exists "timer not found" none) rows_affected

module _ {Json : Type 0} (server : Server) (codec : Codec Json) where
  open server use {Db, Tx}

  -- `CreateTimer`; the namespace of the row is the timer's own.
  unfoldable pub create_timer : ℕ → ℕ → String → DbTimer Json → Db → Option DbError × Db
  unfolding encode timer_row overwrite_timer with_shard_version
  create_timer shard_id shard_version namespace timer db =
      elim (encode codec timer.payload timer.retry_policy) [
        | err e ↦ (some e, db)
        | ok j ↦
            let row = timer_row shard_id timer j.payload_json j.retry_policy_json in
            let (res, db') =
              with_shard_version server start_failed shard_id shard_version
                (new_db_error_on_shard_condition_fail "shard not found during timer creation" none)
                (new_db_error_on_shard_condition_fail "shard version mismatch during timer creation"
                  none)
                (λ tx.
                  let (answer, tx') = server.tx_exec (upsert_of row) tx in (upserted answer, tx'))
                db in
            (error_of res, db')
      ]

  -- `CreateTimerNoLock`
  unfoldable pub create_timer_no_lock : ℕ → String → DbTimer Json → Db → Option DbError × Db
  unfolding encode timer_row overwrite_timer
  create_timer_no_lock shard_id namespace timer db =
      elim (encode codec timer.payload timer.retry_policy) [
        | err e ↦ (some e, db)
        | ok j ↦
            let row = timer_row shard_id timer j.payload_json j.retry_policy_json in
            let (answer, db') = server.exec (upsert_of row) db in (error_of (upserted answer), db')
      ]

module _ (server : Server) where
  open server use {Db, Tx}

  -- `DeleteTimer`
  unfoldable pub delete_timer : ℕ → ℕ → String → String → Db → Option DbError × Db
  unfolding with_shard_version
  delete_timer shard_id shard_version namespace timer_id db =
      let (res, db') =
        with_shard_version server start_failed shard_id shard_version
          (new_db_error_on_shard_condition_fail "shard not found during timer delete" none)
          (new_db_error_on_shard_condition_fail "shard version mismatch during timer delete" none)
          (λ tx.
            let (answer, tx') =
              server.tx_exec (delete (is_timer_row shard_id namespace timer_id) none) tx in
            (deleted answer, tx'))
          db in
      (error_of res, db')

  -- `DeleteTimerNoLock`
  unfoldable pub delete_timer_no_lock : ℕ → String → String → Db → Option DbError × Db
  delete_timer_no_lock shard_id namespace timer_id db =
      let (answer, db') = server.exec (delete (is_timer_row shard_id namespace timer_id) none) db in
      (error_of (deleted answer), db')
