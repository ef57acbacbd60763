-- ===== src/Databases/Mysql/Write.antt =====
-- The operations of the MySQL store on single timers
-- (server/databases/mysql/mysql_timer_store_impl.go): `CreateTimer`, `UpdateTimer`, `DeleteTimer`
-- and those without a check of the shard's version.
pub mod Fence
use durable_timer.Base.{ℕ, String, Option, none, some, ◌==◌, str_eq, if◌then◌else◌}
use durable_timer.Databases.Models.{
  Time, Uuid, DbError, DbTimer, UpdateDbTimerRequest, new_generic_db_error,
  new_db_error_on_shard_condition_fail, new_db_error_not_exists,
}
use durable_timer.Databases.TimerUuid.{generate_timer_uuid}
use durable_timer.Databases.Results.{
  Result, ok, err, Answer, value, fault, ◌>>=◌, or_generic, error_of,
}
use durable_timer.Databases.Rows.{Row, is_timer_row, timer_row, overwrite_timer}
use durable_timer.Databases.Sql.{Server, upsert, update, delete}
use durable_timer.Databases.Codec.{Codec, encode_json, encode}
use durable_timer.Databases.Sql.Session.{with_shard_version, check_rows}

-- SET timer_execute_at = ?, timer_uuid = ?, ..., timer_attempts = 0
unfoldable pub reschedule :
    {Json : Type 0} → Uuid → UpdateDbTimerRequest Json → Option String → Option String → Row → Row
reschedule new_timer_uuid request payload_json retry_policy_json r = record r {
  timer_execute_at = request.execute_at;
  timer_uuid = new_timer_uuid;
  timer_callback_url = some request.callback_url;
  timer_payload = payload_json;
  timer_retry_policy = retry_policy_json;
  timer_callback_timeout_seconds = some request.callback_timeout_seconds;
  timer_attempts = some 0;
}

abbrev pub start_failed : String
start_failed = "failed to start MySQL transaction"

module _ {Json : Type 0} (server : Server) (codec : Codec Json) where
  open server use {Db, Tx}

  -- The upsert of a timer, whose number of rows is not read.
  abbrev upserted : Answer (Answer ℕ) → Result (Unit {0})
  upserted (value _) = ok tt
  upserted (fault e) = err (new_generic_db_error "failed to upsert timer" (some e))

  abbrev upsert_timer : Row → Unit {0} → Db → Result (Unit {0}) × Db
  upsert_timer row _ db =
      let (res, db') = server.exec (upsert row (overwrite_timer row)) db in (upserted res, db')

  abbrev pub tx_upsert_timer : Row → Tx → Result (Unit {0}) × Tx
  tx_upsert_timer row tx =
      let (res, tx') = server.tx_exec (upsert row (overwrite_timer row)) tx in (upserted res, tx')

  -- `CreateTimer`; the namespace of the row is the timer's own.
  unfoldable pub create_timer : ℕ → ℕ → String → DbTimer Json → Db → Option DbError × Db
  unfolding encode timer_row overwrite_timer with_shard_version
  create_timer shard_id shard_version namespace timer db =
      elim (encode codec timer.payload timer.retry_policy) [
        | err e ↦ (some e, db)
        | ok j ↦
            let row = timer_row shard_id timer j.payload_json j.retry_policy_json in
            let (res, db') =
              with_shard_version server start_failed shard_id shard_version
                (new_db_error_on_shard_condition_fail "shard not found during timer creation" none)
                (new_db_error_on_shard_condition_fail "shard version mismatch during timer creation"
                  none)
                (tx_upsert_timer row) db in
            (error_of res, db')
      ]

  -- `CreateTimerNoLock`
  unfoldable pub create_timer_no_lock : ℕ → String → DbTimer Json → Db → Option DbError × Db
  unfolding encode timer_row overwrite_timer
  create_timer_no_lock shard_id namespace timer db =
      elim (encode codec timer.payload timer.retry_policy) [
        | err e ↦ (some e, db)
        | ok j ↦
            let row = timer_row shard_id timer j.payload_json j.retry_policy_json in
            let (res, db') = upsert_timer row tt db in (error_of res, db')
      ]

  -- How both updates read the answer to their statement.
  abbrev pub updated : Answer (Answer ℕ) → Result (Unit {0})
  updated res = do
    rows_affected ← or_generic "failed to update timer" res
    check_rows (new_db_error_not_exists "timer not found for update" none) rows_affected

  -- `UpdateTimer`, over the digest of the timer's UUID
  unfoldable pub update_timer :
      (String → Uuid) → ℕ → ℕ → String → UpdateDbTimerRequest Json → Db → Option DbError × Db
  unfolding encode reschedule with_shard_version generate_timer_uuid
  update_timer md5 shard_id shard_version namespace request db =
      elim (encode codec request.payload request.retry_policy) [
        | err e ↦ (some e, db)
        | ok j ↦
            let new_timer_uuid = generate_timer_uuid md5 namespace request.timer_id in
            let set = reschedule new_timer_uuid request j.payload_json j.retry_policy_json in
            let (res, db') =
              with_shard_version server start_failed shard_id shard_version
                (new_db_error_on_shard_condition_fail "shard not found during timer update" none)
                (new_db_error_on_shard_condition_fail "shard version mismatch during timer update"
                  none)
                (λ tx.
                  let (answer, tx') =
                    server.tx_exec (update set (is_timer_row shard_id namespace request.timer_id))
                      tx in
                  (updated answer, tx'))
                db in
            (error_of res, db')
      ]

  -- `UpdateTimerNoLock`
  unfoldable pub update_timer_no_lock :
      (String → Uuid) → ℕ → String → UpdateDbTimerRequest Json → Db → Option DbError × Db
  unfolding encode reschedule generate_timer_uuid
  update_timer_no_lock md5 shard_id namespace request db =
      elim (encode codec request.payload request.retry_policy) [
        | err e ↦ (some e, db)
        | ok j ↦
            let new_timer_uuid = generate_timer_uuid md5 namespace request.timer_id in
            let set = reschedule new_timer_uuid request j.payload_json j.retry_policy_json in
            let (answer, db') =
              server.exec (update set (is_timer_row shard_id namespace request.timer_id)) db in
            (error_of (updated answer), db')
      ]

module _ (server : Server) where
  open server use {Db, Tx}

  abbrev pub deleted : Answer (Answer ℕ) → Result (Unit {0})
  deleted (value _) = ok tt
  deleted (fault e) = err (new_generic_db_error "failed to delete timer" (some e))

  -- `DeleteTimer`, for which a timer that is not there is no error.
  unfoldable pub delete_timer : ℕ → ℕ → String → String → Db → Option DbError × Db
  unfolding with_shard_version
  delete_timer shard_id shard_version namespace timer_id db =
      let (res, db') =
        with_shard_version server start_failed shard_id shard_version
          (new_db_error_on_shard_condition_fail "shard not found during timer delete" none)
          (new_db_error_on_shard_condition_fail "shard version mismatch during timer delete" none)
          (λ tx.
            let (answer, tx') =
              server.tx_exec (delete (is_timer_row shard_id namespace timer_id) none) tx in
            (deleted answer, tx'))
          db in
      (error_of res, db')

  -- `DeleteTimerNoLock`, for which it is.
  unfoldable pub delete_timer_no_lock : ℕ → String → String → Db → Option DbError × Db
  delete_timer_no_lock shard_id namespace timer_id db =
      let (answer, db') = server.exec (delete (is_timer_row shard_id namespace timer_id) none) db in
      (
        error_of (do
          rows_affected ← or_generic "failed to delete timer" answer
          check_rows (new_db_error_not_exists "timer not found for deletion" none) rows_affected),
        db',
      )
