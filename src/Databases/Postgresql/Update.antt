-- ===== src/Databases/Postgresql/Update.antt =====
-- The updates of timers in the PostgreSQL store
-- (server/databases/postgresql/postgresql_timer_store_impl.go): `UpdateTimer` and `UpdateTimerNoLock`.
-- The execution time is part of the primary key, so a timer with another one is deleted and inserted.
use durable_timer.Base.{ℕ, String, Bool, ◌&&◌, Option, none, some, ◌==◌, if◌then◌else◌}
use durable_timer.Databases.Models.{
  Time, Uuid, DbError, DbTimer, UpdateDbTimerRequest, row_type_timer, new_generic_db_error,
  new_db_error_on_shard_condition_fail, new_db_error_not_exists,
}
use durable_timer.Databases.Results.{
  Result, ok, err, Answer, value, fault, ◌>>=◌, or_generic, error_of,
}
use durable_timer.Databases.Rows.{Row, is_timer_row, timer_row}
use durable_timer.Databases.Sql.{Server, insert, update, delete, select, first_row}
use durable_timer.Databases.Codec.{Codec, Encoded, encode}
use durable_timer.Databases.Sql.Columns.{then_scan}
use durable_timer.Databases.Sql.Session.{with_shard_version, finish, check_rows}
use durable_timer.Databases.Postgresql.Write.{start_failed}

-- WHERE shard_id = ? AND row_type = 2 AND timer_execute_at = ? AND timer_uuid = ?
unfoldable pub is_timer_at : ℕ → Time → Uuid → Row → Bool
is_timer_at shard_id execute_at timer_uuid r =
    r.shard_id == shard_id
    && r.row_type == row_type_timer
    && r.timer_execute_at == execute_at
    && r.timer_uuid == timer_uuid

-- The columns of the timer that is there.
pub record CurrentTimer : Type 0 where
  pub execute_at : Time
  pub timer_uuid : Uuid
  pub created_at : Time
  pub attempts : ℕ

module _ {Json : Type 0} where
  -- SET timer_callback_url = ?, timer_payload = ?, timer_retry_policy = ?,
  -- timer_callback_timeout_seconds = ?
  unfoldable pub set_callback : UpdateDbTimerRequest Json → Encoded → Row → Row
  set_callback request j r = record r {
    timer_callback_url = some request.callback_url;
    timer_payload = j.payload_json;
    timer_retry_policy = j.retry_policy_json;
    timer_callback_timeout_seconds = some request.callback_timeout_seconds;
  }

  -- The row of the timer at its new execution time, with the UUID, the time of the creation and the
  -- attempts that it had.
  unfoldable pub moved_row :
      ℕ → String → UpdateDbTimerRequest Json → Encoded → CurrentTimer → Uuid → Row
  unfolding timer_row
  moved_row shard_id namespace request j current timer_uuid =
      let moved : DbTimer Json = record {
        id = request.timer_id;
        timer_uuid = timer_uuid;
        namespace = namespace;
        execute_at = request.execute_at;
        callback_url = request.callback_url;
        payload = request.payload;
        retry_policy = request.retry_policy;
        callback_timeout_seconds = request.callback_timeout_seconds;
        created_at = current.created_at;
        updated_at = 0;
        executed_at = 0;
        attempts = current.attempts;
      } in
      timer_row shard_id moved j.payload_json j.retry_policy_json

module _ (server : Server) where
  -- `Scan` of the columns of the current timer
  unfoldable pub scan_current : Answer Row → Answer CurrentTimer
  scan_current (fault e) = fault e
  scan_current (value r) = then_scan server r.timer_created_at (λ created_at.
      then_scan server r.timer_attempts (λ attempts. value (record {
        execute_at = r.timer_execute_at;
        timer_uuid = r.timer_uuid;
        created_at = created_at;
        attempts = attempts;
      })))

-- The error of a read of the current timer
abbrev pub current_or_error : Answer CurrentTimer → Result CurrentTimer
current_or_error (value c) = ok c
current_or_error (fault e) = err (
    if e.is_no_rows
    then new_db_error_not_exists "timer not found for update" (some e)
    else new_generic_db_error "failed to read current timer" (some e))

-- The answer to the statement of an update in place
abbrev pub updated : Answer (Answer ℕ) → Result (Unit {0})
updated res = do
  rows_affected ← or_generic "failed to update timer" res
  check_rows (new_db_error_not_exists "timer not found for update" none) rows_affected

-- `parse_uuid` is `uuid.Parse` of the text that the driver gives for the UUID of a row.
module _ {Json : Type 0} (server : Server) (codec : Codec Json)
    (parse_uuid : Uuid → Answer Uuid) where
  open server use {Db, Tx}

  abbrev inserted : Answer (Answer ℕ) → Result (Unit {0})
  inserted (value _) = ok tt
  inserted (fault e) = err (new_generic_db_error "failed to insert updated timer" (some e))

  -- The deletion of the timer that is there and the insert of the new one
  unfoldable pub move_timer :
      ℕ → UpdateDbTimerRequest Json → CurrentTimer → Uuid → Row → Tx → Result (Unit {0}) × Tx
  unfolding is_timer_at
  move_timer shard_id request current timer_uuid row tx =
      let (res, tx1) =
        server.tx_exec (delete (is_timer_at shard_id current.execute_at timer_uuid) none) tx in
      let (answer, tx2) = server.tx_exec (insert row) tx1 in
      elim res [
        | fault e ↦ (err (new_generic_db_error "failed to delete timer for update" (some e)), tx1)
        | value _ ↦ (inserted answer, tx2)
      ]

  -- What `UpdateTimer` does in its transaction.
  unfoldable pub update_current :
      ℕ → String → UpdateDbTimerRequest Json → Encoded → Tx → Result (Unit {0}) × Tx
  unfolding scan_current set_callback moved_row move_timer
  update_current shard_id namespace request j tx =
      let is_timer = is_timer_row shard_id namespace request.timer_id in
      let (res, tx1) = server.tx_query (select is_timer) tx in
      elim (current_or_error (scan_current server (first_row server.no_rows res))) [
        | err e ↦ (err e, tx1)
        | ok current ↦
            if current.execute_at == request.execute_at
            then (let (answer, tx2) =
                  server.tx_exec (update (set_callback request j) is_timer) tx1 in
                (updated answer, tx2))
            else elim (parse_uuid current.timer_uuid) [
              | fault e ↦
                  (err (new_generic_db_error "failed to parse current timer UUID" (some e)), tx1)
              | value timer_uuid ↦
                  move_timer shard_id request current timer_uuid
                    (moved_row shard_id namespace request j current timer_uuid) tx1
            ]
      ]

  -- `UpdateTimer`
  unfoldable pub update_timer :
      ℕ → ℕ → String → UpdateDbTimerRequest Json → Db → Option DbError × Db
  unfolding encode with_shard_version update_current
  update_timer shard_id shard_version namespace request db =
      elim (encode codec request.payload request.retry_policy) [
        | err e ↦ (some e, db)
        | ok j ↦
            let (res, db') =
              with_shard_version server start_failed shard_id shard_version
                (new_db_error_on_shard_condition_fail "shard not found during timer update" none)
                (new_db_error_on_shard_condition_fail "shard version mismatch during timer update"
                  none)
                (update_current shard_id namespace request j) db in
            (error_of res, db')
      ]

  -- The move of a timer in a transaction of its own.
  unfoldable pub move_timer_in_txn :
      ℕ → UpdateDbTimerRequest Json → CurrentTimer → Uuid → Row → Db → Result (Unit {0}) × Db
  unfolding finish move_timer
  move_timer_in_txn shard_id request current timer_uuid row db =
      let (started, db1) = server.begin db in
      elim started [
        | fault e ↦ (err (new_generic_db_error start_failed (some e)), db1)
        | value tx ↦ finish server (move_timer shard_id request current timer_uuid row tx)
      ]

  -- `UpdateTimerNoLock`, which reads the current timer outside of a transaction.
  unfoldable pub update_timer_no_lock :
      ℕ → String → UpdateDbTimerRequest Json → Db → Option DbError × Db
  unfolding encode scan_current set_callback moved_row move_timer_in_txn
  update_timer_no_lock shard_id namespace request db =
      elim (encode codec request.payload request.retry_policy) [
        | err e ↦ (some e, db)
        | ok j ↦
            let is_timer = is_timer_row shard_id namespace request.timer_id in
            let (res, db1) = server.query (select is_timer) db in
            elim (current_or_error (scan_current server (first_row server.no_rows res))) [
              | err e ↦ (some e, db1)
              | ok current ↦
                  if current.execute_at == request.execute_at
                  then (let (answer, db2) =
                        server.exec (update (set_callback request j) is_timer) db1 in
                      (error_of (updated answer), db2))
                  else elim (parse_uuid current.timer_uuid) [
                    | fault e ↦ (
                      some (new_generic_db_error "failed to parse current timer UUID" (some e)),
                      db1,
                    )
                    | value timer_uuid ↦
                        let (moved, db2) =
                          move_timer_in_txn shard_id request current timer_uuid
                            (moved_row shard_id namespace request j current timer_uuid) db1 in
                        (error_of moved, db2)
                  ]
            ]
      ]
