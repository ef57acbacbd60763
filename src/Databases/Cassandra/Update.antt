-- ===== src/Databases/Cassandra/Update.antt =====
-- The updates and deletions of single timers in the Cassandra store
-- (server/databases/cassandra/cassandra_timer_store_impl.go).
use durable_timer.Base.{
  ℕ, ◌+◌, ◌^◌, String, Bool, Option, none, some, List, [], ◌∷◌, ◌==◌, leb, ◌&&◌, if◌then◌else◌,
}
use durable_timer.Databases.Models.{
  Time, DbError, DbTimer, UpdateDbTimerRequest, new_generic_db_error, new_db_error_not_exists,
  new_db_error_on_shard_condition_fail,
}
use durable_timer.Databases.Results.{Result, ok, err, Answer, value, fault, error_of}
use durable_timer.Databases.Codec.{Codec, Encoded, encode}
use durable_timer.Databases.Rows.{Row, timer_row}
use durable_timer.Databases.Cassandra.Cql.{
  Session, Cql, Cas, insert, update_if_exists, delete_if_exists, timer_key, or_zero,
}
use durable_timer.Databases.Cassandra.Lookup.{look_up}
use durable_timer.Databases.Cassandra.Write.{check_version, encode_texts}

module _ {Json : Type 0} where
  -- SET timer_callback_url = ?, ..., timer_attempts = 0
  unfoldable pub set_callback : UpdateDbTimerRequest Json → Encoded → Row → Row
  set_callback request j r = record r {
    timer_callback_url = some request.callback_url;
    timer_payload = j.payload_json;
    timer_retry_policy = j.retry_policy_json;
    timer_callback_timeout_seconds = some request.callback_timeout_seconds;
    timer_attempts = some 0;
  }

  -- The row at the new execution time, with the UUID and the time of creation that were found.
  unfoldable pub moved_row : ℕ → String → UpdateDbTimerRequest Json → Encoded → Row → Row
  unfolding timer_row
  moved_row shard_id namespace request j found =
      let moved : DbTimer Json = record {
        id = request.timer_id;
        timer_uuid = found.timer_uuid;
        namespace = namespace;
        execute_at = request.execute_at;
        callback_url = request.callback_url;
        payload = request.payload;
        retry_policy = request.retry_policy;
        callback_timeout_seconds = request.callback_timeout_seconds;
        created_at = or_zero 0 found.timer_created_at;
        updated_at = 0;
        executed_at = 0;
        attempts = 0;
      } in
      timer_row shard_id moved j.payload_json j.retry_policy_json

  -- The statements that update the row that was found in place, and those that move it.
  unfoldable pub change_in_place : ℕ → UpdateDbTimerRequest Json → Encoded → Row → Cql
  unfolding set_callback
  change_in_place shard_id request j found =
      update_if_exists (set_callback request j)
        (timer_key shard_id found.timer_execute_at found.timer_uuid)

  unfoldable pub move_statements : ℕ → String → UpdateDbTimerRequest Json → Encoded → Row → List Cql
  unfolding moved_row
  move_statements shard_id namespace request j found =
      delete_if_exists (timer_key shard_id found.timer_execute_at found.timer_uuid)
      ∷ insert (moved_row shard_id namespace request j found)
      ∷ []

-- What a batch with the check of the version and a statement on an existing timer says, where it was not
-- applied or failed: `previous` tells the two apart.
unfoldable pub check_fenced_batch : ℕ → String → String → String → Answer Cas → Result (Unit {0})
check_fenced_batch shard_version failed mismatch unexpected (fault e) =
    err (new_generic_db_error failed (some e))
check_fenced_batch shard_version failed mismatch unexpected (value c) =
    if c.applied then ok tt else elim c.previous_version [
      | none ↦ err (new_generic_db_error "shard record does not exist" none)
      | some none ↦ err (new_generic_db_error unexpected none)
      | some (some actual) ↦
          if actual == shard_version
          then err (new_db_error_not_exists "timer not found" none)
          else err (new_db_error_on_shard_condition_fail mismatch none)
    ]

-- What a conditional statement or batch on an existing timer says without that check.
abbrev pub check_exists : String → Answer Bool → Result (Unit {0})
check_exists failed (fault e) = err (new_generic_db_error failed (some e))
check_exists failed (value applied) =
    if applied then ok tt else err (new_db_error_not_exists "timer not found" none)

abbrev pub applied_of : Answer Cas → Answer Bool
applied_of (fault e) = fault e
applied_of (value c) = value c.applied

-- At most a millisecond apart.
unfoldable pub is_near : Time → Time → Bool
is_near t u = leb t (u + 10 ^ 6) && leb u (t + 10 ^ 6)

module _ {Json : Type 0} (session : Session) (codec : Codec Json) where
  open session use {Db}

  -- `UpdateTimer`
  unfoldable pub update_timer :
      ℕ → ℕ → String → UpdateDbTimerRequest Json → Db → Option DbError × Db
  unfolding encode_texts look_up check_version change_in_place move_statements check_fenced_batch
  update_timer shard_id shard_version namespace request db =
      elim (encode_texts codec request.payload request.retry_policy) [
        | err e ↦ (some e, db)
        | ok j ↦
            let (looked_up, db1) =
              look_up session shard_id namespace request.timer_id
                (new_db_error_not_exists "timer not found for update" none) db in
            elim looked_up [
              | err e ↦ (some e, db1)
              | ok found ↦
                  let (res, db2) =
                    session.batch_cas
                      (check_version shard_id shard_version
                        ∷ (if request.execute_at == found.timer_execute_at
                            then change_in_place shard_id request j found ∷ []
                            else move_statements shard_id namespace request j found))
                      db1 in
                  (
                    error_of (
                        check_fenced_batch shard_version "failed to execute atomic update batch"
                          "shard version mismatch during update operation"
                          "unexpected shard version state during update" res),
                    db2,
                  )
            ]
      ]

  -- `UpdateTimerNoLock`, for which a nil value is NULL, and times that are near count as the same.
  unfoldable pub update_timer_no_lock :
      ℕ → String → UpdateDbTimerRequest Json → Db → Option DbError × Db
  unfolding encode look_up is_near change_in_place move_statements
  update_timer_no_lock shard_id namespace request db =
      elim (encode codec request.payload request.retry_policy) [
        | err e ↦ (some e, db)
        | ok j ↦
            let (looked_up, db1) =
              look_up session shard_id namespace request.timer_id
                (new_db_error_not_exists "timer not found for update" none) db in
            elim looked_up [
              | err e ↦ (some e, db1)
              | ok found ↦
                  if is_near request.execute_at found.timer_execute_at
                  then (let (res, db2) =
                        session.cas (change_in_place shard_id request j found) db1 in
                      (error_of (check_exists "failed to execute update query" res), db2))
                  else (let (res, db2) =
                        session.batch_cas (move_statements shard_id namespace request j found)
                          db1 in
                      (
                        error_of
                            (check_exists "failed to execute atomic update batch" (applied_of res)),
                        db2,
                      ))
            ]
      ]

module _ (session : Session) where
  open session use {Db}

  -- `DeleteTimer`
  unfoldable pub delete_timer : ℕ → ℕ → String → String → Db → Option DbError × Db
  unfolding look_up check_version check_fenced_batch
  delete_timer shard_id shard_version namespace timer_id db =
      let (looked_up, db1) =
        look_up session shard_id namespace timer_id (new_db_error_not_exists "timer not found" none)
          db in
      elim looked_up [
        | err e ↦ (some e, db1)
        | ok found ↦
            let (res, db2) =
              session.batch_cas
                (check_version shard_id shard_version
                  ∷ delete_if_exists (timer_key shard_id found.timer_execute_at found.timer_uuid)
                  ∷ [])
                db1 in
            (
              error_of (
                  check_fenced_batch shard_version "failed to execute atomic delete batch"
                    "shard version mismatch during delete operation"
                    "unexpected shard version state during delete" res),
              db2,
            )
      ]

  -- `DeleteTimerNoLock`
  unfoldable pub delete_timer_no_lock : ℕ → String → String → Db → Option DbError × Db
  unfolding look_up
  delete_timer_no_lock shard_id namespace timer_id db =
      let (looked_up, db1) =
        look_up session shard_id namespace timer_id (new_db_error_not_exists "timer not found" none)
          db in
      elim looked_up [
        | err e ↦ (some e, db1)
        | ok found ↦
            let (res, db2) =
              session.cas
                (delete_if_exists (timer_key shard_id found.timer_execute_at found.timer_uuid))
                db1 in
            (error_of (check_exists "failed to execute delete query" res), db2)
      ]
