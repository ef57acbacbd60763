-- ===== src/Databases/Mongodb/Write.antt =====
-- The operations of the MongoDB store on single timers
-- (server/databases/mongodb/mongodb_timer_store_impl.go).
use durable_timer.Base.{ℕ, String, Option, none, some}
use durable_timer.Databases.Models.{
  Uuid, DbError, DbTimer, UpdateDbTimerRequest, new_generic_db_error,
  new_db_error_on_shard_condition_fail, new_db_error_not_exists,
}
use durable_timer.Databases.TimerUuid.{generate_timer_uuid}
use durable_timer.Databases.Results.{Result, ok, err, Answer, value, fault, error_of}
use durable_timer.Databases.Codec.{Codec, Encoded, encode}
use durable_timer.Databases.Rows.{Row, is_timer_row, timer_row}
use durable_timer.Databases.Mongodb.Driver.{Client, Write, upsert_one, update_one, delete_one}
use durable_timer.Databases.Mongodb.Session.{with_transaction}
use durable_timer.Databases.Mongodb.Shard.{check_matched}

-- A field that `buildTimerDocumentForUpsert` leaves out where the value is nil: `$set` keeps the old one.
abbrev pub set_unless_nil : Option String → Option String → Option String
set_unless_nil none old = old
set_unless_nil (some text) old = some text

-- `$set` of the document of `buildTimerDocumentForUpsert`
unfoldable pub set_timer : Row → Row → Row
set_timer new r = record r {
  shard_id = new.shard_id;
  row_type = new.row_type;
  timer_execute_at = new.timer_execute_at;
  timer_uuid = new.timer_uuid;
  timer_id = new.timer_id;
  timer_namespace = new.timer_namespace;
  timer_callback_url = new.timer_callback_url;
  timer_payload = set_unless_nil new.timer_payload r.timer_payload;
  timer_retry_policy = set_unless_nil new.timer_retry_policy r.timer_retry_policy;
  timer_callback_timeout_seconds = new.timer_callback_timeout_seconds;
  timer_created_at = new.timer_created_at;
  timer_attempts = new.timer_attempts;
}

abbrev pub upserted : Answer ℕ → Result (Unit {0})
upserted (value _) = ok tt
upserted (fault e) = err (new_generic_db_error "failed to upsert timer" (some e))

module _ {Json : Type 0} where
  -- `buildTimerDocumentForUpsert`
  unfoldable pub build_timer_document : ℕ → DbTimer Json → Encoded → Row
  unfolding timer_row
  build_timer_document shard_id timer j =
      timer_row shard_id timer j.payload_json j.retry_policy_json

  -- The upsert of a timer by its namespace and id
  unfoldable pub upsert_of : ℕ → DbTimer Json → Encoded → Write
  unfolding build_timer_document set_timer
  upsert_of shard_id timer j =
      let doc = build_timer_document shard_id timer j in
      upsert_one (is_timer_row shard_id timer.namespace timer.id) (set_timer doc) doc

  -- `$set` of an update, in which a nil value is null; the attempts stay.
  unfoldable pub set_update : Uuid → UpdateDbTimerRequest Json → Encoded → Row → Row
  set_update timer_uuid request j r = record r {
    timer_execute_at = request.execute_at;
    timer_uuid = timer_uuid;
    timer_callback_url = some request.callback_url;
    timer_callback_timeout_seconds = some request.callback_timeout_seconds;
    timer_payload = j.payload_json;
    timer_retry_policy = j.retry_policy_json;
  }

abbrev pub updated : Answer ℕ → Result (Unit {0})
updated =
    check_matched "failed to update timer"
      (new_db_error_not_exists "timer not found during update" none)

module _ {Json : Type 0} (client : Client) (codec : Codec Json) where
  open client use {Db, Session}

  -- `CreateTimer`
  unfoldable pub create_timer : ℕ → ℕ → String → DbTimer Json → Db → Option DbError × Db
  unfolding encode upsert_of with_transaction
  create_timer shard_id shard_version namespace timer db =
      elim (encode codec timer.payload timer.retry_policy) [
        | err e ↦ (some e, db)
        | ok j ↦
            let (res, db') =
              with_transaction client shard_id shard_version
                (new_db_error_on_shard_condition_fail "shard not found during timer creation" none)
                (new_db_error_on_shard_condition_fail "shard version mismatch during timer creation"
                  none)
                (λ session.
                  let (answer, session') =
                    client.session_write (upsert_of shard_id timer j) session in
                  (upserted answer, session'))
                db in
            (error_of res, db')
      ]

  -- `CreateTimerNoLock`
  unfoldable pub create_timer_no_lock : ℕ → String → DbTimer Json → Db → Option DbError × Db
  unfolding encode upsert_of
  create_timer_no_lock shard_id namespace timer db =
      elim (encode codec timer.payload timer.retry_policy) [
        | err e ↦ (some e, db)
        | ok j ↦
            let (answer, db') = client.write (upsert_of shard_id timer j) db in
            (error_of (upserted answer), db')
      ]

  -- `UpdateTimer`, over the digest of the timer's UUID
  unfoldable pub update_timer :
      (String → Uuid) → ℕ → ℕ → String → UpdateDbTimerRequest Json → Db → Option DbError × Db
  unfolding encode set_update with_transaction generate_timer_uuid
  update_timer md5 shard_id shard_version namespace request db =
      elim (encode codec request.payload request.retry_policy) [
        | err e ↦ (some e, db)
        | ok j ↦
            let timer_uuid = generate_timer_uuid md5 namespace request.timer_id in
            let (res, db') =
              with_transaction client shard_id shard_version
                (new_db_error_on_shard_condition_fail "shard not found during timer update" none)
                (new_db_error_on_shard_condition_fail "shard version mismatch during timer update"
                  none)
                (λ session.
                  let (answer, session') =
                    client.session_write
                      (update_one (is_timer_row shard_id namespace request.timer_id)
                        (set_update timer_uuid request j))
                      session in
                  (updated answer, session'))
                db in
            (error_of res, db')
      ]

  -- `UpdateTimerNoLock`
  unfoldable pub update_timer_no_lock :
      (String → Uuid) → ℕ → String → UpdateDbTimerRequest Json → Db → Option DbError × Db
  unfolding encode set_update generate_timer_uuid
  update_timer_no_lock md5 shard_id namespace request db =
      elim (encode codec request.payload request.retry_policy) [
        | err e ↦ (some e, db)
        | ok j ↦
            let timer_uuid = generate_timer_uuid md5 namespace request.timer_id in
            let (answer, db') =
              client.write
                (update_one (is_timer_row shard_id namespace request.timer_id)
                  (set_update timer_uuid request j))
                db in
            (error_of (updated answer), db')
      ]

module _ (client : Client) where
  open client use {Db, Session}

  abbrev pub deleted : Answer ℕ → Result (Unit {0})
  deleted (value _) = ok tt
  deleted (fault e) = err (new_generic_db_error "failed to delete timer" (some e))

  -- `DeleteTimer`, for which a timer that is not there is no error.
  unfoldable pub delete_timer : ℕ → ℕ → String → String → Db → Option DbError × Db
  unfolding with_transaction
  delete_timer shard_id shard_version namespace timer_id db =
      let (res, db') =
        with_transaction client shard_id shard_version
          (new_db_error_on_shard_condition_fail "shard not found during timer delete" none)
          (new_db_error_on_shard_condition_fail "shard version mismatch during timer delete" none)
          (λ session.
            let (answer, session') =
              client.session_write (delete_one (is_timer_row shard_id namespace timer_id))
                session in
            (deleted answer, session'))
          db in
      (error_of res, db')

  -- `DeleteTimerNoLock`, for which it is.
  unfoldable pub delete_timer_no_lock : ℕ → String → String → Db → Option DbError × Db
  delete_timer_no_lock shard_id namespace timer_id db =
      let (answer, db') = client.write (delete_one (is_timer_row shard_id namespace timer_id)) db in
      (
        error_of (
            check_matched "failed to delete timer"
              (new_db_error_not_exists "timer not found for deletion" none) answer),
        db',
      )
