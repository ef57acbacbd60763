-- ===== src/Databases/Dynamodb/Create.antt =====
-- The creation of timers and the update of a shard's metadata in the DynamoDB store
-- (server/databases/dynamodb/dynamodb_timer_store_impl.go).
use durable_timer.Base.{
  ℕ, ◌+◌, ◌-◌, ◌^◌, ltb, String, Option, none, some, [], ◌∷◌, ◌++◌, if◌then◌else◌,
}
use durable_timer.Databases.Models.{
  DbError, DbTimer, ShardMetadata, row_type_timer, new_generic_db_error,
  new_db_error_on_shard_condition_fail,
}
use durable_timer.Databases.TimerUuid.{format_execute_at_with_uuid}
use durable_timer.Databases.Results.{ok, err, value, fault}
use durable_timer.Databases.Codec.{Codec, Encoded, encode}
use durable_timer.Databases.Dynamodb.Client.{
  Client, Formats, AwsError, Item, number, text, put, update, check, set, version_is, exists_at,
  shard_key, timer_key, get_timer_sort_key, is_conditional_check_failed,
}

-- `int(n)` of an int32, as bit patterns
abbrev pub int_of_int32 : ℕ → ℕ
int_of_int32 n = if ltb n (2 ^ 31) then n else n + (2 ^ 64 - 2 ^ 32)

-- An attribute that is left out where the value is nil.
abbrev pub text_unless_nil : String → Option String → Item
text_unless_nil name none = []
text_unless_nil name (some s) = (name, text s) ∷ []

module _ {Json : Type 0} (formats : Formats) where
  -- The item of a timer
  unfoldable pub timer_item : ℕ → String → DbTimer Json → Encoded → Item
  unfolding format_execute_at_with_uuid get_timer_sort_key
  timer_item shard_id namespace timer j =
      (("shard_id", number shard_id)
        ∷ ("sort_key", text (get_timer_sort_key namespace timer.id))
        ∷ ("row_type", number row_type_timer)
        ∷ (
          "timer_execute_at_with_uuid",
          text (
              format_execute_at_with_uuid formats.layout timer.execute_at
                (formats.format_uuid timer.timer_uuid)),
        )
        ∷ ("timer_id", text timer.id)
        ∷ ("timer_namespace", text timer.namespace)
        ∷ ("timer_callback_url", text timer.callback_url)
        ∷ ("timer_callback_timeout_seconds", number (int_of_int32 timer.callback_timeout_seconds))
        ∷ ("timer_created_at", text (formats.format_rfc3339_nano timer.created_at))
        ∷ ("timer_attempts", number (int_of_int32 timer.attempts))
        ∷ [])
      ++ text_unless_nil "timer_payload" j.payload_json
      ++ text_unless_nil "timer_retry_policy" j.retry_policy_json

-- What a refused write says, and one that failed otherwise.
abbrev pub refused_or : DbError → String → Option AwsError → Option DbError
refused_or refused failed none = none
refused_or refused failed (some e) =
    some (
      if is_conditional_check_failed e then refused else new_generic_db_error failed (some e.error))

module _ {Json : Type 0} (client : Client) (codec : Codec Json) (formats : Formats) where
  open client use {Db}

  -- `CreateTimer`: the check of the version and the insert in one transaction
  unfoldable pub create_timer : ℕ → ℕ → String → DbTimer Json → Db → Option DbError × Db
  unfolding encode timer_item is_conditional_check_failed
  create_timer shard_id shard_version namespace timer db =
      elim (encode codec timer.payload timer.retry_policy) [
        | err e ↦ (some e, db)
        | ok j ↦
            let (res, db') =
              client.transact
                (check (shard_key shard_id) (version_is shard_version)
                  ∷ put (timer_key shard_id namespace timer.id)
                      (timer_item formats shard_id namespace timer j) none
                  ∷ [])
                db in
            (
              refused_or
                  (new_db_error_on_shard_condition_fail
                    "shard version mismatch during timer creation" none)
                  "failed to execute atomic timer creation transaction" res,
              db',
            )
      ]

  -- `CreateTimerNoLock`
  unfoldable pub create_timer_no_lock : ℕ → String → DbTimer Json → Db → Option DbError × Db
  unfolding encode timer_item
  create_timer_no_lock shard_id namespace timer db =
      elim (encode codec timer.payload timer.retry_policy) [
        | err e ↦ (some e, db)
        | ok j ↦
            let (res, db') =
              client.write
                (put (timer_key shard_id namespace timer.id)
                  (timer_item formats shard_id namespace timer j) none)
                db in
            (
              elim res [
                | none ↦ none
                | some e ↦ some (new_generic_db_error "failed to insert timer" (some e.error))
              ],
              db',
            )
      ]

  -- `UpdateShardMetadata`
  unfoldable pub update_shard_metadata : ℕ → ℕ → ShardMetadata → Db → Option DbError × Db
  unfolding is_conditional_check_failed
  update_shard_metadata shard_id shard_version metadata db =
      elim (codec.marshal_metadata metadata) [
        | fault e ↦ (some (new_generic_db_error "failed to marshal metadata" (some e)), db)
        | value json ↦
            let (res, db') =
              client.write
                (update (shard_key shard_id) (set "shard_metadata" (text json) ∷ [])
                  (exists_at shard_version))
                db in
            (
              elim res [
                | none ↦ none
                | some e ↦ some (
                    if is_conditional_check_failed e
                    then new_db_error_on_shard_condition_fail
                        "shard version mismatch during metadata update" (some e.error)
                    else new_generic_db_error "failed to update shard metadata" (some e.error))
              ],
              db',
            )
      ]
