-- ===== src/Databases/Dynamodb/Change.antt =====
-- The updates and deletions of single timers in the DynamoDB store
-- (server/databases/dynamodb/dynamodb_timer_store_impl.go).
use durable_timer.Base.{
  ℕ, ◌+◌, ◌^◌, String, ◌<>◌, Bool, ◌&&◌, Option, none, some, List, [], ◌∷◌, ◌++◌, ◌==◌, ltb, not,
  str_eq, if◌then◌else◌,
}
use durable_timer.Databases.Models.{
  GoError, DbError, UpdateDbTimerRequest, new_generic_db_error,
  new_db_error_on_shard_condition_fail, new_db_error_not_exists, new_db_error_not_support,
}
use durable_timer.Databases.Results.{ok, err}
use durable_timer.Databases.Codec.{Codec, Encoded, encode}
use durable_timer.Databases.Dynamodb.Client.{
  Client, AwsError, Assignment, set, increment, number, text, Write, update, delete, exists,
  version_is, shard_key, timer_key, is_conditional_check_failed,
}

abbrev set_unless_nil : String → Option String → List Assignment
set_unless_nil name none = []
set_unless_nil name (some s) = set name (text s) ∷ []

-- An int32 that is positive
abbrev is_positive : ℕ → Bool
is_positive n = ltb 0 n && ltb n (2 ^ 31)

-- The assignments of an update; a field that is empty, not positive or nil is left as it is.
unfoldable pub update_expressions :
    {Json : Type 0} → UpdateDbTimerRequest Json → Encoded → List Assignment
update_expressions request j =
    (if str_eq request.callback_url ""
      then []
      else set "timer_callback_url" (text request.callback_url) ∷ [])
    ++ (if is_positive request.callback_timeout_seconds
        then set "timer_callback_timeout_seconds" (number request.callback_timeout_seconds) ∷ []
        else [])
    ++ set_unless_nil "timer_payload" j.payload_json
    ++ set_unless_nil "timer_retry_policy" j.retry_policy_json

-- The part of both transactions that has the condition on the version, and adds 1 to it.
unfoldable pub bump_version : ℕ → ℕ → Write
bump_version shard_id shard_version =
    update (shard_key shard_id) (increment "shard_version" 1 ∷ []) (version_is shard_version)

-- The loop of `handleTransactionError` over the codes of the reasons
unfoldable pub first_reason : String → GoError → List (Option String) → DbError
first_reason operation e [] =
    new_generic_db_error ("transaction cancelled during " <> operation) (some e)
first_reason operation e (none ∷ reasons) = first_reason operation e reasons
first_reason operation e (some code ∷ reasons) =
    let rest = first_reason operation e reasons in
    if str_eq code "ConditionalCheckFailed"
    then new_db_error_on_shard_condition_fail ("shard version mismatch during " <> operation)
        (some e)
    else if str_eq code "ValidationException"
    then new_generic_db_error ("validation error during " <> operation) (some e)
    else rest

-- `handleTransactionError`
unfoldable pub handle_transaction_error : AwsError → String → DbError
unfolding first_reason
handle_transaction_error e operation = elim e.cancellation [
  | none ↦ new_generic_db_error ("failed to " <> operation) (some e.error)
  | some reasons ↦ first_reason operation e.error reasons
]

-- The loop of `DeleteTimer` over the reasons, from the given index: the first item is the deletion of
-- the timer, the second one the check of the version. `none` is a loop that does not return.
unfoldable pub delete_outcome : ℕ → GoError → List (Option String) → Option (Option DbError)
delete_outcome i e [] = none
delete_outcome i e (none ∷ reasons) = delete_outcome (i + 1) e reasons
delete_outcome i e (some code ∷ reasons) =
    let rest = delete_outcome (i + 1) e reasons in
    if str_eq code "ConditionalCheckFailed"
    then (if i == 0
        then some none
        else if i == 1
        then some (
            some (
              new_db_error_on_shard_condition_fail "shard version mismatch during delete timer"
                (some e)))
        else rest)
    else rest

-- What `DeleteTimer` makes of a transaction that failed.
unfoldable pub deletion_error : AwsError → Option DbError
unfolding delete_outcome handle_transaction_error
deletion_error e = elim e.cancellation [
  | none ↦ some (handle_transaction_error e "delete timer")
  | some reasons ↦ elim (delete_outcome 0 e.error reasons) [
    | some outcome ↦ outcome
    | none ↦ some (handle_transaction_error e "delete timer")
  ]
]

-- The error of a write on an existing timer
abbrev missing_or : String → Option AwsError → Option DbError
missing_or failed none = none
missing_or failed (some e) = some (
    if is_conditional_check_failed e
    then new_db_error_not_exists "timer not found" (some e.error)
    else new_generic_db_error failed (some e.error))

module _ {Json : Type 0} (client : Client) (codec : Codec Json) where
  open client use {Db}

  -- `updateTimerInPlace`
  unfoldable pub update_timer_in_place :
      ℕ → ℕ → String → UpdateDbTimerRequest Json → Encoded → Db → Option DbError × Db
  unfolding update_expressions bump_version handle_transaction_error
  update_timer_in_place shard_id shard_version namespace request j db =
      elim (update_expressions request j) [
        | [] ↦ (none, db)
        | a ∷ rest ↦
            let (res, db') =
              client.transact
                (update (timer_key shard_id namespace request.timer_id) (a ∷ rest) exists
                  ∷ bump_version shard_id shard_version
                  ∷ [])
                db in
            (
              elim res [ none ↦ none | some e ↦ some (handle_transaction_error e "update timer") ],
              db',
            )
      ]

  -- `UpdateTimer`, which does not support a new execution time.
  unfoldable pub update_timer :
      ℕ → ℕ → String → UpdateDbTimerRequest Json → Db → Option DbError × Db
  unfolding encode update_timer_in_place
  update_timer shard_id shard_version namespace request db =
      if not (request.execute_at == 0)
      then (
        some (
            new_db_error_not_support
              "UpdateTimer does not support ExecuteAt changes in DynamoDB implementation" none),
        db,
      )
      else elim (encode codec request.payload request.retry_policy) [
        | err e ↦ (some e, db)
        | ok j ↦ update_timer_in_place shard_id shard_version namespace request j db
      ]

  -- `UpdateTimerNoLock`
  unfoldable pub update_timer_no_lock :
      ℕ → String → UpdateDbTimerRequest Json → Db → Option DbError × Db
  unfolding encode update_expressions is_conditional_check_failed
  update_timer_no_lock shard_id namespace request db =
      if not (request.execute_at == 0)
      then (
        some (
            new_db_error_not_support
              "UpdateTimerNoLock does not support ExecuteAt changes in DynamoDB implementation"
              none),
        db,
      )
      else elim (encode codec request.payload request.retry_policy) [
        | err e ↦ (some e, db)
        | ok j ↦ elim (update_expressions request j) [
          | [] ↦ (none, db)
          | a ∷ rest ↦
              let (res, db') =
                client.write
                  (update (timer_key shard_id namespace request.timer_id) (a ∷ rest) exists) db in
              (missing_or "failed to update timer" res, db')
        ]
      ]

module _ (client : Client) where
  open client use {Db}

  -- `DeleteTimer`
  unfoldable pub delete_timer : ℕ → ℕ → String → String → Db → Option DbError × Db
  unfolding bump_version deletion_error
  delete_timer shard_id shard_version namespace timer_id db =
      let (res, db') =
        client.transact
          (delete (timer_key shard_id namespace timer_id) exists
            ∷ bump_version shard_id shard_version
            ∷ [])
          db in
      (elim res [ none ↦ none | some e ↦ deletion_error e ], db')

  -- `DeleteTimerNoLock`
  unfoldable pub delete_timer_no_lock : ℕ → String → String → Db → Option DbError × Db
  unfolding is_conditional_check_failed
  delete_timer_no_lock shard_id namespace timer_id db =
      let (res, db') = client.write (delete (timer_key shard_id namespace timer_id) exists) db in
      (missing_or "failed to delete timer" res, db')
