-- ===== src/Databases/Dynamodb/Read.antt =====
-- How the DynamoDB store reads timers (server/databases/dynamodb/dynamodb_timer_store_impl.go):
-- `GetTimer` and `RangeGetTimers`. An attribute that is missing or not of its type panics: the answer is
-- then `none`.
use durable_timer.Base.{
  ℕ, ◌+◌, ◌%◌, ◌^◌, String, Option, none, some, List, [], ◌∷◌, inl, inr, leb, if◌then◌else◌,
}
use durable_timer.Databases.Models.{
  Time, Uuid, DbTimer, RangeGetTimersRequest, RangeGetTimersResponse, new_generic_db_error,
  new_db_error_not_exists,
}
use durable_timer.Databases.TimerUuid.{format_execute_at_with_uuid, parse_execute_at_with_uuid}
use durable_timer.Databases.Results.{Result, ok, err, value, fault, ◌>>=◌}
use durable_timer.Databases.Codec.{Codec, decode_json}
use durable_timer.Databases.Dynamodb.Client.{
  Client, Formats, Item, Attribute, number, decimal, text, timer_key,
}
use durable_timer.Databases.Dynamodb.Shard.{attribute}

-- A type assertion on an attribute that holds a text
abbrev then_text : {B : Type 0} → Option Attribute → (String → Option B) → Option B
then_text (some (text s)) f = f s
then_text _ f = none

-- One on an attribute that is left out where the value is nil
abbrev then_optional_text : {B : Type 0} → Option Attribute → (Option String → Option B) → Option B
then_optional_text none f = f none
then_optional_text (some (text s)) f = f (some s)
then_optional_text (some _) f = none

module _ {Json : Type 0} (codec : Codec Json) (formats : Formats) where
  -- `strconv.Atoi` on the text of a number, as an int32
  abbrev then_int32 : {B : Type 0} → Option Attribute → (ℕ → Option B) → Option B
  then_int32 (some (number n)) f = f (n % 2 ^ 32)
  then_int32 (some (decimal s)) f = f (formats.atoi_decimal s % 2 ^ 32)
  then_int32 _ f = none

  abbrev time_or_zero : Option Time → Time
  time_or_zero (some t) = t
  time_or_zero none = 0

  -- The two parts of the composite field
  unfoldable pub parse_composite : String → Result (Time × Uuid)
  unfolding parse_execute_at_with_uuid
  parse_composite composite = elim (parse_execute_at_with_uuid formats.layout composite) [
    | inr e ↦ err (
        new_generic_db_error "failed to parse timer_execute_at_with_uuid"
          (some (formats.composite_error e composite)))
    | inl (execute_at, uuid) ↦ elim (formats.parse_uuid uuid) [
      | fault e ↦ err (new_generic_db_error "failed to parse timer UUID" (some e))
      | value u ↦ ok (execute_at, u)
    ]
  ]

  -- What follows the id and the namespace: the payload is decoded before the type of the retry policy is
  -- seen.
  unfoldable pub read_fields : Item → String → String → Time → Uuid → Option (Result (DbTimer Json))
  unfolding attribute decode_json
  read_fields item id namespace execute_at timer_uuid =
      then_text (attribute "timer_callback_url" item) (λ callback_url.
        then_int32 (attribute "timer_callback_timeout_seconds" item) (λ secs.
          then_text (attribute "timer_created_at" item) (λ created_at.
            then_int32 (attribute "timer_attempts" item) (λ attempts.
              then_optional_text (attribute "timer_payload" item) (λ payload_json.
                elim (decode_json codec "failed to unmarshal timer payload" payload_json) [
                  | err e ↦ some (err e)
                  | ok payload ↦
                      then_optional_text (attribute "timer_retry_policy" item) (λ policy_json.
                        some (do
                          policy ←
                              decode_json codec "failed to unmarshal timer retry policy" policy_json
                          ok (record {
                            id = id;
                            timer_uuid = timer_uuid;
                            namespace = namespace;
                            execute_at = execute_at;
                            callback_url = callback_url;
                            payload = payload;
                            retry_policy = policy;
                            callback_timeout_seconds = secs;
                            created_at = time_or_zero (formats.parse_rfc3339_nano created_at);
                            updated_at = 0;
                            executed_at = 0;
                            attempts = attempts;
                          })))
                ])))))

  -- What `GetTimer` makes of the item that it finds.
  unfoldable pub timer_of_item : String → String → Item → Option (Result (DbTimer Json))
  unfolding attribute parse_composite read_fields
  timer_of_item namespace timer_id item =
      then_text (attribute "timer_execute_at_with_uuid" item) (λ composite.
        elim (parse_composite composite) [
          | err e ↦ some (err e)
          | ok (execute_at, uuid) ↦ read_fields item timer_id namespace execute_at uuid
        ])

  -- What the loop of `RangeGetTimers` makes of an item.
  unfoldable pub listed_timer : Item → Option (Result (DbTimer Json))
  unfolding attribute parse_composite read_fields
  listed_timer item = then_text (attribute "timer_execute_at_with_uuid" item) (λ composite.
      elim (parse_composite composite) [
        | err e ↦ some (err e)
        | ok (execute_at, uuid) ↦ then_text (attribute "timer_id" item) (λ id.
            then_text (attribute "timer_namespace" item)
              (λ namespace. read_fields item id namespace execute_at uuid))
      ])

  abbrev cons_timer :
      DbTimer Json → Option (Result (List (DbTimer Json))) → Option (Result (List (DbTimer Json)))
  cons_timer timer none = none
  cons_timer timer (some (err e)) = some (err e)
  cons_timer timer (some (ok timers)) = some (ok (timer ∷ timers))

  -- The loop of `RangeGetTimers`, after `count` timers; it breaks once the limit is reached.
  unfoldable pub read_items : ℕ → ℕ → List Item → Option (Result (List (DbTimer Json)))
  unfolding listed_timer
  read_items limit count [] = some (ok [])
  read_items limit count (item ∷ items) =
      let rest = read_items limit (count + 1) items in
      elim (listed_timer item) [
        | none ↦ none
        | some (err e) ↦ some (err e)
        | some (ok timer) ↦
            if leb limit (count + 1) then some (ok (timer ∷ [])) else cons_timer timer rest
      ]

  abbrev response_of :
      Option (Result (List (DbTimer Json))) → Option (Result (RangeGetTimersResponse Json))
  response_of none = none
  response_of (some (err e)) = some (err e)
  response_of (some (ok timers)) = some (ok (record { timers = timers }))

  module _ (client : Client) where
    open client use {Db}

    -- `GetTimer`
    unfoldable pub get_timer : ℕ → String → String → Db → Option (Result (DbTimer Json)) × Db
    unfolding timer_of_item
    get_timer shard_id namespace timer_id db =
        let (found, db') = client.get_item (timer_key shard_id namespace timer_id) db in
        (
          elim found [
            | fault e ↦ some (err (new_generic_db_error "failed to get timer" (some e)))
            | value none ↦ some (err (new_db_error_not_exists "timer not found" none))
            | value (some item) ↦ timer_of_item namespace timer_id item
          ],
          db',
        )

    -- `RangeGetTimers`, which asks for one item more than the limit.
    unfoldable pub range_get_timers :
        ℕ → RangeGetTimersRequest → Db → Option (Result (RangeGetTimersResponse Json)) × Db
    unfolding read_items format_execute_at_with_uuid
    range_get_timers shard_id request db =
        let (found, db') =
          client.query
            (record {
              shard_id = shard_id;
              lower_bound =
                  format_execute_at_with_uuid formats.layout request.start_timestamp
                    (formats.format_uuid request.start_time_uuid);
              upper_bound =
                  format_execute_at_with_uuid formats.layout request.end_timestamp
                    (formats.format_uuid request.end_time_uuid);
              limit = some ((request.limit + 1) % 2 ^ 32);
            })
            db in
        (
          elim found [
            | fault e ↦ some (err (new_generic_db_error "failed to query timers" (some e)))
            | value items ↦ response_of (read_items request.limit 0 items)
          ],
          db',
        )
