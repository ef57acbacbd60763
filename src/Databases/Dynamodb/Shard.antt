-- ===== src/Databases/Dynamodb/Shard.antt =====
-- The claim of a shard in the DynamoDB store
-- (server/databases/dynamodb/dynamodb_timer_store_impl.go).
use durable_timer.Base.{ℕ, String, ◌<>◌, Option, none, some, List, [], ◌∷◌, str_eq, if◌then◌else◌}
use durable_timer.Databases.Models.{
  Time, ShardInfo, default_metadata, new_error, new_generic_db_error,
  new_db_error_on_shard_condition_fail, row_type_shard, zero_timestamp, zero_uuid,
}
use durable_timer.Databases.TimerUuid.{format_execute_at_with_uuid}
use durable_timer.Databases.Results.{Result, ok, err, Answer, value, fault}
use durable_timer.Databases.Codec.{Codec, metadata_or_default}
use durable_timer.Databases.Rows.{next_version}
use durable_timer.Databases.Dynamodb.Client.{
  Client, Formats, Item, Attribute, number, decimal, text, Assignment, set, put, update, version_is,
  not_exists, shard_key, is_conditional_check_failed,
}

-- The map of attributes: the value under a name
unfoldable pub attribute : String → Item → Option Attribute
attribute name [] = none
attribute name ((key, a) ∷ item) =
    let rest = attribute name item in if str_eq key name then some a else rest

-- The text under a name, "" where there is none
abbrev text_or_empty : Option Attribute → String
text_or_empty (some (text s)) = s
text_or_empty _ = ""

-- The number under a name, 0 where there is none or `ParseInt` fails
abbrev number_or_zero : Option Attribute → ℕ
number_or_zero (some (number n)) = n
number_or_zero _ = 0

module _ (formats : Formats) where
  -- `extractShardVersionFromItem`
  unfoldable pub extract_shard_version : Item → Answer ℕ
  unfolding attribute
  extract_shard_version item = elim (attribute "shard_version" item) [
    | none ↦ fault (new_error "shard_version attribute not found")
    | some (text s) ↦ fault (new_error "shard_version is not a number")
    | some (number n) ↦ value n
    | some (decimal s) ↦
        let e = formats.parse_int_error s in
        fault (record e { text = "failed to parse shard_version: " <> e.text })
  ]

  abbrev claimed_at_of : Option Attribute → Time
  claimed_at_of (some (text s)) = elim (formats.parse_rfc3339_nano s) [ some t ↦ t | none ↦ 0 ]
  claimed_at_of _ = 0

  module _ {Json : Type 0} (codec : Codec Json) where
    -- `extractShardInfoFromItem`
    unfoldable pub extract_shard_info : Item → ℕ → ShardInfo
    unfolding attribute metadata_or_default
    extract_shard_info item shard_id = record {
      shard_id = shard_id;
      owner_addr = text_or_empty (attribute "shard_owner_addr" item);
      shard_version = number_or_zero (attribute "shard_version" item);
      metadata = metadata_or_default codec (text_or_empty (attribute "shard_metadata" item));
      claimed_at = claimed_at_of (attribute "shard_claimed_at" item);
    }

  -- The item of a shard that had none
  unfoldable pub new_shard_item : ℕ → String → Time → String → Item
  unfolding format_execute_at_with_uuid
  new_shard_item shard_id owner_addr now json =
      ("shard_id", number shard_id)
      ∷ ("sort_key", text "SHARD")
      ∷ ("row_type", number row_type_shard)
      ∷ (
        "timer_execute_at_with_uuid",
        text (
            format_execute_at_with_uuid formats.layout zero_timestamp
              (formats.format_uuid zero_uuid)),
      )
      ∷ ("shard_version", number 1)
      ∷ ("shard_owner_addr", text owner_addr)
      ∷ ("shard_claimed_at", text (formats.format_rfc3339_nano now))
      ∷ ("shard_metadata", text json)
      ∷ []

  -- The assignments of a claim
  unfoldable pub claim_assignments : ℕ → String → Time → List Assignment
  claim_assignments version owner_addr now =
      set "shard_version" (number version)
      ∷ set "shard_owner_addr" (text owner_addr)
      ∷ set "shard_claimed_at" (text (formats.format_rfc3339_nano now))
      ∷ []

module _ {Json : Type 0} (client : Client) (codec : Codec Json) (formats : Formats) where
  open client use {Db}

  -- The claim of a shard that has no item.
  unfoldable pub create_shard : ℕ → String → Time → Db → Result (Option ShardInfo × ShardInfo) × Db
  unfolding new_shard_item is_conditional_check_failed
  create_shard shard_id owner_addr now db = elim (codec.marshal_metadata default_metadata) [
    | fault e ↦ (err (new_generic_db_error "failed to marshal default metadata" (some e)), db)
    | value json ↦
        let (res, db') =
          client.write
            (put (shard_key shard_id) (new_shard_item formats shard_id owner_addr now json)
              (some not_exists))
            db in
        (
          elim res [
            | some e ↦ err (
                if is_conditional_check_failed e
                then new_db_error_on_shard_condition_fail
                    "failed to insert shard record due to concurrent insert" (some e.error)
                else new_generic_db_error "failed to insert new shard record" (some e.error))
            | none ↦ ok (
              none,
              record {
                shard_id = shard_id;
                owner_addr = owner_addr;
                shard_version = 1;
                metadata = default_metadata;
                claimed_at = now;
              },
            )
          ],
          db',
        )
  ]

  -- The claim of a shard whose item was read.
  unfoldable pub take_over :
      ℕ → String → Time → Item → Db → Result (Option ShardInfo × ShardInfo) × Db
  unfolding extract_shard_info extract_shard_version claim_assignments is_conditional_check_failed
  take_over shard_id owner_addr now item db =
      let previous = extract_shard_info formats codec item shard_id in
      elim (extract_shard_version formats item) [
        | fault e ↦
            (err (new_generic_db_error "failed to parse current shard version" (some e)), db)
        | value version ↦
            let (res, db') =
              client.write
                (update (shard_key shard_id)
                  (claim_assignments formats (next_version version) owner_addr now)
                  (version_is version))
                db in
            (
              elim res [
                | some e ↦ err (
                    if is_conditional_check_failed e
                    then new_db_error_on_shard_condition_fail
                        "shard ownership claim failed due to concurrent modification" none
                    else new_generic_db_error "failed to update shard record" (some e.error))
                | none ↦ ok (
                  some previous,
                  record {
                    shard_id = shard_id;
                    owner_addr = owner_addr;
                    shard_version = next_version version;
                    metadata = previous.metadata;
                    claimed_at = now;
                  },
                )
              ],
              db',
            )
      ]

  -- `ClaimShardOwnership` at the time `now`
  unfoldable pub claim_shard_ownership :
      Time → ℕ → String → Db → Result (Option ShardInfo × ShardInfo) × Db
  unfolding create_shard take_over
  claim_shard_ownership now shard_id owner_addr db =
      let (found, db1) = client.get_item (shard_key shard_id) db in
      elim found [
        | fault e ↦ (err (new_generic_db_error "failed to read shard record" (some e)), db1)
        | value none ↦ create_shard shard_id owner_addr now db1
        | value (some item) ↦ take_over shard_id owner_addr now item db1
      ]
