-- ===== src/Databases/Codec.antt =====
-- `encoding/json` for the values that the stores keep as texts (server/databases).
pub mod RoundTrip
use durable_timer.Base.{String, Option, none, some, str_eq, if◌then◌else◌}
use durable_timer.Databases.Models.{ShardMetadata, default_metadata}
use durable_timer.Databases.Results.{Answer, value, fault, Result, ok, err, ◌>>=◌, or_generic}

-- `encoding/json` for the metadata of a shard and for the values that a timer carries
pub record Codec (Json : Type 0) : Type 0 where
  pub marshal : Json → Answer String
  pub unmarshal : String → Answer (Option Json)
  pub marshal_metadata : ShardMetadata → Answer String
  pub unmarshal_metadata : String → Answer ShardMetadata

-- What both texts are for a payload and a policy.
pub record Encoded : Type 0 where
  pub payload_json : Option String
  pub retry_policy_json : Option String

module _ {Json : Type 0} (codec : Codec Json) where
  abbrev some_text : Result String → Result (Option String)
  some_text (ok s) = ok (some s)
  some_text (err e) = err e

  -- `if v != nil { ... json.Marshal(v) ... }`; a nil value is NULL.
  unfoldable pub encode_json : String → Option Json → Result (Option String)
  encode_json msg none = ok none
  encode_json msg (some j) = some_text (or_generic msg (codec.marshal j))

  -- `if c.Valid && c.String != "" { ... json.Unmarshal(...) ... }`
  unfoldable pub decode_json : String → Option String → Result (Option Json)
  decode_json msg none = ok none
  decode_json msg (some s) = if str_eq s "" then ok none else or_generic msg (codec.unmarshal s)

  unfoldable pub encode : Option Json → Option Json → Result Encoded
  unfolding encode_json
  encode payload retry_policy = do
    p ← encode_json "failed to marshal timer payload" payload
    q ← encode_json "failed to marshal timer retry policy" retry_policy
    ok (record { payload_json = p; retry_policy_json = q })

  -- The metadata of the row; a text that does not parse counts as the default.
  unfoldable pub metadata_or_default : String → ShardMetadata
  metadata_or_default json =
      if str_eq json ""
      then default_metadata
      else elim (codec.unmarshal_metadata json) [ value m ↦ m | fault _ ↦ default_metadata ]
