-- ===== src/Databases/Dynamodb/RoundTrip.antt =====
-- What the DynamoDB store (server/databases/dynamodb/dynamodb_timer_store_impl.go) reads back of a
-- timer that it wrote.
use durable_timer.Base.{ℕ, ◌%◌, ◌^◌, String, Option, none, some, ◌≡◌, arith, inl}
use durable_timer.Databases.Models.{DbTimer, Time, Uuid}
use durable_timer.Databases.Results.{ok, value}
use durable_timer.Databases.Codec.{Codec, Encoded, encode, decode_json}
use durable_timer.Databases.Codec.RoundTrip.{AllDecode, decode-encode, encode-parts}
use durable_timer.Databases.TimerUuid.{format_execute_at_with_uuid, parse_execute_at_with_uuid}
use durable_timer.Databases.Dynamodb.Client.{Formats}
use durable_timer.Databases.Dynamodb.Create.{int_of_int32, timer_item}
use durable_timer.Databases.Dynamodb.Shard.{attribute}
use durable_timer.Databases.Dynamodb.Read.{timer_of_item, parse_composite, read_fields}

module _ {Json : Type 0} (codec : Codec Json) (formats : Formats) where
  composite_read :
      (composite : String) (t : Time) (text : String) (uuid : Uuid)
      → parse_execute_at_with_uuid formats.layout composite ≡ inl (t, text)
      → formats.parse_uuid text ≡ value uuid
      → parse_composite codec formats composite ≡ ok (t, uuid)
  unfolding parse_composite
  composite_read composite t text uuid h h' = ground (arith, h, h')

  int32_read : (n : ℕ) → n % 2 ^ 32 ≡ n → int_of_int32 n % 2 ^ 32 ≡ n
  int32_read n h = ground (arith, h)

  read_fields-timer_item :
      (shard_id : ℕ) (namespace : String) (timer : DbTimer Json) (p q : Option String)
      (rounded : Time)
      → decode_json codec "failed to unmarshal timer payload" p ≡ ok timer.payload
      → decode_json codec "failed to unmarshal timer retry policy" q ≡ ok timer.retry_policy
      → formats.parse_rfc3339_nano (formats.format_rfc3339_nano timer.created_at)
        ≡ some timer.created_at
      → timer.callback_timeout_seconds % 2 ^ 32 ≡ timer.callback_timeout_seconds
      → timer.attempts % 2 ^ 32 ≡ timer.attempts
      → read_fields codec formats
          (timer_item formats shard_id namespace timer
            (record { payload_json = p; retry_policy_json = q }))
          timer.id
          namespace
          rounded
          timer.timer_uuid
        ≡ some (
            ok (record timer {
              namespace = namespace;
              execute_at = rounded;
              updated_at = 0;
              executed_at = 0;
            }))
  unfolding read_fields timer_item attribute
  read_fields-timer_item s ns timer none none t hp hq hr hs ha = ground (
    arith,
    hp,
    hq,
    hr,
    int32_read timer.callback_timeout_seconds hs,
    int32_read timer.attempts ha,
  )
  read_fields-timer_item s ns timer none (some q) t hp hq hr hs ha = ground (
    arith,
    hp,
    hq,
    hr,
    int32_read timer.callback_timeout_seconds hs,
    int32_read timer.attempts ha,
  )
  read_fields-timer_item s ns timer (some p) none t hp hq hr hs ha = ground (
    arith,
    hp,
    hq,
    hr,
    int32_read timer.callback_timeout_seconds hs,
    int32_read timer.attempts ha,
  )
  read_fields-timer_item s ns timer (some p) (some q) t hp hq hr hs ha = ground (
    arith,
    hp,
    hq,
    hr,
    int32_read timer.callback_timeout_seconds hs,
    int32_read timer.attempts ha,
  )

  -- If the payload and the policy of a timer are encoded by texts that decode to them, its numbers are
  -- of 32 bits, and its composite field, creation time and UUID parse, then the timer is read back from
  -- the item that the DynamoDB store puts for it: in the namespace that it was put under, at the time that
  -- the composite field parses to, and without the times of the last update and of the execution, which
  -- have no attribute.
  pub timer_of_item-timer_item :
      (shard_id : ℕ) (namespace : String) (timer : DbTimer Json) (j : Encoded) (rounded : Time)
      → AllDecode codec timer.payload
      → AllDecode codec timer.retry_policy
      → encode codec timer.payload timer.retry_policy ≡ ok j
      → parse_execute_at_with_uuid formats.layout (
          format_execute_at_with_uuid formats.layout timer.execute_at
            (formats.format_uuid timer.timer_uuid))
        ≡ inl (rounded, formats.format_uuid timer.timer_uuid)
      → formats.parse_uuid (formats.format_uuid timer.timer_uuid) ≡ value timer.timer_uuid
      → formats.parse_rfc3339_nano (formats.format_rfc3339_nano timer.created_at)
        ≡ some timer.created_at
      → timer.callback_timeout_seconds % 2 ^ 32 ≡ timer.callback_timeout_seconds
      → timer.attempts % 2 ^ 32 ≡ timer.attempts
      → timer_of_item codec formats namespace timer.id
          (timer_item formats shard_id namespace timer j)
        ≡ some (
            ok (record timer {
              namespace = namespace;
              execute_at = rounded;
              updated_at = 0;
              executed_at = 0;
            }))
  unfolding timer_of_item timer_item attribute
  timer_of_item-timer_item s ns timer j t d d' h hc hu hr hs ha =
      let (hp, hq) = encode-parts codec timer.payload timer.retry_policy j h in
      let composite =
        composite_read
          (format_execute_at_with_uuid formats.layout timer.execute_at
            (formats.format_uuid timer.timer_uuid))
          t (formats.format_uuid timer.timer_uuid) timer.timer_uuid hc hu in
      let fields =
        read_fields-timer_item s ns timer j.payload_json j.retry_policy_json t
          (decode-encode codec _ "failed to unmarshal timer payload" timer.payload j.payload_json d
            hp)
          (decode-encode codec _ "failed to unmarshal timer retry policy" timer.retry_policy
            j.retry_policy_json d' hq)
          hr hs ha in
      ground (arith, composite, fields)
