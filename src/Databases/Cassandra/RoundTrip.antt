-- ===== src/Databases/Cassandra/RoundTrip.antt =====
-- What the Cassandra store (server/databases/cassandra/cassandra_timer_store_impl.go) reads back of a
-- timer that it wrote.
use durable_timer.Base.{ℕ, String, Option, none, some, ◌≡◌, arith, inl, inr, refl}
use durable_timer.Databases.Models.{DbTimer}
use durable_timer.Databases.Results.{ok, Result-cases}
use durable_timer.Databases.Codec.{Codec, Encoded, encode, decode_json}
use durable_timer.Databases.Codec.RoundTrip.{AllDecode, decode-encode, encode-parts}
use durable_timer.Databases.Rows.{timer_row}
use durable_timer.Databases.Cassandra.Cql.{or_zero}
use durable_timer.Databases.Cassandra.Write.{encode_texts}
use durable_timer.Databases.Cassandra.Read.{timer_of_row}

module _ {Json : Type 0} (codec : Codec Json) where
  -- NULL and the empty text are read as the same value.
  decode_json-or_zero :
      (msg : String) (text : Option String)
      → decode_json codec msg (some (or_zero "" text)) ≡ decode_json codec msg text
  unfolding decode_json
  decode_json-or_zero msg none = ground arith
  decode_json-or_zero msg (some text) = refl

  encode_texts-parts :
      (p q : Option Json) (j : Encoded)
      → encode_texts codec p q ≡ ok j
      → (k : Encoded) × (encode codec p q ≡ ok k)
        × (j.payload_json ≡ some (or_zero "" k.payload_json))
        × (j.retry_policy_json ≡ some (or_zero "" k.retry_policy_json))
  unfolding encode_texts
  encode_texts-parts p q j h = elim (Result-cases (encode codec p q)) [
    | inr (error, e) ↦ absurd (ground (arith, e, h))
    | inl (k, e) ↦ (k, e, ground (arith, e, h), ground (arith, e, h))
  ]

  -- A timer whose payload and policy are encoded by texts that decode to them is read back from the
  -- row that the Cassandra store inserts for it, with all its fields but the time of the last update
  -- and of the execution, which have no column.
  pub timer_of_row-timer_row :
      (shard_id : ℕ) (timer : DbTimer Json) (j : Encoded)
      → AllDecode codec timer.payload
      → AllDecode codec timer.retry_policy
      → encode_texts codec timer.payload timer.retry_policy ≡ ok j
      → timer_of_row codec (timer_row shard_id timer j.payload_json j.retry_policy_json)
        ≡ ok (record timer { updated_at = 0; executed_at = 0 })
  unfolding timer_of_row timer_row
  timer_of_row-timer_row s timer j d d' h =
      let (k, hk, ep, eq) = encode_texts-parts timer.payload timer.retry_policy j h in
      let (hp, hq) = encode-parts codec timer.payload timer.retry_policy k hk in
      ground (
        arith,
        ep,
        eq,
        decode_json-or_zero "failed to unmarshal timer payload" k.payload_json,
        decode_json-or_zero "failed to unmarshal timer retry policy" k.retry_policy_json,
        decode-encode codec _ "failed to unmarshal timer payload" timer.payload k.payload_json d hp,
        decode-encode codec _ "failed to unmarshal timer retry policy" timer.retry_policy
            k.retry_policy_json d' hq,
      )
