-- ===== src/Databases/Codec/RoundTrip.antt =====
-- Values that the stores (server/databases) keep as texts are read back.
use durable_timer.Base.{String, Option, none, some, ◌≡◌, false, arith, inl, inr, str_eq}
use durable_timer.Databases.Results.{ok, value, Answer-cases}
use durable_timer.Databases.Codec.{Codec, encode_json, decode_json, Encoded, encode}

module _ {Json : Type 0} (codec : Codec Json) where
  -- The texts that a value is encoded as are not empty and decode to it.
  unfoldable pub Decodes : Json → Type 0
  Decodes j =
      (text : String)
      → codec.marshal j ≡ value text
      → (str_eq text "" ≡ false) × (codec.unmarshal text ≡ value (some j))

  unfoldable pub AllDecode : Option Json → Type 0
  AllDecode none = Unit {0}
  AllDecode (some j) = Decodes j

  pub decode-encode :
      (msg msg' : String) (v : Option Json) (text : Option String)
      → AllDecode v
      → encode_json codec msg v ≡ ok text
      → decode_json codec msg' text ≡ ok v
  unfolding encode_json decode_json AllDecode Decodes
  decode-encode msg msg' none text d h = ground arith
  decode-encode msg msg' (some j) text d h = elim (Answer-cases (codec.marshal j)) [
    | inl (t, e) ↦ ground (arith, d t e, e, h)
    | inr (t, e) ↦ ground (arith, e, h)
  ]

  pub encode-parts :
      (p q : Option Json) (j : Encoded)
      → encode codec p q ≡ ok j
      → (encode_json codec "failed to marshal timer payload" p ≡ ok j.payload_json)
        × (encode_json codec "failed to marshal timer retry policy" q ≡ ok j.retry_policy_json)
  unfolding encode
  encode-parts p q j h = ground (arith, h)
