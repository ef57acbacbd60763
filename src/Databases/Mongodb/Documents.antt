-- ===== src/Databases/Mongodb/Documents.antt =====
-- What the MongoDB store (server/databases/mongodb/mongodb_timer_store_impl.go) makes of the documents of
-- timers: the ranges that it selects, and what a creation over an old timer leaves.
use durable_timer.Base.{
  ℕ, String, Option, none, some, inl, inr, Option-cases, ◌≡◌, arith, refl, ◌==◌,
}
use durable_timer.Databases.Models.{Time, Uuid, DbTimer}
use durable_timer.Databases.Results.{ok, Answer-cases}
use durable_timer.Databases.Codec.{Codec, Encoded, encode, encode_json, decode_json}
use durable_timer.Databases.Codec.RoundTrip.{AllDecode, decode-encode, encode-parts}
use durable_timer.Databases.Rows.{Row, is_timer_in_range, timer_row}
use durable_timer.Databases.Mongodb.Range.{range_filter, build_range_condition}
use durable_timer.Databases.Mongodb.Read.{timer_of_doc}
use durable_timer.Databases.Mongodb.Write.{build_timer_document, set_timer, set_unless_nil}

equal_comm : (a b : ℕ) → (a == b) ≡ (b == a)
equal_comm a b = ground arith

-- The filter of a range of the MongoDB store selects the documents whose pair of time and UUID lies
-- between the two given pairs, both included, as the comparison of pairs in the SQL stores does.
pub range_filter-agrees :
    (shard_id : ℕ) (start : Time) (start_uuid : Uuid) (end : Time) (end_uuid : Uuid) (r : Row)
    → range_filter shard_id start start_uuid end end_uuid r
      ≡ is_timer_in_range shard_id start start_uuid end end_uuid r
unfolding range_filter build_range_condition is_timer_in_range
range_filter-agrees s t u t' u' r = rw (equal_comm r.timer_execute_at t) refl

module _ {Json : Type 0} (codec : Codec Json) where
  -- The value of a new timer, or that of the old one where the new one has none.
  abbrev pub or_old : Option Json → Option Json → Option Json
  or_old none old = old
  or_old (some j) old = some j

  merged :
      (msg msg' : String) (v old : Option Json) (text old_text : Option String)
      → AllDecode codec v
      → encode_json codec msg v ≡ ok text
      → decode_json codec msg' old_text ≡ ok old
      → decode_json codec msg' (set_unless_nil text old_text) ≡ ok (or_old v old)
  unfolding encode_json
  merged msg msg' none old text old_text d h ho = ground (arith, h, ho)
  merged msg msg' (some j) old text old_text d h ho = elim (Option-cases text) [
    | inl e ↦ elim (Answer-cases (codec.marshal j)) [
      | inl (t, m) ↦ absurd (ground (arith, e, m, h))
      | inr (error, m) ↦ absurd (ground (arith, e, m, h))
    ]
    | inr (t, e) ↦ ground (arith, e, decode-encode codec msg msg' (some j) text d h)
  ]

  -- If the payload and the policy of a timer are encoded by texts that decode to them, and those of an old
  -- document decode, then the document that a creation of the timer writes over the old one is read without
  -- a panic, as the new timer, but with the payload, and the policy, of the old one where the new one has
  -- none.
  pub timer_of_doc-set_timer :
      (shard_id : ℕ) (timer : DbTimer Json) (j : Encoded) (old : Row) (payload policy : Option Json)
      → AllDecode codec timer.payload
      → AllDecode codec timer.retry_policy
      → encode codec timer.payload timer.retry_policy ≡ ok j
      → decode_json codec "failed to unmarshal timer payload" old.timer_payload ≡ ok payload
      → decode_json codec "failed to unmarshal timer retry policy" old.timer_retry_policy
        ≡ ok policy
      → timer_of_doc codec
          (some timer.id)
          (some timer.namespace)
          (set_timer (build_timer_document shard_id timer j) old)
        ≡ some (
            ok (record timer {
              payload = or_old timer.payload payload;
              retry_policy = or_old timer.retry_policy policy;
              updated_at = 0;
              executed_at = 0;
            }))
  unfolding timer_of_doc set_timer build_timer_document timer_row
  timer_of_doc-set_timer s timer j old payload policy d d' h hp hq =
      let (ep, eq) = encode-parts codec timer.payload timer.retry_policy j h in
      ground (
        arith,
        merged "failed to marshal timer payload" "failed to unmarshal timer payload" timer.payload
            payload j.payload_json old.timer_payload d ep hp,
        merged "failed to marshal timer retry policy" "failed to unmarshal timer retry policy"
            timer.retry_policy policy j.retry_policy_json old.timer_retry_policy d' eq hq,
      )
