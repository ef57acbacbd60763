-- ===== src/Tests/Mongodb.antt =====
-- Examples for the MongoDB store, over a collection in memory.
use durable_timer.Base.{
  ◌<◌, Bool, Bool-cases, inl, inr, arith, ℕ, String, ◌≡◌, refl, true, none, some, Option, List, [],
  ◌∷◌, not, filter, any, count, take, if◌then◌else◌,
}
use durable_timer.Databases.Models.{DbTimer}
use durable_timer.Databases.Results.{Answer, value, fault, ok}
use durable_timer.Databases.Codec.{decode_json, encode, encode_json}
use durable_timer.Databases.Codec.RoundTrip.{AllDecode}
use durable_timer.Databases.Rows.{Row, conflicts, is_shard_row, is_timer_in_range, timer_row}
use durable_timer.Databases.Mongodb.Driver.{
  Write, insert_one, update_one, upsert_one, delete_one, delete_many, Client,
}
use durable_timer.Databases.Mongodb.Write.{
  create_timer, update_timer, delete_timer, build_timer_document, set_timer,
}
use durable_timer.Databases.Mongodb.Range.{range_delete_with_batch_insert_txn, range_filter}
use durable_timer.Databases.Mongodb.Read.{timer_of_doc}
use durable_timer.Databases.Mongodb.Fence.{
  stale_owner_ends_session, IsStale, ChangesNothing, RefusedFrom,
}
use durable_timer.Databases.Mongodb.Laws.{DocView, has_version}
use durable_timer.Tests.View
use durable_timer.Databases.Mongodb.Documents.{range_filter-agrees, timer_of_doc-set_timer}
use durable_timer.Tests.Data.{policy-AllDecode, timer, request, range}
use durable_timer.Tests.Fixtures.{
  texts, digest, timer_at, shard_row, change, drop_some, in_order, duplicate_entry,
}

-- The collection after a write, and the number of documents that it matched or deleted; at most one
-- document has the key of a timer or of a shard.
unfoldable perform : Write → List Row → Answer ℕ × List Row
unfolding conflicts any count change drop_some filter
perform (insert_one r) db =
    if any (conflicts r) db then (fault duplicate_entry, db) else (value 1, r ∷ db)
perform (update_one p f) db = (value (count p db), change f p db)
perform (upsert_one p f r) db =
    if any p db then (value (count p db), change f p db) else (value 0, r ∷ db)
perform (delete_one p) db = (value (count p db), drop_some 1 p db)
perform (delete_many p) db = (value (count p db), filter (λ r. not (p r)) db)

abbrev head_of : List Row → Option Row
head_of [] = none
head_of (r ∷ _) = some r

unfoldable values : List Row → List (Answer Row)
values [] = []
values (r ∷ rs) = value r ∷ values rs

unfoldable collection : Client
unfolding perform filter in_order values
collection = record {
  Db = List Row;
  Session = List Row × List Row;
  write = perform;
  find_one = λ p db. (value (head_of (filter p db)), db);
  find = λ p n db.
      (value (record { docs = values (take n (in_order (filter p db))); err = none }), db);
  start_session = λ db. (value (db, db), db);
  start_transaction = λ session. (none, (session.0, session.0));
  session_write =
      λ w session. let (answer, after) = perform w session.1 in (answer, (session.0, after));
  session_find_one = λ p session. (value (head_of (filter p session.1)), session);
  commit_transaction = λ session. (none, (session.1, session.1));
  abort_transaction = λ session. (session.0, session.0);
  end_session = λ session. session.0;
}

abbrev rows : List Row
rows = shard_row ∷ timer_row 7 timer (some "=a") none ∷ []

-- The shard and one of its timers.
unfoldable db : collection.Db
unfolding collection
db = rows

range_filter-agrees_example :
    range_filter 7 0 0 200 0 (timer_row 7 timer (some "=a") none)
    ≡ is_timer_in_range 7 0 0 200 0 (timer_row 7 timer (some "=a") none)
range_filter-agrees_example = range_filter-agrees 7 0 0 200 0 (timer_row 7 timer (some "=a") none)

-- A timer without a payload, created where one with a payload was.
abbrev bare_timer : DbTimer String
bare_timer = record timer { payload = none }

-- The document of the old timer
abbrev old : Row
old = timer_row 7 timer (some "=a") none

old_payload :
    decode_json texts "failed to unmarshal timer payload" old.timer_payload ≡ ok (some "a")
unfolding decode_json timer_row
old_payload = refl

no_policy :
    decode_json texts "failed to unmarshal timer retry policy" old.timer_retry_policy ≡ ok none
unfolding decode_json timer_row
no_policy = refl

no_payload-AllDecode : AllDecode texts bare_timer.payload
unfolding AllDecode
no_payload-AllDecode = tt

bare_encoded :
    encode texts bare_timer.payload bare_timer.retry_policy
    ≡ ok (record { payload_json = none; retry_policy_json = none })
unfolding encode encode_json
bare_encoded = refl

timer_of_doc-set_timer_example :
    timer_of_doc texts (some "t1") (some "ns") (
      set_timer
        (build_timer_document 7 bare_timer
          (record { payload_json = none; retry_policy_json = none }))
        old)
    ≡ some (ok timer)
timer_of_doc-set_timer_example =
    timer_of_doc-set_timer texts 7 bare_timer
      (record { payload_json = none; retry_policy_json = none }) old (some "a") none
      no_payload-AllDecode policy-AllDecode bare_encoded old_payload no_policy

first-filter :
    (p : Row → Bool) (db : List Row) (doc : Row)
    → head_of (filter p db) ≡ some doc
    → (p doc ≡ true) × ((q : Row → Bool) → q doc ≡ true → 0 < count q db)
unfolding filter count
first-filter p [] doc h = absurd (ground (arith, h))
first-filter p (r ∷ db) doc h = elim (Bool-cases (p r)) [
  | inl e ↦ ground (arith, e, h)
  | inr e ↦
      let (passes, counts) = first-filter p db doc (ground (arith, e, h)) in
      (passes, λ q c. ground (arith, counts q c))
]

session_started :
    (before : List Row) (session : List Row × List Row)
    → value (before, before) ≡ value session
    → View.rows session.0 ≡ View.rows before
session_started before session h = ground (arith, h)

doc_found :
    (p : Row → Bool) (session : List Row × List Row) (doc : Row)
    → value (head_of (filter p session.1)) ≡ value (some doc)
    → (p doc ≡ true) × ((q : Row → Bool) → q doc ≡ true → 0 < View.rows session.1 q)
doc_found p session doc h = first-filter p session.1 doc (ground (arith, h))

unfoldable view : DocView collection
unfolding collection
view = record {
  rows = View.rows;
  left = λ session. View.rows session.0;
  seen = λ session. View.rows session.1;
  start_fault = λ db e h. refl;
  start_value = session_started;
  transaction_left = λ session. refl;
  transaction_seen = λ session h. refl;
  find_left = λ p session. refl;
  find_some = doc_found;
  abort_left = λ session. refl;
  end_rows = λ session. refl;
}

stale : IsStale collection view 7 2 db
unfolding view collection db shard_row timer_row has_version is_shard_row count
stale = refl

stale_owner_ends_session_example :
    ChangesNothing collection view db (create_timer collection texts 7 2 "ns" timer db)
    × ChangesNothing collection view db (update_timer collection texts digest 7 2 "ns" request db)
    × ChangesNothing collection view db (delete_timer collection 7 2 "ns" "t1" db)
    × RefusedFrom collection view db (
        range_delete_with_batch_insert_txn collection texts 7 2 range (timer_at "t2" 2 400 ∷ []) db)
stale_owner_ends_session_example =
    stale_owner_ends_session collection view texts digest 7 2 "ns" timer request range
      (timer_at "t2" 2 400 ∷ []) db stale
