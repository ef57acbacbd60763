-- ===== src/Databases/Mongodb/Read.antt =====
-- How the MongoDB store reads timers (server/databases/mongodb/mongodb_timer_store_impl.go): `GetTimer`
-- and `RangeGetTimers`. A field of a document that is not of its type panics: the answer is then `none`.
use durable_timer.Base.{ℕ, String, Option, none, some, List, [], ◌∷◌}
use durable_timer.Databases.Models.{
  GoError, DbTimer, RangeGetTimersRequest, RangeGetTimersResponse, new_generic_db_error,
  new_db_error_not_exists,
}
use durable_timer.Databases.Results.{Result, ok, err, Answer, value, fault, ◌>>=◌}
use durable_timer.Databases.Codec.{Codec, decode_json}
use durable_timer.Databases.Rows.{Row, is_timer_row}
use durable_timer.Databases.Mongodb.Driver.{Client}
use durable_timer.Databases.Mongodb.Range.{range_filter}

-- A type assertion on a field
abbrev pub then_field : {A : Type 0} {B : Type 0} → Option A → (A → Option B) → Option B
then_field (some a) f = f a
then_field none f = none

module _ {Json : Type 0} (codec : Codec Json) where
  abbrev decoded : Row → Result (Option Json × Option Json)
  decoded doc = do
    payload ← decode_json codec "failed to unmarshal timer payload" doc.timer_payload
    policy ← decode_json codec "failed to unmarshal timer retry policy" doc.timer_retry_policy
    ok (payload, policy)

  -- The timer of a document, with its id and its namespace; the values are decoded before the other
  -- fields are read.
  unfoldable pub timer_of_doc : Option String → Option String → Row → Option (Result (DbTimer Json))
  unfolding decode_json
  timer_of_doc timer_id timer_namespace doc = elim (decoded doc) [
    | err e ↦ some (err e)
    | ok (payload, policy) ↦ then_field timer_id (λ id. then_field timer_namespace (λ namespace.
        then_field doc.timer_callback_url (λ callback_url.
          then_field doc.timer_callback_timeout_seconds (λ secs.
            then_field doc.timer_created_at (λ created_at.
              then_field doc.timer_attempts (λ attempts. some (
                ok (record {
                  id = id;
                  timer_uuid = doc.timer_uuid;
                  namespace = namespace;
                  execute_at = doc.timer_execute_at;
                  callback_url = callback_url;
                  payload = payload;
                  retry_policy = policy;
                  callback_timeout_seconds = secs;
                  created_at = created_at;
                  updated_at = 0;
                  executed_at = 0;
                  attempts = attempts;
                }))))))))
  ]

  -- What `GetTimer` makes of the document that it finds.
  unfoldable pub timer_of_found :
      String → String → Answer (Option Row) → Option (Result (DbTimer Json))
  unfolding timer_of_doc
  timer_of_found namespace timer_id (fault e) =
      some (err (new_generic_db_error "failed to get timer" (some e)))
  timer_of_found namespace timer_id (value none) =
      some (err (new_db_error_not_exists "timer not found" none))
  timer_of_found namespace timer_id (value (some doc)) =
      timer_of_doc (some timer_id) (some namespace) doc

  abbrev cons_timer :
      Option (Result (DbTimer Json))
      → Option (Result (List (DbTimer Json)))
      → Option (Result (List (DbTimer Json)))
  cons_timer none rest = none
  cons_timer (some (err e)) rest = some (err e)
  cons_timer (some (ok timer)) none = none
  cons_timer (some (ok timer)) (some (err e)) = some (err e)
  cons_timer (some (ok timer)) (some (ok timers)) = some (ok (timer ∷ timers))

  -- The loop over the cursor: the first document that does not decode ends it.
  unfoldable pub read_docs : List (Answer Row) → Option (Result (List (DbTimer Json)))
  unfolding timer_of_doc
  read_docs [] = some (ok [])
  read_docs (fault e ∷ docs) =
      some (err (new_generic_db_error "failed to decode timer document" (some e)))
  read_docs (value doc ∷ docs) =
      cons_timer (timer_of_doc doc.timer_id doc.timer_namespace doc) (read_docs docs)

  abbrev response_of :
      Option GoError
      → Option (Result (List (DbTimer Json)))
      → Option (Result (RangeGetTimersResponse Json))
  response_of cursor_err none = none
  response_of cursor_err (some (err e)) = some (err e)
  response_of (some e) (some (ok timers)) =
      some (err (new_generic_db_error "cursor iteration failed" (some e)))
  response_of none (some (ok timers)) = some (ok (record { timers = timers }))

  module _ (client : Client) where
    open client use {Db}

    -- `GetTimer`
    unfoldable pub get_timer : ℕ → String → String → Db → Option (Result (DbTimer Json)) × Db
    unfolding timer_of_found
    get_timer shard_id namespace timer_id db =
        let (found, db') = client.find_one (is_timer_row shard_id namespace timer_id) db in
        (timer_of_found namespace timer_id found, db')

    -- `RangeGetTimers`
    unfoldable pub range_get_timers :
        ℕ → RangeGetTimersRequest → Db → Option (Result (RangeGetTimersResponse Json)) × Db
    unfolding read_docs range_filter
    range_get_timers shard_id request db =
        let (found, db') =
          client.find
            (range_filter shard_id request.start_timestamp request.start_time_uuid
              request.end_timestamp request.end_time_uuid)
            request.limit db in
        (
          elim found [
            | fault e ↦ some (err (new_generic_db_error "failed to query timers" (some e)))
            | value cursor ↦ response_of cursor.err (read_docs cursor.docs)
          ],
          db',
        )
