-- ===== src/Tests/Dynamodb.antt =====
-- Examples for the DynamoDB store, over the table in memory.
use durable_timer.Base.{
  Bool, leb, true, ◌≤◌, ◌&&◌, length, arith, str_eq, if◌then◌else◌, ◌+◌, String, true, ◌≡◌, ◌≢◌,
  refl, none, some, List, [], ◌∷◌, any, count,
}
use durable_timer.Databases.Models.{RangeDeleteTimersResponse, UpdateDbTimerRequest}
use durable_timer.Databases.Results.{Answer, is_ok, ok, value, fault}
use durable_timer.Databases.Dynamodb.Client.{
  Write, Item, Formats, Assignment, set, text, get_timer_sort_key,
}
use durable_timer.Databases.Dynamodb.Range.{
  range_delete_with_limit, range_query, range_delete_with_batch_insert_txn, is_empty,
}
use durable_timer.Databases.Dynamodb.Batch.{
  limited_query, with_batch_write, batches_of_25, stale_batch_outcome,
}
use durable_timer.Databases.Dynamodb.Create.{create_timer}
use durable_timer.Databases.Dynamodb.Change.{
  bump_version, update_expressions, update_timer, update_timer_in_place,
}
use durable_timer.Databases.Dynamodb.Outcomes.{update_loses_shard}
use durable_timer.Databases.Codec.{encode, encode_json}
use durable_timer.Databases.Dynamodb.Create.{timer_item}
use durable_timer.Databases.Dynamodb.Read.{timer_of_item}
use durable_timer.Databases.Dynamodb.RoundTrip.{timer_of_item-timer_item}
use durable_timer.Databases.TimerUuid.RoundTrip.{parse-format}
use durable_timer.Tests.Items.{
  is_shard, to_shard, is_stored, holds, is_met, increments, version_after, keys_after, all_met,
  apply_all, transact, client, aws_error, view,
}
use durable_timer.Tests.Data.{
  range, payload-AllDecode, policy-AllDecode, timer, encoded, timer_encoded,
}
use durable_timer.Tests.Fixtures.{texts}

abbrev formats : Formats
formats = record {
  layout = record {
    format_time = λ t. "0001-01-01T00:00:00.001Z";
    parse_time = λ s. if str_eq s "0001-01-01T00:00:00.001Z" then some 1_000_000 else none;
    is_uuid = λ s. true;
  };
  format_rfc3339_nano = λ t. "0001-01-01T00:00:00.001Z";
  parse_rfc3339_nano = λ s. some 500;
  parse_int_error = λ s. (aws_error none none).error;
  atoi_decimal = λ s. 0;
  composite_error = λ e s. (aws_error none none).error;
  parse_uuid = λ s. if str_eq s "u-1" then value 1 else fault (aws_error none none).error;
  format_uuid = λ u. "u-1";
}

abbrev request : UpdateDbTimerRequest String
request = record {
  timer_id = "t1";
  execute_at = 0;
  callback_url = "http://localhost/callback";
  payload = some "a";
  retry_policy = none;
  callback_timeout_seconds = 0;
}

abbrev url : Assignment
url = set "timer_callback_url" (text "http://localhost/callback")

abbrev rest : List Assignment
rest = set "timer_payload" (text "=a") ∷ []

-- The shard at version 3, with and without the timer.
unfoldable stored : client.Db
unfolding client
stored = (3, "TIMER#ns#t1" ∷ [])

unfoldable absent : client.Db
unfolding client
absent = (3, [])

unfoldable after_update : client.Db
unfolding client
after_update = (4, "TIMER#ns#t1" ∷ [])

request_expressions : update_expressions request encoded ≡ url ∷ rest
unfolding update_expressions
request_expressions = refl

stored_updated : update_timer client texts 7 3 "ns" request stored ≡ (none, after_update)
unfolding update_timer update_timer_in_place update_expressions encode encode_json client stored
    after_update transact is_met holds is_stored is_shard any all_met apply_all count to_shard
    version_after increments keys_after bump_version get_timer_sort_key
stored_updated = refl

update_loses_shard_example :
    (view.version after_update 7 ≡ 3 + 1)
    × ((create_timer client texts formats 7 3 "ns" timer after_update).0 ≢ none)
update_loses_shard_example =
    update_loses_shard client texts formats view 7 3 "ns" request timer encoded encoded url rest
      stored after_update timer_encoded request_expressions timer_encoded stored_updated

timer_of_item-timer_item_example :
    timer_of_item texts formats "ns" "t1" (timer_item formats 7 "ns" timer encoded)
    ≡ some (ok (record timer { execute_at = 1_000_000 }))
timer_of_item-timer_item_example =
    timer_of_item-timer_item texts formats 7 "ns" timer encoded 1_000_000 payload-AllDecode
      policy-AllDecode timer_encoded
      (parse-format formats.layout 100 1_000_000 "u-1" (ground arith) refl refl) refl refl refl refl

abbrev no_items : List Item
no_items = []

nothing_found : client.query (range_query formats 7 range none) absent ≡ (value (no_items), absent)
unfolding client absent
nothing_found = refl

-- The version of the shard is 3.
stale_batch_outcome_example :
    is_ok (range_delete_with_batch_insert_txn client formats texts 7 2 range (timer ∷ []) absent).0
    ≡ (is_empty (no_items) && is_empty (timer ∷ []))
unfolding view client absent
stale_batch_outcome_example =
    stale_batch_outcome client texts formats view 7 2 range (timer ∷ []) no_items absent absent
      nothing_found refl

-- A client that refuses every larger batch
abbrev strict : List Write → client.Db → Answer Bool × client.Db
strict ws db = if leb (length ws) 25 then client.batch_write ws db else (value true, db)

batches_of_25_example :
    (range_delete_with_limit client formats 7 range 0 stored
      ≡ range_delete_with_limit (with_batch_write client formats strict) formats 7 range 0 stored)
    × ((items : List Item) (response : RangeDeleteTimersResponse) (db1 db2 : client.Db)
        → client.query (limited_query client formats 7 range 0) stored ≡ (value items, db1)
        → range_delete_with_limit client formats 7 range 0 stored ≡ (ok response, db2)
        → response.deleted_count ≡ length items)
batches_of_25_example = batches_of_25 client formats strict 7 0 range stored small
  where
    small :
        (ws : List Write) (db : client.Db)
        → length ws ≤ 25
        → client.batch_write ws db ≡ strict ws db
    small ws db h = ground (arith, h)
