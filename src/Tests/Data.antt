-- ===== src/Tests/Data.antt =====
-- A timer, an update of it, and a range, for the examples.
use durable_timer.Base.{sym, ap, String, ◌≡◌, refl, none, some}
use durable_timer.Databases.Models.{DbTimer, UpdateDbTimerRequest, RangeDeleteTimersRequest}
use durable_timer.Databases.Results.{ok, Answer, value, fault}
use durable_timer.Databases.Codec.{encode_json, Encoded, encode}
use durable_timer.Databases.Codec.RoundTrip.{AllDecode, Decodes}
use durable_timer.Tests.Fixtures.{texts, timer_at}

abbrev pub timer : DbTimer String
timer = timer_at "t1" 1 100

abbrev pub encoded : Encoded
encoded = record { payload_json = some "=a"; retry_policy_json = none }

pub timer_encoded : encode texts timer.payload timer.retry_policy ≡ ok encoded
unfolding encode encode_json
timer_encoded = refl

abbrev pub request : UpdateDbTimerRequest String
request = record {
  timer_id = "t1";
  execute_at = 300;
  callback_url = "http://localhost/callback";
  payload = some "a";
  retry_policy = none;
  callback_timeout_seconds = 5;
}

pub request_encoded : encode texts request.payload request.retry_policy ≡ ok encoded
unfolding encode encode_json
request_encoded = refl

abbrev pub range : RangeDeleteTimersRequest
range = record { start_timestamp = 0; start_time_uuid = 0; end_timestamp = 200; end_time_uuid = 0 }

abbrev text_of : Answer String → String
text_of (value s) = s
text_of (fault e) = ""

pub payload-AllDecode : AllDecode texts timer.payload
unfolding AllDecode Decodes
payload-AllDecode text h = let same : "=a" ≡ text = ap text_of h in rw (sym same) (refl, refl)

pub policy-AllDecode : AllDecode texts timer.retry_policy
unfolding AllDecode
policy-AllDecode = tt
