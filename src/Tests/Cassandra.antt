-- ===== src/Tests/Cassandra.antt =====
-- Examples for the Cassandra store, over the table in memory.
use durable_timer.Base.{count, ◌≤◌, ◌≡◌, refl, false, some, List, [], ◌∷◌}
use durable_timer.Databases.Models.{default_metadata}
use durable_timer.Databases.Results.{ok, is_ok}
use durable_timer.Databases.Codec.{encode, encode_json, Encoded}
use durable_timer.Databases.Race.{winners}
use durable_timer.Databases.Rows.{Row, timer_row}
use durable_timer.Databases.Cassandra.Cql.{has_key, shard_key}
use durable_timer.Databases.Cassandra.Laws.{has_version}
use durable_timer.Databases.Cassandra.Shard.{update_shard_metadata}
use durable_timer.Databases.Cassandra.Write.{
  create_timer, range_delete_with_batch_insert_txn, encode_texts,
}
use durable_timer.Databases.Cassandra.Update.{update_timer, delete_timer}
use durable_timer.Databases.Cassandra.Read.{timer_of_row}
use durable_timer.Databases.Cassandra.Fence.{ChangesNothing, stale_owner-ChangesNothing}
use durable_timer.Databases.Cassandra.Exclusion.{attempt, left, one_winner_per_row}
use durable_timer.Databases.Cassandra.RoundTrip.{timer_of_row-timer_row}
use durable_timer.Tests.Data.{payload-AllDecode, policy-AllDecode, timer, request, range}
use durable_timer.Tests.Fixtures.{texts, timer_at, shard_row}
use durable_timer.Tests.Keyspace.{keyspace, cas_view}

abbrev rows : List Row
rows = shard_row ∷ timer_row 7 timer (some "=a") (some "") ∷ []

-- The shard and one of its timers.
unfoldable db : keyspace.Db
unfolding keyspace
db = rows

no_row_at_version : cas_view.rows db (has_version (shard_key 7) 2) ≡ 0
unfolding cas_view keyspace db shard_row timer_row has_version has_key count
no_row_at_version = refl

stale_owner-ChangesNothing_example :
    let (replaced, db') =
      range_delete_with_batch_insert_txn keyspace texts 7 2 range (timer_at "t2" 2 400 ∷ []) db in
    ChangesNothing keyspace cas_view db
      (update_shard_metadata keyspace texts 7 2 default_metadata db)
    × ChangesNothing keyspace cas_view db (create_timer keyspace texts 7 2 "ns" timer db)
    × ChangesNothing keyspace cas_view db (update_timer keyspace texts 7 2 "ns" request db)
    × ChangesNothing keyspace cas_view db (delete_timer keyspace 7 2 "ns" "t1" db)
    × (is_ok replaced ≡ false)
    × (cas_view.rows db' ≡ cas_view.rows db)
stale_owner-ChangesNothing_example =
    stale_owner-ChangesNothing keyspace cas_view texts 7 2 "ns" default_metadata timer request "t1"
      range (timer_at "t2" 2 400 ∷ []) db no_row_at_version

one_winner_per_row_example :
    (winners
      (attempt keyspace cas_view texts 7 shard_row)
      (left keyspace cas_view texts 7 shard_row)
      (("a", 1000) ∷ ("b", 1001) ∷ [])
      db).0
    ≤ 1
one_winner_per_row_example =
    one_winner_per_row keyspace cas_view texts 7 shard_row (("a", 1000) ∷ ("b", 1001) ∷ []) db

abbrev encoded : Encoded
encoded = record { payload_json = some "=a"; retry_policy_json = some "" }

timer_encoded : encode_texts texts timer.payload timer.retry_policy ≡ ok encoded
unfolding encode_texts encode encode_json
timer_encoded = refl

timer_of_row-timer_row_example :
    timer_of_row texts (timer_row 7 timer (some "=a") (some "")) ≡ ok timer
timer_of_row-timer_row_example =
    timer_of_row-timer_row texts 7 timer encoded payload-AllDecode policy-AllDecode timer_encoded
