-- ===== src/Databases/Cassandra.antt =====
-- server/databases/cassandra/cassandra_timer_store_impl.go: the timer store over Cassandra, as the
-- interface that the engine calls.
pub mod Cql
pub mod Shard
pub mod Write
pub mod Lookup
pub mod Update
pub mod Read
pub mod Laws
pub mod Fence
pub mod Exclusion
pub mod RoundTrip
use durable_timer.Databases.Models.{Time}
use durable_timer.Databases.TimerStore.{TimerStore}
use durable_timer.Databases.Codec.{Codec}
use Cql.{Session}
use Shard.{claim_shard_ownership, update_shard_metadata}
use Write.{create_timer, create_timer_no_lock, range_delete_with_limit}
use Update.{update_timer, delete_timer}
use Read.{get_timer, range_get_timers}

module _ {Json : Type 0} (session : Session) (codec : Codec Json) where
  -- The methods of `CassandraTimerStore` that the engine and the API call, over a clock.
  abbrev pub cassandra_timer_store : (session.Db → Time) → TimerStore Json
  cassandra_timer_store now = record {
    State = session.Db;
    claim_shard_ownership = λ shard_id owner_addr db.
        claim_shard_ownership session codec (now db) shard_id owner_addr db;
    update_shard_metadata = update_shard_metadata session codec;
    create_timer = create_timer session codec;
    create_timer_no_lock = create_timer_no_lock session codec;
    range_get_timers = range_get_timers codec session;
    range_delete_with_limit = range_delete_with_limit session codec;
    update_timer = update_timer session codec;
    get_timer = get_timer codec session;
    delete_timer = delete_timer session;
  }
