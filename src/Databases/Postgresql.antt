-- ===== src/Databases/Postgresql.antt =====
-- server/databases/postgresql/postgresql_timer_store_impl.go: the timer store over PostgreSQL, as the
-- interface that the engine calls.
pub mod Shard
pub mod Write
pub mod Update
pub mod Read
pub mod Range
pub mod Atomic
pub mod Agreement
pub mod Fence
use durable_timer.Databases.Models.{Time, Uuid}
use durable_timer.Databases.TimerStore.{TimerStore}
use durable_timer.Databases.Results.{Answer}
use durable_timer.Databases.Sql.{Server}
use durable_timer.Databases.Codec.{Codec}
use Shard.{claim_shard_ownership, update_shard_metadata}
use Write.{create_timer, create_timer_no_lock, delete_timer}
use Update.{update_timer}
use Read.{get_timer, range_get_timers}
use Range.{range_delete_with_limit}

module _ {Json : Type 0} (server : Server) (codec : Codec Json)
    (parse_uuid : Uuid → Answer Uuid) where
  -- The methods of `PostgreSQLTimerStore` that the engine and the API call, over a clock.
  abbrev pub postgresql_timer_store : (server.Db → Time) → TimerStore Json
  postgresql_timer_store now = record {
    State = server.Db;
    claim_shard_ownership = λ shard_id owner_addr db.
        claim_shard_ownership server codec (now db) shard_id owner_addr db;
    update_shard_metadata = update_shard_metadata server codec;
    create_timer = create_timer server codec;
    create_timer_no_lock = create_timer_no_lock server codec;
    range_get_timers = range_get_timers server codec parse_uuid;
    range_delete_with_limit = range_delete_with_limit server codec;
    update_timer = update_timer server codec parse_uuid;
    get_timer = get_timer server codec parse_uuid;
    delete_timer = delete_timer server;
  }
