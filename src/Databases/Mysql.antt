-- ===== src/Databases/Mysql.antt =====
-- server/databases/mysql/mysql_timer_store_impl.go: the timer store over MySQL, as the interface that
-- the engine calls.
pub mod Shard
pub mod Write
pub mod Read
pub mod Range
pub mod Atomic
use durable_timer.Base.{String}
use durable_timer.Databases.Models.{Time, Uuid}
use durable_timer.Databases.TimerStore.{TimerStore}
use durable_timer.Databases.Sql.{Server}
use durable_timer.Databases.Codec.{Codec}
use Shard.{claim_shard_ownership, update_shard_metadata}
use Write.{create_timer, create_timer_no_lock, update_timer, delete_timer}
use Read.{get_timer}
use Range.{range_get_timers, range_delete_with_limit}

module _ {Json : Type 0} (server : Server) (codec : Codec Json) (md5 : String → Uuid) where
  -- The methods of `MySQLTimerStore` that the engine and the API call, over a clock.
  abbrev pub mysql_timer_store : (server.Db → Time) → TimerStore Json
  mysql_timer_store now = record {
    State = server.Db;
    claim_shard_ownership = λ shard_id owner_addr db.
        claim_shard_ownership server codec (now db) shard_id owner_addr db;
    update_shard_metadata = update_shard_metadata server codec;
    create_timer = create_timer server codec;
    create_timer_no_lock = create_timer_no_lock server codec;
    range_get_timers = range_get_timers server codec;
    range_delete_with_limit = range_delete_with_limit server codec;
    update_timer = update_timer server codec md5;
    get_timer = get_timer server codec;
    delete_timer = delete_timer server;
  }
