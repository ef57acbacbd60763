-- ===== src/Engine/BatchDeleter.antt =====
-- server/engine/batch_deleter.go: `batchDeleterImpl`, the loop that commits the offset of a shard and
-- deletes the timers before it.
pub mod Starvation
pub mod Commit
use durable_timer.Base.{ℕ, ◌+◌, ◌%◌, ◌^◌, Bool, true, false, Option, none, some, if◌then◌else◌}
use durable_timer.Databases.Models.{
  zero_timestamp, zero_uuid, DbError, ShardMetadata, RangeDeleteTimersRequest,
}
use durable_timer.Databases.TimerStore.{TimerStore}
use durable_timer.Config.{TimerBatchDeleterConfig}
use durable_timer.Engine.Offset.{TimerOffset}
use durable_timer.Engine.ShardOwnership.{ShardOwnership, update_shard_metadata}

-- A channel that is only closed: nil, open or closed.
pub data CloseChannel : Type 0 where
  nil open_channel closed_channel : CloseChannel

pub record BatchDeleter : Type 0 where
  pub config : TimerBatchDeleterConfig
  pub shard : ShardOwnership
  pub received_offset : Option TimerOffset
  pub committed_offset : Option TimerOffset
  pub close_chan : CloseChannel

-- `newBatchDeleterImpl`; the fields that its literal does not name are nil.
unfoldable pub new_batch_deleter_impl : TimerBatchDeleterConfig → ShardOwnership → BatchDeleter
new_batch_deleter_impl config shard = record {
  config = config;
  shard = shard;
  received_offset = none;
  committed_offset = none;
  close_chan = nil;
}

close_channel : CloseChannel → Option CloseChannel
close_channel nil = none
close_channel open_channel = some closed_channel
close_channel closed_channel = none

-- `Close`; `none` is the panic of closing a nil channel or a closed one.
unfoldable pub close : BatchDeleter → Option BatchDeleter
unfolding close_channel
close b = elim (close_channel b.close_chan) [
  | none ↦ none
  | some ch ↦ some (record b { close_chan = ch })
]

-- `getCommitInterval` and `getDeleteInterval`, from what `rand.Int63n` returned: the bit patterns of the
-- sums as int64.
unfoldable pub get_commit_interval : TimerBatchDeleterConfig → ℕ → ℕ
get_commit_interval config jitter = (config.committing_interval + jitter) % 2 ^ 64

unfoldable pub get_delete_interval : TimerBatchDeleterConfig → ℕ → ℕ
get_delete_interval config jitter = (config.deleting_interval + jitter) % 2 ^ 64

abbrev pub metadata_of : TimerOffset → ShardMetadata
metadata_of offset = record {
  committed_offset_timestamp = offset.timestamp;
  committed_offset_uuid = offset.uuid;
}

-- A case of the `select` of `run`: the channels, and the two timers.
pub data Wakeup : Type 0 where
  closed : Wakeup
  ownership_lost : Wakeup
  offset_received : Option TimerOffset → Wakeup
  commit_timer : Wakeup
  delete_timer : Wakeup

-- How a round of `run` ends: the loop goes on, or `run` returns, or the goroutine panics.
pub data Next (S : Type 0) : Type 0 where
  goes_on : S → Next S
  returns : S → Next S
  panics : Next S

module _ {Json : Type 0} (store : TimerStore Json) where
  pub record Loop : Type 0 where
    pub deleter : BatchDeleter
    pub db : store.State

  -- `commitOffset`
  unfoldable pub commit_offset : Loop → Loop
  commit_offset s = elim s.deleter.received_offset [
    | none ↦ s
    | some offset ↦
        let (update_err, shard', db') =
          update_shard_metadata store (metadata_of offset) s.deleter.shard s.db in
        let b = record s.deleter { shard = shard' } in
        record {
          deleter = elim update_err [
            | some _ ↦ b
            | none ↦ record b { committed_offset = b.received_offset }
          ];
          db = db';
        }
  ]

  -- The request of `deleteTimers`.
  abbrev pub delete_request : TimerOffset → RangeDeleteTimersRequest
  delete_request offset = record {
    start_timestamp = zero_timestamp;
    start_time_uuid = zero_uuid;
    end_timestamp = offset.timestamp;
    end_time_uuid = offset.uuid;
  }

  -- `deleteTimers`
  unfoldable pub delete_timers : Loop → Loop
  delete_timers s = elim s.deleter.received_offset [
    | none ↦ s
    | some offset ↦
        let (res, db') =
          store.range_delete_with_limit s.deleter.shard.shard_id (delete_request offset)
            s.deleter.config.deleting_batch_limit_per_request s.db in
        record s { db = db' }
  ]

  -- A round of `run`.
  unfoldable pub run_round : Wakeup → Loop → Next Loop
  run_round closed s = returns s
  run_round ownership_lost s = elim (close s.deleter) [
    | none ↦ panics
    | some b ↦ returns (record s { deleter = b })
  ]
  run_round (offset_received none) s = goes_on s
  run_round (offset_received (some offset)) s =
      goes_on (record s { deleter = record s.deleter { received_offset = some offset } })
  run_round commit_timer s = goes_on (commit_offset s)
  run_round delete_timer s = goes_on (delete_timers s)
