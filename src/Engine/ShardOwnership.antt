-- ===== src/Engine/ShardOwnership.antt =====
-- server/engine/shard_ownership.go: the claim of a shard, and its loss.
pub mod Fencing
pub mod Takeover
use durable_timer.Base.{ℕ, String, Bool, true, false, Option, none, some}
use durable_timer.Databases.Models.{DbError, ShardInfo, ShardMetadata}
use durable_timer.Databases.TimerStore.{TimerStore}
use durable_timer.Databases.Results.{Result, ok, err}

pub record ShardOwnership : Type 0 where
  pub shard_id : ℕ
  -- the bit pattern of an int64
  pub shard_version : ℕ
  pub shard_metadata : ShardMetadata
  -- whether `closeChan` is closed, the signal that the ownership is lost
  pub is_released : Bool

-- `ReleaseOwnership`: the channel is closed once, later calls do nothing.
unfoldable pub release_ownership : ShardOwnership → ShardOwnership
release_ownership s = record s { is_released = true }

module _ {Json : Type 0} (store : TimerStore Json) where
  owner_of : ℕ → Result (Option ShardInfo × ShardInfo) → Result ShardOwnership
  owner_of shard_id (ok (prev, current)) = ok (record {
    shard_id = shard_id;
    shard_version = current.shard_version;
    shard_metadata = current.metadata;
    is_released = false;
  })
  owner_of shard_id (err e) = err e

  -- `newShardOwnershipImpl`
  unfoldable pub new_shard_ownership_impl :
      String → ℕ → store.State → Result ShardOwnership × store.State
  unfolding owner_of
  new_shard_ownership_impl current_address shard_id w =
      let (res, w') = store.claim_shard_ownership shard_id current_address w in
      (owner_of shard_id res, w')

  -- `UpdateShardMetadata`
  unfoldable pub update_shard_metadata :
      ShardMetadata → ShardOwnership → store.State → Option DbError × ShardOwnership × store.State
  unfolding release_ownership
  update_shard_metadata metadata s w =
      let (update_err, w') = store.update_shard_metadata s.shard_id s.shard_version metadata w in
      elim update_err [
        | none ↦ (none, record s { shard_metadata = metadata }, w')
        | some e ↦
            (some e, elim e.shard_condition_fail [ true ↦ release_ownership s | false ↦ s ], w')
      ]
