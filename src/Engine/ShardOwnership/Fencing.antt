-- ===== src/Engine/ShardOwnership/Fencing.antt =====
-- When an owner finds that it has lost its shard (server/engine/shard_ownership.go).
use durable_timer.Base.{Bool, Option, ◌≡◌, none, some, false, arith, ◌||◌}
use durable_timer.Databases.Models.{DbError, ShardMetadata}
use durable_timer.Databases.TimerStore.{TimerStore}
use durable_timer.Engine.ShardOwnership.{ShardOwnership, update_shard_metadata}

module _ {Json : Type 0} (store : TimerStore Json) where
  -- The metadata that the owner holds after an update that the store answers with the given error.
  abbrev pub held : Option DbError → ShardMetadata → ShardMetadata → ShardMetadata
  held none metadata before = metadata
  held (some _) metadata before = before

  abbrev pub is_condition_fail : Option DbError → Bool
  is_condition_fail none = false
  is_condition_fail (some e) = e.shard_condition_fail

  -- An update of the metadata makes one call of the store, with the shard and the version that were
  -- claimed, and keeps these. The owner holds the new metadata exactly if the store reports no error,
  -- and its loss is signalled exactly if it was before or the store reports a failed shard condition.
  pub update_shard_metadata_lem :
      (metadata : ShardMetadata) (s : ShardOwnership) (w : store.State)
      → let (update_err, s', w') = update_shard_metadata store metadata s w in
        let (answer, w1) = store.update_shard_metadata s.shard_id s.shard_version metadata w in
        (update_err ≡ answer)
        × (w' ≡ w1)
        × (s'.shard_id ≡ s.shard_id)
        × (s'.shard_version ≡ s.shard_version)
        × (s'.shard_metadata ≡ held answer metadata s.shard_metadata)
        × (s'.is_released ≡ (s.is_released || is_condition_fail answer))
  unfolding update_shard_metadata
  update_shard_metadata_lem metadata s w = ground arith
