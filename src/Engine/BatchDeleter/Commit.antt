-- ===== src/Engine/BatchDeleter/Commit.antt =====
-- Which offset the batch deleter (server/engine/batch_deleter.go) has committed.
use durable_timer.Base.{◌≡◌, refl, none, some, List, arith}
use durable_timer.Databases.TimerStore.{TimerStore}
use durable_timer.Config.{TimerBatchDeleterConfig}
use durable_timer.Engine.Offset.{TimerOffset}
use durable_timer.Engine.ShardOwnership.{ShardOwnership, update_shard_metadata}
use durable_timer.Engine.BatchDeleter.{
  new_batch_deleter_impl, Wakeup, closed, ownership_lost, Loop, goes_on, panics, run_round,
  commit_offset, delete_timers, metadata_of, close, nil,
}
use durable_timer.Engine.BatchDeleter.Starvation.{Runs, here, next}

module _ {Json : Type 0} (store : TimerStore Json) where
  -- The metadata that the shard's owner holds is that of the committed offset, and the close channel
  -- is nil.
  pub record IsCommitted (s : Loop store) : Type 0 where
    pub metadata_committed :
        (offset : TimerOffset)
        → s.deleter.committed_offset ≡ some offset
        → s.deleter.shard.shard_metadata ≡ metadata_of offset
    pub never_made : s.deleter.close_chan ≡ nil

  run_round-IsCommitted :
      (w : Wakeup) (s t : Loop store)
      → IsCommitted s
      → run_round store w s ≡ goes_on t
      → IsCommitted t
  unfolding run_round commit_offset delete_timers update_shard_metadata
  run_round-IsCommitted closed s t c h = cc
  run_round-IsCommitted w s t c h = record {
    metadata_committed = λ offset e. ground (arith, c.metadata_committed offset);
    never_made = ground (arith, c.never_made);
  }

  Runs-IsCommitted :
      (config : TimerBatchDeleterConfig) {s t : Loop store} {ws : List Wakeup}
      → IsCommitted s
      → Runs store config s ws t
      → IsCommitted t
  Runs-IsCommitted config c here = c
  Runs-IsCommitted config c (next {s} {t} {w = w} _ e rest) =
      Runs-IsCommitted config (run_round-IsCommitted w s t c e) rest

  abbrev pub start : TimerBatchDeleterConfig → ShardOwnership → store.State → Loop store
  start config shard db = record { deleter = new_batch_deleter_impl config shard; db = db }

  start-IsCommitted :
      (config : TimerBatchDeleterConfig) (shard : ShardOwnership) (db : store.State)
      → IsCommitted (start config shard db)
  unfolding new_batch_deleter_impl
  start-IsCommitted config shard db = record {
    metadata_committed = λ offset e. cc;
    never_made = refl;
  }

  -- After any rounds of a new deleter, the offset that it records as committed, if there is one, is
  -- the metadata that the shard's owner holds.
  pub run_committed :
      (config : TimerBatchDeleterConfig) (shard : ShardOwnership) (db : store.State)
      (ws : List Wakeup) (t : Loop store) (offset : TimerOffset)
      → Runs store config (start config shard db) ws t
      → t.deleter.committed_offset ≡ some offset
      → t.deleter.shard.shard_metadata ≡ metadata_of offset
  run_committed config shard db ws t offset runs e =
      let c = Runs-IsCommitted config (start-IsCommitted config shard db) runs in
      c.metadata_committed offset e

  -- After any rounds of a new deleter, the loss of the shard makes its goroutine panic, and so does a
  -- call of `Close`.
  pub ownership_lost_panics :
      (config : TimerBatchDeleterConfig) (shard : ShardOwnership) (db : store.State)
      (ws : List Wakeup) (t : Loop store)
      → Runs store config (start config shard db) ws t
      → (run_round store ownership_lost t ≡ panics) × (close t.deleter ≡ none)
  unfolding run_round close
  ownership_lost_panics config shard db ws t runs =
      let c = Runs-IsCommitted config (start-IsCommitted config shard db) runs in
      ground (arith, c.never_made)
