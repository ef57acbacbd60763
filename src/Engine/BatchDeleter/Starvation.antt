-- ===== src/Engine/BatchDeleter/Starvation.antt =====
-- Which cases of its `select` the batch deleter (server/engine/batch_deleter.go) comes to take.
use durable_timer.Base.{
  refl, none, some, Option-cases, inl, inr, subst, ℕ, ◌+◌, ◌%◌, ◌^◌, ltb, if◌then◌else◌, ◌≤◌, ◌<◌,
  ◌≡◌, ◌≢◌, List, [], ◌∷◌, All, arith,
}
use durable_timer.Databases.Models.{ShardMetadata}
use durable_timer.Config.{TimerBatchDeleterConfig}
use durable_timer.Engine.ShardOwnership.{update_shard_metadata}
use durable_timer.Databases.TimerStore.{TimerStore}
use durable_timer.Engine.BatchDeleter.{
  Wakeup, commit_timer, delete_timer, get_commit_interval, get_delete_interval, Loop, run_round,
  goes_on, closed, ownership_lost, offset_received, close, commit_offset, metadata_of,
}

-- When `time.After` of a duration fires: at once for a negative one.
abbrev pub fires_in : ℕ → ℕ
fires_in d = if ltb d (2 ^ 63) then d else 0

-- What `rand.Int63n` returns for a bound, which has to be positive
abbrev pub IsBelow : ℕ → ℕ → Type 0
IsBelow jitter bound = (jitter < bound) × (bound < 2 ^ 63)

-- A case that a round can take: both timers are new in each round, with jitters below the configured
-- ones, and the one that is set to fire later is not the one that fires.
pub data IsTaken (config : TimerBatchDeleterConfig) : Wakeup → Type 0 where
  from_channel : (w : Wakeup) → w ≢ commit_timer → w ≢ delete_timer → IsTaken config w
  from_commit_timer :
      (i j : ℕ)
      → IsBelow i config.committing_interval_jitter
      → IsBelow j config.deleting_interval_jitter
      → fires_in (get_commit_interval config i) ≤ fires_in (get_delete_interval config j)
      → IsTaken config commit_timer
  from_delete_timer :
      (i j : ℕ)
      → IsBelow i config.committing_interval_jitter
      → IsBelow j config.deleting_interval_jitter
      → fires_in (get_delete_interval config j) ≤ fires_in (get_commit_interval config i)
      → IsTaken config delete_timer

module _ {Json : Type 0} (store : TimerStore Json) where
  -- The cases that `run` takes in turn, from one state of the loop to another.
  pub data Runs (config : TimerBatchDeleterConfig)
      : Loop store → List Wakeup → Loop store → Type 0 where
    here : {s : Loop store} → Runs config s [] s
    next :
        {s t u : Loop store} {w : Wakeup} {ws : List Wakeup}
        → IsTaken config w
        → run_round store w s ≡ goes_on t
        → Runs config t ws u
        → Runs config s (w ∷ ws) u

  -- The intervals do not wrap, and the longest commit interval is not above the shortest delete interval.
  pub record CommitsFirst (config : TimerBatchDeleterConfig) : Type 0 where
    pub no_wrap : config.deleting_interval + config.deleting_interval_jitter ≤ 2 ^ 63
    pub commits_first :
        config.committing_interval + config.committing_interval_jitter ≤ config.deleting_interval

  fires_in_itself : (d j : ℕ) → d + j < 2 ^ 63 → fires_in ((d + j) % 2 ^ 64) ≡ d + j
  fires_in_itself d j h = ground arith

  not_delete :
      (config : TimerBatchDeleterConfig) {w : Wakeup}
      → CommitsFirst config
      → IsTaken config w
      → w ≢ delete_timer
  unfolding get_commit_interval get_delete_interval
  not_delete config h (from_channel w _ not_delete_timer) = not_delete_timer
  not_delete config h (from_commit_timer i j _ _ _) = cc
  not_delete config h (from_delete_timer i j below below' first) =
      let commits = h.commits_first in
      let wraps = h.no_wrap in
      let (a, _) = below in
      let (b, _) = below' in
      absurd (
        omega (
          arith,
          first,
          commits,
          wraps,
          a,
          b,
          fires_in_itself config.committing_interval i (omega (arith, commits, wraps, a)),
          fires_in_itself config.deleting_interval j (omega (arith, wraps, b)),
        ))

  module _ (P : store.State → Type 0)
      (keeps : (shard_id version : ℕ) (metadata : ShardMetadata) (db : store.State)
        → P db
        → P (store.update_shard_metadata shard_id version metadata db).1) where
    commit_keeps : (s : Loop store) → P s.db → P (commit_offset store s).db
    unfolding commit_offset update_shard_metadata
    commit_keeps s p = elim (Option-cases s.deleter.received_offset) [
      | inl e ↦ rw (e, commit_offset) p
      | inr (offset, e) ↦
          let shard = s.deleter.shard in
          let m = metadata_of offset in
          elim (Option-cases
            (store.update_shard_metadata shard.shard_id shard.shard_version m s.db).0) [
              | inl done ↦
                  rw (e, commit_offset)
                    (rw (done, update_shard_metadata)
                      (keeps shard.shard_id shard.shard_version m s.db p))
              | inr (error, refused) ↦
                  rw (e, commit_offset)
                    (rw (refused, update_shard_metadata)
                      (keeps shard.shard_id shard.shard_version m s.db p))
            ]
    ]

    -- A round that goes on and is not the deletion keeps what every update of the metadata keeps.
    round_keeps :
        (w : Wakeup) (s t : Loop store)
        → w ≢ delete_timer
        → run_round store w s ≡ goes_on t
        → P s.db
        → P t.db
    unfolding run_round
    round_keeps closed s t not_it h p = absurd (ground (arith, h))
    round_keeps ownership_lost s t not_it h p = elim (Option-cases (close s.deleter)) [
      | inl e ↦ absurd (ground (arith, e, h))
      | inr (b, e) ↦ absurd (ground (arith, e, h))
    ]
    round_keeps (offset_received none) s t not_it h p =
        let same : s.db ≡ t.db = ground (arith, h) in subst P same p
    round_keeps (offset_received (some offset)) s t not_it h p =
        let same : s.db ≡ t.db = ground (arith, h) in subst P same p
    round_keeps commit_timer s t not_it h p =
        let same : (commit_offset store s).db ≡ t.db = ground (arith, h) in
        subst P same (commit_keeps s p)
    round_keeps delete_timer s t not_it h p = absurd (not_it refl)

  -- Where the intervals do not wrap and the longest commit interval is not above the shortest delete
  -- interval, as in the default configuration: the loop never takes the case that deletes timers, and
  -- whatever every update of a shard's metadata keeps of the store, the loop keeps.
  pub run_never_deletes :
      (config : TimerBatchDeleterConfig) (P : store.State → Type 0) {s u : Loop store}
      {ws : List Wakeup}
      → CommitsFirst config
      → ((shard_id version : ℕ) (metadata : ShardMetadata) (db : store.State)
          → P db
          → P (store.update_shard_metadata shard_id version metadata db).1)
      → Runs config s ws u
      → All (λ w. w ≢ delete_timer) ws × (P s.db → P u.db)
  run_never_deletes config P h keeps here = (tt, λ p. p)
  run_never_deletes config P h keeps (next taken e rest) =
      let not_it = not_delete config h taken in
      let (never, kept) = run_never_deletes config P h keeps rest in
      ((not_it, never), λ p. kept (round_keeps P keeps _ _ _ not_it e p))
