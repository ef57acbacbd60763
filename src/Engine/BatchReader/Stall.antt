-- ===== src/Engine/BatchReader/Stall.antt =====
-- What the batch reader (server/engine/batch_reader.go) delivers.
use durable_timer.Base.{
  ℕ, ◌+◌, ◌*◌, ◌≤◌, ◌<◌, ◌≡◌, ◌≢◌, refl, Bool, true, false, Option, none, some, List, [], ◌∷◌, ℤ,
  arith, if◌then◌else◌, Option-cases, inl, inr,
}
use durable_timer.Databases.Models.{Time, DbTimer, RangeGetTimersRequest}
use durable_timer.Databases.TimerStore.{TimerStore}
use durable_timer.Databases.Results.{Result, ok, err}
use durable_timer.Backoff.Policy.{Float}
use durable_timer.Backoff.Policy.Bounds.{expired, compute_next_delay_forward}
use durable_timer.Backoff.Retry.{returned, do_retry, new_throttle_retry}
use durable_timer.Backoff.Retry.Attempts.{IsReturned, do_retry-result}
use durable_timer.Backoff.Retry.Expiry.{IsExpiring, do_retry_expires}
use durable_timer.Backoff.Retry.Rounds.{Advances}
use durable_timer.Config.{add_duration, TimerBatchReaderConfig}
use durable_timer.Engine.BatchReader.{
  BatchReader, Platform, World, read_environment, read_retry, range_request,
  read_timers_and_look_ahead_from_database, assign_error, new_batch_reader_impl, rand_intn,
}
use durable_timer.Engine.ShardOwnership.{ShardOwnership}
use durable_timer.Engine.TimerGate.{take_signal}
use durable_timer.Engine.BatchReader.Run.{
  Event, fired, Loop, run, run_events, on_event, on_fire, on_fired, set_gate,
}

module _ {Json : Type 0} (store : TimerStore Json) (plat : Platform) (fl : Float) where
  abbrev ReadOutcome : Type 0
  ReadOutcome = Option (List (DbTimer Json) × Option Time × BatchReader Json) × World store plat fl

  assign_error-ne-none : {A : Type 0} (res : Result A) → assign_error res ≢ none
  assign_error-ne-none (ok a) = cc
  assign_error-ne-none (err e) = cc

  op-fails :
      (request : RangeGetTimersRequest) (shard_id k : ℕ) (w : World store plat fl)
      → ((read_environment store plat fl request shard_id).op k w).0 ≢ none
  unfolding read_environment
  op-fails request shard_id k w h =
      assign_error-ne-none (store.range_get_timers shard_id request w.db).0 h

  retry_not_nil :
      (request : RangeGetTimersRequest) (shard_id fuel : ℕ) (w : World store plat fl)
      → (do_retry
          (read_retry store plat fl)
          (read_environment store plat fl request shard_id)
          fuel
          w).0
        ≢ returned none
  retry_not_nil request shard_id fuel w h =
      let (k, v, run) =
        do_retry-result (read_retry store plat fl) (read_environment store plat fl request shard_id)
          fuel w none h in
      op-fails request shard_id k v run

  abbrev read_request : BatchReader Json → World store plat fl → RangeGetTimersRequest
  read_request b w =
      range_request store plat fl b
        (add_duration (plat.now w.outside) b.config.min_look_ahead_time_duration)
        b.config.batch_read_limit_per_request

  abbrev cleared : World store plat fl → World store plat fl
  cleared w = record w { response = none }

  read_timers_empty :
      (fuel : ℕ) (b : BatchReader Json) (w : World store plat fl) (timers : List (DbTimer Json))
      (look_ahead : Option Time) (b' : BatchReader Json)
      → (read_timers_and_look_ahead_from_database store plat fl fuel b w).0
        ≡ some (timers, look_ahead, b')
      → (timers ≡ []) × (look_ahead ≡ none) × (b' ≡ b)
  unfolding read_timers_and_look_ahead_from_database
  read_timers_empty fuel b w timers look_ahead b' h =
      ground (arith, retry_not_nil (read_request b w) b.shard_id fuel (cleared w))

  -- No timer waits to be sent, and none was sent.
  record IsQuiet (s : Loop store plat fl) : Type 0 where
    nothing_read : s.reader.read_timers ≡ []
    nothing_sent : s.delivered ≡ []

  on_fire-IsQuiet :
      (fuel : ℕ) (s : Loop store plat fl) → IsQuiet s → IsQuiet (on_fire store plat fl fuel s)
  on_fire-IsQuiet fuel s q =
      let taken = set_gate store plat fl s (take_signal s.reader.next_wakeup_time) in
      elim (Option-cases
        (read_timers_and_look_ahead_from_database store plat fl fuel taken.reader s.world).0) [
          | inl e ↦ record {
            nothing_read = unfold on_fire in ground arith;
            nothing_sent = unfold on_fire in ground arith;
          }
          | inr ((timers, look_ahead, b'), e) ↦
              let found = read_timers_empty fuel taken.reader s.world timers look_ahead b' e in
              record {
                nothing_read = unfold on_fire in ground (arith, found.0);
                nothing_sent = unfold on_fire in ground arith;
              }
        ]

  on_fired-IsQuiet :
      (fuel : ℕ) (timers : List (DbTimer Json)) (s : Loop store plat fl)
      → IsQuiet s
      → IsQuiet (on_fired store plat fl fuel timers s)
  unfolding on_fired
  on_fired-IsQuiet fuel [] s q =
      let fire = on_fire-IsQuiet fuel s q in
      record {
        nothing_read = ground (arith, fire.nothing_read);
        nothing_sent = ground (arith, fire.nothing_sent);
      }
  on_fired-IsQuiet fuel (_ ∷ _) s q = q

  on_event-IsQuiet :
      (fuel : ℕ) (e : Event plat.X store.State) (s : Loop store plat fl)
      → IsQuiet s
      → IsQuiet (on_event store plat fl fuel e s)
  unfolding on_event
  on_event-IsQuiet fuel fired s q = on_fired-IsQuiet fuel s.reader.read_timers s q
  on_event-IsQuiet fuel _ s q = ground arith

  run_events-IsQuiet :
      (fuel : ℕ) (events : List (Event plat.X store.State)) (s : Loop store plat fl)
      → IsQuiet s
      → IsQuiet (run_events store plat fl fuel events s)
  unfolding run_events
  run_events-IsQuiet fuel [] s q = q
  run_events-IsQuiet fuel (e ∷ events) s q =
      run_events-IsQuiet fuel events _ (kept s.reader.is_running)
    where
      kept : (b : Bool) → IsQuiet (if b then on_event store plat fl fuel e s else s)
      kept true = on_event-IsQuiet fuel e s q
      kept false = q

  -- Whatever the store holds and whatever events the loop takes, a new reader never sends a timer to the
  -- loading buffer.
  pub run_delivers_nothing :
      (fuel : ℕ) (events : List (Event plat.X store.State)) (config : TimerBatchReaderConfig)
      (shard : ShardOwnership) (w : World store plat fl)
      → (run store plat fl fuel events (new_batch_reader_impl Json config shard) w).delivered ≡ []
  unfolding run new_batch_reader_impl
  run_delivers_nothing fuel events config shard w =
      let quiet =
        run_events-IsQuiet fuel events _ (record { nothing_read = refl; nothing_sent = refl }) in
      quiet.nothing_sent

  -- The clock does not go back over a call of the store or of `rand.Intn`, and a wait takes time.
  pub record IsForward : Type 0 where
    pub call_forward : (x : plat.X) → plat.now x ≤ plat.now (plat.after_call x)
    pub rand_forward : (n : ℤ) (x : plat.X) → plat.now x ≤ plat.now (plat.rand_intn n x).1
    pub wait_forward : (d : ℤ) (x : plat.X) → plat.now x < plat.now (plat.wait d x).1

  module _ (fwd : IsForward) where
    read-Advances :
        (request : RangeGetTimersRequest) (shard_id : ℕ)
        → Advances (read_retry store plat fl) (read_environment store plat fl request shard_id)
    unfolding read_retry new_throttle_retry read_environment rand_intn
    read-Advances request shard_id = record {
      op_forward = λ k w. fwd.call_forward w.outside;
      policy_forward = λ elapsed attempts w.
          compute_next_delay_forward fl (rand_intn store plat fl) (λ v. plat.now v.outside)
            (λ n v. fwd.rand_forward n v.outside) _ elapsed attempts w;
      throttle_forward = λ elapsed attempts w.
          compute_next_delay_forward fl (rand_intn store plat fl) (λ v. plat.now v.outside)
            (λ n v. fwd.rand_forward n v.outside) _ elapsed attempts w;
      wait_forward = λ d w. fwd.wait_forward d w.outside;
    }

    abbrev read_fuel : ℕ
    read_fuel = 60 * 1_000_000_000 + 2

    retry_returns :
        (request : RangeGetTimersRequest) (shard_id : ℕ) (w : World store plat fl)
        → IsReturned (
            do_retry
              (read_retry store plat fl)
              (read_environment store plat fl request shard_id)
              read_fuel
              w)
    retry_returns request shard_id w =
        do_retry_expires (read_retry store plat fl)
          (read_environment store plat fl request shard_id) (60 * 1_000_000_000) (omega arith)
          (read-Advances request shard_id) expiring w
      where
        expiring : IsExpiring (60 * 1_000_000_000) (read_retry store plat fl).policy
        expiring elapsed attempts v h =
            unfold read_retry new_throttle_retry in
            expired fl (rand_intn store plat fl) _ (60 * 1_000_000_000) elapsed attempts v
              (omega arith) refl h

    -- Where the clock does not go back and every wait takes time, a read ends, whatever the store holds:
    -- it finds no timer and no time to wake up at, and leaves the offset of the reader where it was.
    pub read_finds_nothing :
        (b : BatchReader Json) (w : World store plat fl)
        → (read_timers_and_look_ahead_from_database store plat fl read_fuel b w).0
          ≡ some ([], none, b)
    unfolding read_timers_and_look_ahead_from_database
    read_finds_nothing b w = ground (
      arith,
      retry_returns (read_request b w) b.shard_id (cleared w),
      retry_not_nil (read_request b w) b.shard_id read_fuel (cleared w),
    )
