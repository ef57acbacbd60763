-- ===== src/Engine/BatchReader.antt =====
-- server/engine/batch_reader.go: `batchReaderImpl`, the loop that reads due timers of a shard from
-- the store and hands them to the queue.
pub mod Run
pub mod Scan
pub mod Stall
use durable_timer.Base.{
  ℕ, ◌+◌, ◌*◌, Bool, true, false, Option, none, some, List, [], ◌∷◌, ◌++◌, ℤ, pos, leb,
  if◌then◌else◌,
}
use durable_timer.Databases.Models.{
  Time, max_uuid, DbError, DbTimer, RangeGetTimersRequest, RangeGetTimersResponse,
}
use durable_timer.Databases.TimerStore.{TimerStore}
use durable_timer.Databases.Results.{Result, ok, err}
use durable_timer.Backoff.Policy.{
  Float, compute_next_delay, new_exponential_retry_policy, set_maximum_interval,
}
use durable_timer.Backoff.Retry.{
  ThrottleRetry, Environment, returned, out_of_fuel, do_retry, new_throttle_retry,
  with_retry_policy, with_retryable_error,
}
use durable_timer.Config.{add_duration, TimerBatchReaderConfig}
use durable_timer.Engine.Offset.{TimerOffset}
use durable_timer.Engine.ShardOwnership.{ShardOwnership}
use durable_timer.Engine.TimerGate
use durable_timer.Engine.TimerGate.{TimerGate, new_local_timer_gate}

-- A value of the interface `error` that holds a `*DbError`, which may be a nil pointer.
abbrev pub DbErrorPointer : Type 0
DbErrorPointer = Option DbError

-- What the reader uses of the platform: the clock, `rand.Intn`, the wait of the retry loop, and the
-- time that a call of the store takes.
pub record Platform : Type 1 where
  pub X : Type 0
  pub now : X → Time
  pub rand_intn : ℤ → X → ℕ × X
  pub wait : ℤ → X → Bool × X
  pub after_call : X → X

pub record BatchReader (Json : Type 0) : Type 0 where
  pub shard_id : ℕ
  pub config : TimerBatchReaderConfig
  pub last_read_offset : TimerOffset
  pub next_wakeup_time : TimerGate
  -- the local variable `readTimers` of `run`
  pub read_timers : List (DbTimer Json)
  pub is_running : Bool

-- `newBatchReaderImpl`, up to the call of `run`.
unfoldable pub new_batch_reader_impl :
    (Json : Type 0) → TimerBatchReaderConfig → ShardOwnership → BatchReader Json
new_batch_reader_impl Json config shard = record {
  shard_id = shard.shard_id;
  config = config;
  last_read_offset = record {
    timestamp = shard.shard_metadata.committed_offset_timestamp;
    uuid = shard.shard_metadata.committed_offset_uuid;
  };
  next_wakeup_time = new_local_timer_gate;
  read_timers = [];
  is_running = true;
}

-- The loop over the timers of the response: the timers that are ready, the offset of the last one,
-- and the time of the first that is not.
unfoldable pub scan_timers :
    {Json : Type 0}
    → Time
    → List (DbTimer Json)
    → List (DbTimer Json)
    → TimerOffset
    → List (DbTimer Json) × TimerOffset × Option Time
scan_timers now [] ready offset = (ready, offset, none)
scan_timers now (timer ∷ timers) ready offset =
    let rest =
      scan_timers now timers (ready ++ timer ∷ [])
        (record { timestamp = timer.execute_at; uuid = timer.timer_uuid }) in
    if leb timer.execute_at now then rest else (ready, offset, some timer.execute_at)

-- The assignment `response, err = b.store.RangeGetTimers(...)` in the closure `op`. The variable `err`
-- is an `error`, so the `*DbError` of the store becomes an interface value that is not nil, around a
-- nil pointer where the store reports no error.
abbrev pub assign_error : {A : Type 0} → Result A → Option DbErrorPointer
assign_error (ok response) = some none
assign_error (err e) = some (some e)

abbrev pub assign_response : {A : Type 0} → Result A → Option A
assign_response (ok response) = some response
assign_response (err e) = none

module _ {Json : Type 0} (store : TimerStore Json) (plat : Platform) (fl : Float) where
  -- The platform, the store and the variable `response` of the read.
  pub record World : Type 0 where
    pub outside : plat.X
    pub db : store.State
    pub response : Option (RangeGetTimersResponse Json)

  pub range_request : BatchReader Json → Time → ℕ → RangeGetTimersRequest
  range_request b end limit = record {
    start_timestamp = b.last_read_offset.timestamp;
    start_time_uuid = b.last_read_offset.uuid;
    end_timestamp = end;
    end_time_uuid = max_uuid;
    limit = limit;
  }

  pub rand_intn : ℤ → World → ℕ × World
  rand_intn n w = let (r, x) = plat.rand_intn n w.outside in (r, record w { outside = x })

  -- The environment of `throttleRetry.Do(context.Background(), op)`.
  pub read_environment : RangeGetTimersRequest → ℕ → Environment DbErrorPointer World
  read_environment request shard_id = record {
    op = λ retry_count w.
        let (res, db') = store.range_get_timers shard_id request w.db in
        (
          assign_error res,
          record { outside = plat.after_call w.outside; db = db'; response = assign_response res },
        );
    now = λ w. plat.now w.outside;
    wait =
        λ d w. let (cancelled, x) = plat.wait d w.outside in (cancelled, record w { outside = x });
  }

  -- The policy of 100 ms, at most 60 s, and `backoff.NewThrottleRetry` with its two options.
  pub read_retry : ThrottleRetry DbErrorPointer World
  unfolding rand_intn
  read_retry =
      new_throttle_retry fl rand_intn (λ _. true)
        (with_retry_policy DbErrorPointer World (
            compute_next_delay fl rand_intn (
              set_maximum_interval fl (new_exponential_retry_policy fl (pos (100 * 1_000_000)))
                (pos (60 * 1_000_000_000))))
          ∷ with_retryable_error DbErrorPointer World (λ _. true)
          ∷ [])

  -- `findNextWakeupTimeWithMaxLookAhead`
  pub find_next_wakeup_time_with_max_look_ahead : Time → BatchReader Json → World → Time × World
  unfolding range_request
  find_next_wakeup_time_with_max_look_ahead now b w =
      let max_look_ahead_end = add_duration now b.config.max_look_ahead_time_duration in
      let (res, db') =
        store.range_get_timers b.shard_id (range_request b max_look_ahead_end 1) w.db in
      let t : Time = elim res [
        | err e ↦ max_look_ahead_end
        | ok response ↦ elim response.timers [
          | [] ↦ max_look_ahead_end
          | next_timer ∷ _ ↦ next_timer.execute_at
        ]
      ] in
      (t, record w { outside = plat.after_call w.outside; db = db' })

  -- What follows a read that succeeded: the ready timers, the time of the next wake-up, and the reader
  -- with its new offset.
  unfoldable pub process_response :
      Time
      → RangeGetTimersResponse Json
      → BatchReader Json
      → World
      → (List (DbTimer Json) × Option Time × BatchReader Json) × World
  unfolding find_next_wakeup_time_with_max_look_ahead
  process_response now response b w =
      let (ready, offset, look_ahead) = scan_timers now response.timers [] b.last_read_offset in
      let b' = record b { last_read_offset = offset } in
      elim look_ahead [
        | some t ↦ ((ready, some t, b'), w)
        | none ↦ elim ready [
          | timer ∷ timers ↦ ((timer ∷ timers, none, b'), w)
          | [] ↦
              let (t, w') = find_next_wakeup_time_with_max_look_ahead now b' w in
              (([], some t, b'), w')
        ]
      ]

  -- `readTimersAndLookAheadFromDatabase`; `none` is a retry loop that does not end within the fuel,
  -- and a nil `response`.
  pub read_timers_and_look_ahead_from_database :
      ℕ
      → BatchReader Json
      → World
      → Option (List (DbTimer Json) × Option Time × BatchReader Json) × World
  unfolding range_request
  read_timers_and_look_ahead_from_database fuel b w =
      let now = plat.now w.outside in
      let request =
        range_request b (add_duration now b.config.min_look_ahead_time_duration)
          b.config.batch_read_limit_per_request in
      let (outcome, w') =
        do_retry read_retry (read_environment request b.shard_id) fuel
          (record w { response = none }) in
      elim outcome [
        | out_of_fuel ↦ (none, w')
        | returned res ↦ elim res [
          | some e ↦ (some ([], none, b), w')
          | none ↦ elim w'.response [
            | none ↦ (none, w')
            | some response ↦
                let (result, w'') = process_response now response b w' in (some result, w'')
          ]
        ]
      ]
