-- ===== src/Backoff/Retry.antt =====
-- server/engine/backoff/retry.go: `ThrottleRetry` and its loop `Do`.
-- A Go `error` is an `Option E`, its nil is `none`. The world W holds the clock, the random source
-- and all that the operation changes.
pub mod Rounds
pub mod Attempts
pub mod Expiry
use durable_timer.Base.{
  ℕ, zero, suc, ◌*◌, ◌+◌, Bool, true, false, not, ◌&&◌, Option, none, some, List, [], ◌∷◌, ℤ, pos,
  ltb_ℤ, eqb_ℤ, if◌then◌else◌,
}
use durable_timer.Databases.Models.{Time}
use durable_timer.Backoff.Policy.{
  Float, RetryPolicy, done, no_interval, new_exponential_retry_policy, set_maximum_interval,
  set_expiration_interval, compute_next_delay,
}
use durable_timer.Backoff.Retrier.{Retrier, new_retrier, next_back_off}

pub record ThrottleRetry (E W : Type 0) : Type 0 where
  pub policy : RetryPolicy W
  pub is_retryable : E → Bool
  pub throttle_policy : RetryPolicy W
  pub is_throttle : E → Bool

-- What `Do` does of the outside: the operation at a retry count, the clock, and the wait of a delay
-- on the context and the timer, which says whether the context ended first.
pub record Environment (E W : Type 0) : Type 0 where
  pub op : ℕ → W → Option E × W
  pub now : W → Time
  pub wait : ℤ → W → Bool × W

-- How `Do` ends: with an error value, or not within the fuel.
pub data Outcome (E : Type 0) : Type 0 where
  returned : Option E → Outcome E
  out_of_fuel : Outcome E

-- How a round of the loop ends: `Do` returns, or the loop goes on with an error.
pub data Round (E W : Type 0) : Type 0 where
  stops : Option E → W → Round E W
  goes_on : E → Retrier W → Retrier W → W → Round E W

-- `prevErr` if there is one, and the last error if not.
abbrev pub prefer : {E : Type 0} → Option E → E → Option E
prefer (some prev_err) err = some prev_err
prefer none err = some err

-- `NewThrottleRetry` applies each setter to the value that it builds.
abbrev pub ThrottleRetryOption : Type 0 → Type 0 → Type 0
ThrottleRetryOption E W = ThrottleRetry E W → ThrottleRetry E W

module _ (E W : Type 0) where
  abbrev pub with_retry_policy : RetryPolicy W → ThrottleRetryOption E W
  with_retry_policy policy tr = record tr { policy = policy }

  abbrev pub with_throttle_policy : RetryPolicy W → ThrottleRetryOption E W
  with_throttle_policy policy tr = record tr { throttle_policy = policy }

  abbrev pub with_retryable_error : (E → Bool) → ThrottleRetryOption E W
  with_retryable_error is_retryable tr = record tr { is_retryable = is_retryable }

  abbrev pub with_throttle_error : (E → Bool) → ThrottleRetryOption E W
  with_throttle_error is_throttle tr = record tr { is_throttle = is_throttle }

module _ {E W : Type 0} where
  apply_options : List (ThrottleRetryOption E W) → ThrottleRetry E W → ThrottleRetry E W
  apply_options [] tr = tr
  apply_options (opt ∷ opts) tr = apply_options opts (opt tr)

  -- `NewThrottleRetry`; `is_db_error` says whether an error is a `*databases.DbError`.
  unfoldable pub new_throttle_retry :
      (fl : Float)
      → (ℤ → W → ℕ × W)
      → (E → Bool)
      → List (ThrottleRetryOption E W)
      → ThrottleRetry E W
  unfolding apply_options
  new_throttle_retry fl rand_intn is_db_error opts =
      let retry_policy =
        set_maximum_interval fl (new_exponential_retry_policy fl (pos (50 * 1_000_000)))
          (pos (2 * 1_000_000_000)) in
      let throttle_policy =
        set_expiration_interval fl
          (set_maximum_interval fl (new_exponential_retry_policy fl (pos 1_000_000_000))
            (pos (10 * 1_000_000_000)))
          no_interval in
      apply_options opts (record {
        policy = compute_next_delay fl rand_intn retry_policy;
        is_retryable = λ _. false;
        throttle_policy = compute_next_delay fl rand_intn throttle_policy;
        is_throttle = is_db_error;
      })

  module _ (tr : ThrottleRetry E W) (env : Environment E W) where
    -- The longer of the two delays, where the error is a throttle error.
    throttle_delay : E → ℤ → Retrier W → W → ℤ × Retrier W × W
    throttle_delay err next t w =
        if tr.is_throttle err
        then (let (throttle_back_off, t', w') = next_back_off env.now t w in
            (
              if not (eqb_ℤ throttle_back_off done) && ltb_ℤ next throttle_back_off
                  then throttle_back_off
                  else next,
              t',
              w',
            ))
        else (next, t, w)

    -- One round of the loop: from `prevErr`, the two retriers and the retry count to the end of `Do`
    -- or to the next round.
    unfoldable pub do_round : Option E → Retrier W → Retrier W → ℕ → W → Round E W
    unfolding throttle_delay
    do_round prev r t retry_count w =
        let (res, w1) = env.op retry_count w in
        elim res [
          | none ↦ stops none w1
          | some err ↦
              let (next, r', w2) = next_back_off env.now r w1 in
              let (longer, t', w3) = throttle_delay err next t w2 in
              let (cancelled, w4) = env.wait longer w3 in
              if not (tr.is_retryable err)
              then stops (prefer prev err) w1
              else if eqb_ℤ next done
              then stops (prefer prev err) w2
              else if cancelled
              then stops (prefer prev err) w4
              else goes_on err r' t' w4
        ]

    unfoldable pub do_loop : ℕ → Option E → Retrier W → Retrier W → ℕ → W → Outcome E × W
    do_loop zero prev r t retry_count w = (out_of_fuel, w)
    do_loop (suc fuel) prev r t retry_count w = elim (do_round prev r t retry_count w) [
      | stops res w' ↦ (returned res, w')
      | goes_on err r' t' w' ↦ do_loop fuel (some err) r' t' (retry_count + 1) w'
    ]

    -- `Do`
    unfoldable pub do_retry : ℕ → W → Outcome E × W
    do_retry fuel w =
        do_loop fuel none (new_retrier env.now tr.policy w)
          (new_retrier env.now tr.throttle_policy w) 0 w

-- `IgnoreErrors`, over a test of equality of errors.
unfoldable pub ignore_errors : {E : Type 0} → (E → E → Bool) → List E → E → Bool
ignore_errors same [] err = true
ignore_errors same (excluded ∷ errors) err =
    let rest = ignore_errors same errors err in if same err excluded then false else rest
