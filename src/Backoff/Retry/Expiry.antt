-- ===== src/Backoff/Retry/Expiry.antt =====
-- That `Do` ends under a policy that expires (server/engine/backoff/retry.go).
use durable_timer.Base.{
  ℕ, zero, suc, ◌+◌, ◌^◌, ◌≤◌, ◌<◌, ◌≡◌, inl, inr, refl, ◌∙◌, Option, none, some, ℤ, pos, arith,
  ◌<ℤ◌,
}
use durable_timer.Backoff.Policy.{RetryPolicy, done}
use durable_timer.Backoff.Retrier.{Retrier, new_retrier, next_back_off, get_elapsed_time, time_sub}
use durable_timer.Backoff.Retry.{ThrottleRetry, Environment, goes_on, do_round, do_loop, do_retry}
use durable_timer.Backoff.Retry.Attempts.{IsReturned}
use durable_timer.Backoff.Retry.Rounds.{Round-cases, Advances, do_loop-stops, do_loop-goes_on}

-- The policy gives no delay once more than the limit has elapsed.
abbrev pub IsExpiring : {W : Type 0} → ℕ → RetryPolicy W → Type 0
IsExpiring {W} limit policy =
    (elapsed attempts : ℤ) (w : W) → pos limit <ℤ elapsed → (policy elapsed attempts w).0 ≡ done

time_sub-lt : (limit t u : ℕ) → limit + 1 < 2 ^ 63 → u + limit < t → pos limit <ℤ time_sub t u
unfolding time_sub
time_sub-lt limit t u h k = ground arith

module _ {E W : Type 0} (tr : ThrottleRetry E W) (env : Environment E W) (limit : ℕ) where
  module _ (small : limit + 1 < 2 ^ 63) (adv : Advances tr env) where
    -- A round that goes on began within the limit and took time.
    record Within (r r' t' : Retrier W) (w w' : W) : Type 0 where
      began : env.now w ≤ r.start_time + limit
      took : env.now w < env.now w'
      same_policy : r'.policy ≡ r.policy
      same_throttle_policy : t'.policy ≡ tr.throttle_policy
      same_start : r'.start_time ≡ r.start_time

    within :
        (prev : Option E) (r t : Retrier W) (retry_count : ℕ) (w : W) (err : E) (r' t' : Retrier W)
        (w' : W)
        → IsExpiring limit tr.policy
        → r.policy ≡ tr.policy
        → t.policy ≡ tr.throttle_policy
        → do_round tr env prev r t retry_count w ≡ goes_on err r' t' w'
        → Within r r' t' w w'
    unfolding do_round next_back_off get_elapsed_time
    within prev r t retry_count w err r' t' w' expiring same same_t e =
        let v = (env.op retry_count w).1 in
        let elapsed = time_sub (env.now v) r.start_time in
        let (next, v2) = r.policy elapsed (pos r.current_attempt) v in
        let (throttled, v3) =
          t.policy (time_sub (env.now v2) t.start_time) (pos t.current_attempt) v2 in
        let forward : env.now v ≤ env.now v2 = rw same (adv.policy_forward _ _ v) in
        let throttle_forward : env.now v2 ≤ env.now v3 = rw same_t (adv.throttle_forward _ _ v2) in
        let spent : pos limit <ℤ elapsed → next ≡ done =
          rw same (expiring elapsed (pos r.current_attempt) v) in
        ground (
          arith,
          adv.op_forward retry_count w,
          adv.wait_forward next v2,
          adv.wait_forward next v3,
          adv.wait_forward throttled v3,
          time_sub-lt limit (env.now v) r.start_time small,
        )

    module _ (expiring : IsExpiring limit tr.policy) where
      do_loop-returns :
          (fuel : ℕ) (prev : Option E) (r t : Retrier W) (retry_count : ℕ) (w : W)
          → r.policy ≡ tr.policy
          → t.policy ≡ tr.throttle_policy
          → 0 < fuel
          → r.start_time + limit + 2 ≤ env.now w + fuel
          → IsReturned (do_loop tr env fuel prev r t retry_count w)
      do_loop-returns zero prev r t retry_count w same same_t some_fuel enough =
          absurd (omega arith)
      do_loop-returns (suc fuel) prev r t retry_count w same same_t some_fuel enough =
          elim (Round-cases (do_round tr env prev r t retry_count w)) [
            | inl (res, w', e) ↦
                (res, rw (do_loop-stops tr env fuel prev r t retry_count w res w' e))
            | inr (err, r', t', w', e) ↦
                let h = within prev r t retry_count w err r' t' w' expiring same same_t e in
                rw (do_loop-goes_on tr env fuel prev r t retry_count w err r' t' w' e) (
                  do_loop-returns fuel (some err) r' t' (retry_count + 1) w' (h.same_policy ∙ same)
                    h.same_throttle_policy (omega arith) (omega arith))
          ]

      -- Where the policy gives no delay once more than the limit has elapsed, the clock does not go
      -- back and every wait takes time, `Do` returns, within limit + 2 runs of the operation.
      pub do_retry_expires : (w : W) → IsReturned (do_retry tr env (limit + 2) w)
      unfolding do_retry
      do_retry_expires w =
          do_loop-returns (limit + 2) none (new_retrier env.now tr.policy w)
            (new_retrier env.now tr.throttle_policy w) 0 w refl refl (omega arith) (omega arith)
