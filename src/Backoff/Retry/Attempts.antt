-- ===== src/Backoff/Retry/Attempts.antt =====
-- How often `Do` runs its operation, and what it returns (server/engine/backoff/retry.go).
use durable_timer.Base.{
  ℕ, zero, suc, ◌+◌, ◌≤◌, ◌≡◌, inl, inr, refl, ◌∙◌, leb, leb→le, Bool-cases, Option, none, some, ℤ,
  pos, arith,
}
use durable_timer.Backoff.Policy.{done}
use durable_timer.Backoff.Retrier.{Retrier, new_retrier}
use durable_timer.Backoff.Retry.{
  ThrottleRetry, Environment, Outcome, returned, do_round, do_loop, do_retry, stops, goes_on,
}
use durable_timer.Backoff.Retry.Rounds.{
  Round-cases, went_on, not_went_on_spent, stopped, do_loop-zero, do_loop-stops, do_loop-goes_on,
}

module _ {E W : Type 0} where
  -- `Do` ended within its fuel.
  abbrev pub IsReturned : Outcome E × W → Type 0
  IsReturned out = (res : Option E) × (out.0 ≡ returned res)

  -- The policy gives no delay from its n-th attempt on.
  abbrev pub IsBoundedBy : ℕ → ThrottleRetry E W → Type 0
  IsBoundedBy n tr = (elapsed : ℤ) (k : ℕ) (w : W) → n ≤ k → (tr.policy elapsed (pos k) w).0 ≡ done

module _ {E W : Type 0} (tr : ThrottleRetry E W) (env : Environment E W) (n : ℕ) where
  module _ (bounded : IsBoundedBy n tr) where
    below :
        (prev : Option E) (r t : Retrier W) (retry_count : ℕ) (w : W) (err : E) (r' t' : Retrier W)
        (w' : W)
        → r.policy ≡ tr.policy
        → do_round tr env prev r t retry_count w ≡ goes_on err r' t' w'
        → r.current_attempt + 1 ≤ n
    below prev r t retry_count w err r' t' w' same e = elim (Bool-cases (leb n r.current_attempt)) [
      | inl h ↦ absurd (
          not_went_on_spent tr env prev r t retry_count w err r' t' w'
            (λ elapsed v. rw same (bounded elapsed r.current_attempt v (leb→le _ _ h))) e)
      | inr h ↦ ground arith
    ]

    do_loop-returns :
        (fuel : ℕ) (prev : Option E) (r t : Retrier W) (retry_count : ℕ) (w : W)
        → r.policy ≡ tr.policy
        → r.current_attempt ≤ n
        → n + 1 ≤ r.current_attempt + fuel
        → IsReturned (do_loop tr env fuel prev r t retry_count w)
    do_loop-returns zero prev r t retry_count w same low high = absurd (omega arith)
    do_loop-returns (suc fuel) prev r t retry_count w same low high =
        elim (Round-cases (do_round tr env prev r t retry_count w)) [
          | inl (res, w', e) ↦ (res, rw (do_loop-stops tr env fuel prev r t retry_count w res w' e))
          | inr (err, r', t', w', e) ↦
              let used = went_on tr env prev r t retry_count w err r' t' w' e in
              let room = below prev r t retry_count w err r' t' w' same e in
              rw (do_loop-goes_on tr env fuel prev r t retry_count w err r' t' w' e) (
                do_loop-returns fuel (some err) r' t' (retry_count + 1) w' (used.same_policy ∙ same)
                  (omega arith) (omega arith))
        ]

    -- Where the policy gives no delay from its n-th attempt on, `Do` returns, after n + 1 runs of the
    -- operation at most: each unit of fuel is one run.
    pub do_retry-returns : (w : W) → IsReturned (do_retry tr env (n + 1) w)
    unfolding do_retry
    do_retry-returns w =
        do_loop-returns (n + 1) none (new_retrier env.now tr.policy w)
          (new_retrier env.now tr.throttle_policy w) 0 w refl (omega arith) (omega arith)

module _ {E W : Type 0} (tr : ThrottleRetry E W) (env : Environment E W) where
  -- Some run of the operation gave the result.
  abbrev pub ComesFromRun : Option E → Type 0
  ComesFromRun res = (k : ℕ) × (v : W) × ((env.op k v).0 ≡ res)

  stopped-ComesFromRun :
      (prev : Option E) (r t : Retrier W) (retry_count : ℕ) (w : W) (res : Option E) (w' : W)
      → ((err : E) → prev ≡ some err → ComesFromRun (some err))
      → do_round tr env prev r t retry_count w ≡ stops res w'
      → ComesFromRun res
  stopped-ComesFromRun prev r t retry_count w none w' old e =
      elim (stopped tr env prev r t retry_count w none w' e) [
        | inl run ↦ (retry_count, w, run)
        | inr (_, not_nil) ↦ absurd (not_nil refl)
      ]
  stopped-ComesFromRun prev r t retry_count w (some err) w' old e =
      elim (stopped tr env prev r t retry_count w (some err) w' e) [
        | inl run ↦ (retry_count, w, run)
        | inr (same, _) ↦ old err same
      ]

  do_loop-result :
      (fuel : ℕ) (prev : Option E) (r t : Retrier W) (retry_count : ℕ) (w : W) (res : Option E)
      → ((err : E) → prev ≡ some err → ComesFromRun (some err))
      → (do_loop tr env fuel prev r t retry_count w).0 ≡ returned res
      → ComesFromRun res
  do_loop-result zero prev r t retry_count w res old h =
      absurd (cc (do_loop-zero tr env prev r t retry_count w))
  do_loop-result (suc fuel) prev r t retry_count w res old h =
      elim (Round-cases (do_round tr env prev r t retry_count w)) [
        | inl (res', w', e) ↦
            let same : res' ≡ res =
              cc (do_loop-stops tr env fuel prev r t retry_count w res' w' e) in
            rw same at (stopped-ComesFromRun prev r t retry_count w res' w' old e)
        | inr (err, r', t', w', e) ↦
            let used = went_on tr env prev r t retry_count w err r' t' w' e in
            do_loop-result fuel (some err) r' t' (retry_count + 1) w' res
              (λ err' same. (retry_count, w, used.failed_with ∙ same))
              (rw (do_loop-goes_on tr env fuel prev r t retry_count w err r' t' w' e) at h)
      ]

  -- What `Do` returns is what some run of the operation gave: it returns nil only if a run succeeded,
  -- and an error only if a run gave that error.
  pub do_retry-result :
      (fuel : ℕ) (w : W) (res : Option E)
      → (do_retry tr env fuel w).0 ≡ returned res
      → ComesFromRun res
  unfolding do_retry
  do_retry-result fuel w res h =
      do_loop-result fuel none (new_retrier env.now tr.policy w)
        (new_retrier env.now tr.throttle_policy w) 0 w res (λ err e. cc) h
