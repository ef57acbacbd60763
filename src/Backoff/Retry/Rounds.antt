-- ===== src/Backoff/Retry/Rounds.antt =====
-- One round of the loop of `Do` (server/engine/backoff/retry.go): how it ends and what it uses.
use durable_timer.Base.{
  ℕ, zero, suc, ◌+◌, ◌≤◌, ◌<◌, ◌≡◌, ◌≢◌, ◌⊎◌, inl, inr, refl, true, Option, none, some, ℤ, pos,
  arith,
}
use durable_timer.Backoff.Policy.{done}
use durable_timer.Backoff.Retrier.{Retrier, next_back_off, get_elapsed_time}
use durable_timer.Backoff.Retry.{
  ThrottleRetry, Environment, Round, stops, goes_on, returned, out_of_fuel, do_round, do_loop,
}

pub Round-cases :
    {E W : Type 0} (x : Round E W)
    → ((res : Option E) × (w : W) × (x ≡ stops res w))
      ⊎ ((err : E) × (r : Retrier W) × (t : Retrier W) × (w : W) × (x ≡ goes_on err r t w))
Round-cases (stops res w) = inl (res, w, refl)
Round-cases (goes_on err r t w) = inr (err, r, t, w, refl)

module _ {E W : Type 0} (tr : ThrottleRetry E W) (env : Environment E W) where
  -- A round that goes on has used one attempt of the policy, which was not spent.
  pub record WentOn (r r' : Retrier W) (retry_count : ℕ) (w : W) (err : E) : Type 0 where
    pub failed_with : (env.op retry_count w).0 ≡ some err
    pub retryable : tr.is_retryable err ≡ true
    pub same_policy : r'.policy ≡ r.policy
    pub one_attempt : r'.current_attempt ≡ r.current_attempt + 1

  pub went_on :
      (prev : Option E) (r t : Retrier W) (retry_count : ℕ) (w : W) (err : E) (r' t' : Retrier W)
      (w' : W)
      → do_round tr env prev r t retry_count w ≡ goes_on err r' t' w'
      → WentOn r r' retry_count w err
  unfolding do_round next_back_off
  went_on prev r t retry_count w err r' t' w' h = ground arith

  pub not_went_on_spent :
      (prev : Option E) (r t : Retrier W) (retry_count : ℕ) (w : W) (err : E) (r' t' : Retrier W)
      (w' : W)
      → ((elapsed : ℤ) (v : W) → (r.policy elapsed (pos r.current_attempt) v).0 ≡ done)
      → do_round tr env prev r t retry_count w ≢ goes_on err r' t' w'
  unfolding do_round next_back_off
  not_went_on_spent prev r t retry_count w err r' t' w' spent h =
      let v = (env.op retry_count w).1 in ground (arith, spent (get_elapsed_time env.now r v) v)

  -- What a round returns is what its run of the operation gave, or the previous error.
  pub stopped :
      (prev : Option E) (r t : Retrier W) (retry_count : ℕ) (w : W) (res : Option E) (w' : W)
      → do_round tr env prev r t retry_count w ≡ stops res w'
      → ((env.op retry_count w).0 ≡ res) ⊎ ((prev ≡ res) × (res ≢ none))
  unfolding do_round
  stopped none r t retry_count w res w' h = ground arith
  stopped (some err) r t retry_count w res w' h = ground arith

  pub do_loop-zero :
      (prev : Option E) (r t : Retrier W) (retry_count : ℕ) (w : W)
      → (do_loop tr env zero prev r t retry_count w).0 ≡ out_of_fuel
  unfolding do_loop
  do_loop-zero prev r t retry_count w = refl

  pub do_loop-stops :
      (fuel : ℕ) (prev : Option E) (r t : Retrier W) (retry_count : ℕ) (w : W) (res : Option E)
      (w' : W)
      → do_round tr env prev r t retry_count w ≡ stops res w'
      → do_loop tr env (suc fuel) prev r t retry_count w ≡ (returned res, w')
  unfolding do_loop
  do_loop-stops fuel prev r t retry_count w res w' h = rw (h, do_loop)

  pub do_loop-goes_on :
      (fuel : ℕ) (prev : Option E) (r t : Retrier W) (retry_count : ℕ) (w : W) (err : E)
      (r' t' : Retrier W) (w' : W)
      → do_round tr env prev r t retry_count w ≡ goes_on err r' t' w'
      → do_loop tr env (suc fuel) prev r t retry_count w
        ≡ do_loop tr env fuel (some err) r' t' (retry_count + 1) w'
  unfolding do_loop
  do_loop-goes_on fuel prev r t retry_count w err r' t' w' h = rw (h, do_loop)

  -- The operation and the policies do not turn the clock back, and every wait takes time.
  pub record Advances : Type 0 where
    pub op_forward : (k : ℕ) (w : W) → env.now w ≤ env.now (env.op k w).1
    pub policy_forward :
        (elapsed attempts : ℤ) (w : W) → env.now w ≤ env.now (tr.policy elapsed attempts w).1
    pub throttle_forward :
        (elapsed attempts : ℤ) (w : W)
        → env.now w ≤ env.now (tr.throttle_policy elapsed attempts w).1
    pub wait_forward : (d : ℤ) (w : W) → env.now w < env.now (env.wait d w).1
