-- ===== src/Backoff/Policy/Bounds.antt =====
-- When the retry policies (server/engine/backoff/retrypolicy.go) give no further delay.
use durable_timer.Base.{
  ℕ, ◌+◌, ◌-◌, ◌≤◌, ◌<◌, ◌≡◌, refl, ap, List, [], ◌∷◌, ℤ, pos, ◌-ℤ◌, ◌<ℤ◌, arith, All,
}
use durable_timer.Backoff.Policy.{
  Float, ExponentialRetryPolicy, done, compute_next_delay, compute_phases, compute_next_delay_multi,
  add_jitter, capped_interval,
}

module _ (fl : Float) {W : Type 0} (rand_intn : ℤ → W → ℕ × W) where
  exhausted :
      (p : ExponentialRetryPolicy fl) (elapsed attempts : ℤ) (w : W)
      → 0 < p.maximum_attempts
      → (m : ℕ) → attempts ≡ pos m
      → p.maximum_attempts ≤ m
      → compute_next_delay fl rand_intn p elapsed attempts w ≡ (done, w)
  unfolding compute_next_delay
  exhausted p elapsed attempts w some_max m e h = ground arith

  -- An exponential policy with an expiration interval gives no delay once more than it has elapsed,
  -- at any number of attempts.
  pub expired :
      (p : ExponentialRetryPolicy fl) (limit : ℕ) (elapsed attempts : ℤ) (w : W)
      → 0 < limit
      → p.expiration_interval ≡ pos limit
      → pos limit <ℤ elapsed
      → (compute_next_delay fl rand_intn p elapsed attempts w).0 ≡ done
  unfolding compute_next_delay
  expired p limit elapsed attempts w some_limit e late = ground arith

  abbrev total_attempts : List (ExponentialRetryPolicy fl) → ℕ
  total_attempts [] = 0
  total_attempts (p ∷ policies) = p.maximum_attempts + total_attempts policies

  phases_exhausted :
      (previous : ℕ) (policies : List (ExponentialRetryPolicy fl)) (elapsed : ℤ) (n : ℕ) (w : W)
      → All (λ p. 0 < p.maximum_attempts) policies
      → previous + total_attempts policies ≤ n
      → compute_phases fl rand_intn previous policies elapsed (pos n) w ≡ (done, w)
  unfolding compute_phases
  phases_exhausted previous [] elapsed n w all h = refl
  phases_exhausted previous (p ∷ policies) elapsed n w all h = ground (
    arith,
    all.0,
    exhausted p elapsed (pos n -ℤ pos previous) w all.0 (n - previous),
    phases_exhausted (previous + p.maximum_attempts) policies elapsed n w all.1,
  )

  -- A policy of phases that all have a maximum of attempts gives no delay once the attempts made are
  -- as many as the phases allow together, whatever time has elapsed.
  pub multi_phases_exhausted :
      (policies : List (ExponentialRetryPolicy fl)) (elapsed : ℤ) (n : ℕ) (w : W)
      → All (λ p. 0 < p.maximum_attempts) policies
      → total_attempts policies ≤ n
      → (compute_next_delay_multi fl rand_intn policies elapsed (pos n) w).0 ≡ done
  unfolding compute_next_delay_multi
  multi_phases_exhausted policies elapsed n w all h =
      ap (λ r. r.0) (phases_exhausted 0 policies elapsed n w all (omega arith))

  -- A policy changes the world by `rand.Intn` only, so it does not turn a clock back that `rand.Intn`
  -- does not turn back.
  module _ (now : W → ℕ) (rand_forward : (n : ℤ) (w : W) → now w ≤ now (rand_intn n w).1) where
    add_jitter_forward : (next : fl.F) (w : W) → now w ≤ now (add_jitter fl rand_intn next w).1
    unfolding add_jitter
    add_jitter_forward next w = rand_forward _ w

    pub compute_next_delay_forward :
        (p : ExponentialRetryPolicy fl) (elapsed attempts : ℤ) (w : W)
        → now w ≤ now (compute_next_delay fl rand_intn p elapsed attempts w).1
    unfolding compute_next_delay
    compute_next_delay_forward p elapsed attempts w =
        let next =
          fl.mul (fl.of_int p.initial_interval)
            (fl.pow p.backoff_coefficient (fl.of_int attempts)) in
        ground (arith, add_jitter_forward (capped_interval fl p elapsed next) w)
