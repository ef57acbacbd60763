-- ===== src/Backoff/Policy.antt =====
-- server/engine/backoff/retrypolicy.go: the exponential policy and the policy of several phases.
-- A duration is an integer of nanoseconds. float64 and its operations are a parameter, and so is
-- `rand.Intn`, which reads a world W that it may change.
pub mod Bounds
use durable_timer.Base.{
  ℕ, ◌*◌, ◌-◌, ◌+◌, ◌%◌, ◌^◌, Bool, true, false, not, ◌&&◌, Option, none, some, List, [], ◌∷◌, ℤ,
  pos, negsuc, pos_part, neg_part, ◌+ℤ◌, ◌-ℤ◌, ltb_ℤ, leb_ℤ, eqb_ℤ, ltb, ◌==◌, if◌then◌else◌,
}

-- Go's float64 with the operations that the policy uses. `to_int` is the conversion to an integer.
pub record Float : Type 1 where
  pub F : Type 0
  pub of_int : ℤ → F
  pub to_int : F → ℤ
  pub add : F → F → F
  pub mul : F → F → F
  pub pow : F → F → F
  pub min : F → F → F
  pub max : F → F → F
  pub is_le_zero : F → Bool
  pub two : F
  pub one_fifth : F
  pub four_fifths : F

-- An int64 result: wrapped into -2^63 .. 2^63 - 1.
pub wrap_int64 : ℤ → ℤ
wrap_int64 z =
    let n = (pos_part z + (2 ^ 64 - neg_part z % 2 ^ 64)) % 2 ^ 64 in
    if ltb n (2 ^ 63) then pos n else negsuc (2 ^ 64 - n - 1)

abbrev pub no_interval : ℤ
no_interval = pos 0

abbrev pub done : ℤ
done = negsuc 0

abbrev pub no_maximum_attempts : ℕ
no_maximum_attempts = 0

abbrev pub default_maximum_interval : ℤ
default_maximum_interval = pos (10 * 1_000_000_000)

abbrev pub default_expiration_interval : ℤ
default_expiration_interval = pos (60 * 1_000_000_000)

-- The interface `RetryPolicy`: the elapsed time and the number of attempts give the next delay.
abbrev pub RetryPolicy : Type 0 → Type 0
RetryPolicy W = ℤ → ℤ → W → ℤ × W

module _ (fl : Float) where
  open fl use {F}

  -- `maximumAttempts` is an int that the code sets to 0 or more.
  pub record ExponentialRetryPolicy : Type 0 where
    pub initial_interval : ℤ
    pub backoff_coefficient : F
    pub maximum_interval : ℤ
    pub expiration_interval : ℤ
    pub maximum_attempts : ℕ

  abbrev pub new_exponential_retry_policy : ℤ → ExponentialRetryPolicy
  new_exponential_retry_policy initial_interval = record {
    initial_interval = initial_interval;
    backoff_coefficient = fl.two;
    maximum_interval = default_maximum_interval;
    expiration_interval = default_expiration_interval;
    maximum_attempts = no_maximum_attempts;
  }

  abbrev pub set_initial_interval : ExponentialRetryPolicy → ℤ → ExponentialRetryPolicy
  set_initial_interval p d = record p { initial_interval = d }

  abbrev pub set_backoff_coefficient : ExponentialRetryPolicy → F → ExponentialRetryPolicy
  set_backoff_coefficient p c = record p { backoff_coefficient = c }

  abbrev pub set_maximum_interval : ExponentialRetryPolicy → ℤ → ExponentialRetryPolicy
  set_maximum_interval p d = record p { maximum_interval = d }

  abbrev pub set_expiration_interval : ExponentialRetryPolicy → ℤ → ExponentialRetryPolicy
  set_expiration_interval p d = record p { expiration_interval = d }

  abbrev pub set_maximum_attempts : ExponentialRetryPolicy → ℕ → ExponentialRetryPolicy
  set_maximum_attempts p n = record p { maximum_attempts = n }

  -- The next interval before the jitter: the exponential, cut by the maximum interval and by the
  -- time that remains.
  pub capped_interval : ExponentialRetryPolicy → ℤ → F → F
  unfolding wrap_int64
  capped_interval p elapsed next =
      let below_max =
        if eqb_ℤ p.maximum_interval no_interval
        then next
        else fl.min next (fl.of_int p.maximum_interval) in
      if eqb_ℤ p.expiration_interval no_interval
      then below_max
      else fl.min
          (fl.max (fl.of_int (pos 0)) (fl.of_int (wrap_int64 (p.expiration_interval -ℤ elapsed))))
          below_max

  module _ {W : Type 0} (rand_intn : ℤ → W → ℕ × W) where
    -- `0.2 * nextInterval` as an int, but at least 1, is the range of the jitter.
    pub add_jitter : F → W → ℤ × W
    add_jitter next w =
        let portion = fl.to_int (fl.mul fl.one_fifth next) in
        let (r, w') = rand_intn (if ltb_ℤ portion (pos 1) then pos 1 else portion) w in
        (fl.to_int (fl.add (fl.mul next fl.four_fifths) (fl.of_int (pos r))), w')

    -- `ExponentialRetryPolicy.ComputeNextDelay`
    unfoldable pub compute_next_delay : ExponentialRetryPolicy → RetryPolicy W
    unfolding capped_interval add_jitter
    compute_next_delay p elapsed num_attempts w =
        if not (p.maximum_attempts == no_maximum_attempts)
          && leb_ℤ (pos p.maximum_attempts) num_attempts
        then (done, w)
        else if not (eqb_ℤ p.expiration_interval no_interval) && ltb_ℤ p.expiration_interval elapsed
        then (done, w)
        else let next =
            fl.mul (fl.of_int p.initial_interval)
              (fl.pow p.backoff_coefficient (fl.of_int num_attempts)) in
          if fl.is_le_zero next
          then (done, w)
          else let capped = capped_interval p elapsed next in
            if ltb_ℤ (fl.to_int capped) p.initial_interval then (done, w) else add_jitter capped w

    -- The loop of `MultiPhasesRetryPolicy.ComputeNextDelay`, from a count of earlier attempts.
    compute_phases : ℕ → List ExponentialRetryPolicy → RetryPolicy W
    compute_phases previous [] elapsed num_attempts w = (done, w)
    compute_phases previous (p ∷ policies) elapsed num_attempts w =
        let (next, w') = compute_next_delay p elapsed (num_attempts -ℤ pos previous) w in
        let later =
          compute_phases (previous + p.maximum_attempts) policies elapsed num_attempts w' in
        if eqb_ℤ next done then later else (next, w')

    unfoldable pub compute_next_delay_multi : List ExponentialRetryPolicy → RetryPolicy W
    unfolding compute_phases
    compute_next_delay_multi policies = compute_phases 0 policies

  -- `NewMultiPhasesRetryPolicy`; `none` is the panic over a phase with no maximum of attempts that
  -- is not the last.
  unfoldable pub new_multi_phases_retry_policy :
      List ExponentialRetryPolicy → Option (List ExponentialRetryPolicy)
  new_multi_phases_retry_policy [] = some []
  new_multi_phases_retry_policy (p ∷ []) = some (p ∷ [])
  new_multi_phases_retry_policy (p ∷ q ∷ policies) =
      let rest = new_multi_phases_retry_policy (q ∷ policies) in
      if p.maximum_attempts == no_maximum_attempts
      then none
      else elim rest [ none ↦ none | some later ↦ some (p ∷ later) ]
