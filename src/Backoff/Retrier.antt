-- ===== src/Backoff/Retrier.antt =====
-- `retrierImpl` (server/engine/backoff/retrypolicy.go) and `ConcurrentRetrier` (retry.go), over a
-- world W with a clock.
use durable_timer.Base.{
  ℕ, ◌+◌, ◌-◌, ◌^◌, ◌%◌, ◌&&◌, ℤ, pos, negsuc, sub_ℕ, ltb, leb, eqb_ℤ, if◌then◌else◌,
}
use durable_timer.Databases.Models.{Time}
use durable_timer.Backoff.Policy.{RetryPolicy, done}

-- `t.Sub(u)`, which stops at the ends of the int64 range.
unfoldable pub time_sub : Time → Time → ℤ
time_sub t u =
    if leb u t
    then (if ltb (t - u) (2 ^ 63) then pos (t - u) else pos (2 ^ 63 - 1))
    else if leb (u - t) (2 ^ 63)
    then sub_ℕ t u
    else negsuc (2 ^ 63 - 1)

pub record Retrier (W : Type 0) : Type 0 where
  pub policy : RetryPolicy W
  pub current_attempt : ℕ
  pub start_time : Time

module _ {W : Type 0} (now : W → Time) where
  abbrev pub new_retrier : RetryPolicy W → W → Retrier W
  new_retrier policy w = record { policy = policy; current_attempt = 0; start_time = now w }

  unfoldable pub get_elapsed_time : Retrier W → W → ℤ
  get_elapsed_time r w = time_sub (now w) r.start_time

  unfoldable pub next_back_off : Retrier W → W → ℤ × Retrier W × W
  next_back_off r w =
      let (next, w') = r.policy (get_elapsed_time r w) (pos r.current_attempt) w in
      (next, record r { current_attempt = r.current_attempt + 1 }, w')

  abbrev pub reset : Retrier W → W → Retrier W
  reset r w = record r { start_time = now w; current_attempt = 0 }

  -- The failure count is the bit pattern of an int64.
  pub record ConcurrentRetrier : Type 0 where
    pub retrier : Retrier W
    pub failure_count : ℕ

  unfoldable pub new_concurrent_retrier : RetryPolicy W → W → ConcurrentRetrier
  new_concurrent_retrier policy w = record { retrier = new_retrier policy w; failure_count = 0 }

  -- `throttleInternal`, with the lock held from the test of the count to the end: the delay, the
  -- retrier and the world after `sleep`.
  unfoldable pub throttle_internal : (ℤ → W → W) → ConcurrentRetrier → W → ℤ × ConcurrentRetrier × W
  unfolding next_back_off
  throttle_internal sleep c w =
      if ltb 0 c.failure_count && ltb c.failure_count (2 ^ 63)
      then (let (next, r, w') = next_back_off c.retrier w in
          (next, record c { retrier = r }, if eqb_ℤ next done then w' else sleep next w'))
      else (done, c, w)

  unfoldable pub succeeded : ConcurrentRetrier → W → ConcurrentRetrier
  succeeded c w = record { retrier = reset c.retrier w; failure_count = 0 }

  -- `failureCount` is an int64.
  unfoldable pub failed : ConcurrentRetrier → ConcurrentRetrier
  failed c = record c { failure_count = (c.failure_count + 1) % 2 ^ 64 }
