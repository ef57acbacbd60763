-- ===== src/Tests/Retries.antt =====
-- Examples for the retry policies and the retry loop.
use durable_timer.Base.{
  ℕ, suc, ◌+◌, ◌*◌, ◌≡◌, refl, true, false, none, some, pos, pos_part, arith, ltb, if◌then◌else◌,
}
use durable_timer.Backoff.Policy.{
  ExponentialRetryPolicy, done, compute_next_delay, new_exponential_retry_policy,
  set_maximum_attempts,
}
use durable_timer.Backoff.Policy.Bounds.{expired}
use durable_timer.Backoff.Retry.{ThrottleRetry, Environment, returned, do_round, do_loop, do_retry}
use durable_timer.Backoff.Retrier.{next_back_off}
use durable_timer.Backoff.Retry.Attempts.{
  IsReturned, IsBoundedBy, ComesFromRun, do_retry-returns, do_retry-result,
}
use durable_timer.Backoff.Retry.Rounds.{Advances}
use durable_timer.Backoff.Retry.Expiry.{do_retry_expires, IsExpiring}
use durable_timer.Tests.Fixtures.{tenths, rand_zero}

abbrev policy : ExponentialRetryPolicy tenths
policy = new_exponential_retry_policy tenths (pos 1000)

abbrev three_attempts : ExponentialRetryPolicy tenths
three_attempts = set_maximum_attempts tenths policy 3

expired_example :
    (compute_next_delay tenths rand_zero policy (pos (60 * 1_000_000_001)) (pos 4) 0).0 ≡ done
expired_example =
    expired tenths rand_zero policy (60 * 1_000_000_000) (pos (60 * 1_000_000_001)) (pos 4) 0
      (omega arith) refl (omega arith)

-- An operation that fails twice, under a policy of n attempts with a delay of 5.
abbrev few_attempts : ℕ → ThrottleRetry ℕ ℕ
few_attempts n = record {
  policy = λ elapsed attempts w. (if ltb (pos_part attempts) n then pos 5 else done, w);
  is_retryable = λ e. true;
  throttle_policy = λ elapsed attempts w. (pos 7, w);
  is_throttle = λ e. false;
}

abbrev fails_twice : Environment ℕ ℕ
fails_twice = record {
  op = λ k w. (if ltb k 2 then some 404 else none, suc w);
  now = λ w. w;
  wait = λ d w. (false, w + 5);
}

few_attempts-IsBoundedBy : (n : ℕ) → IsBoundedBy n (few_attempts n)
few_attempts-IsBoundedBy n elapsed k w h = ground (arith, h)

do_retry-returns_example : IsReturned (do_retry (few_attempts 3) fails_twice 4 0)
do_retry-returns_example =
    do_retry-returns (few_attempts 3) fails_twice 3 (few_attempts-IsBoundedBy 3) 0

fails_twice-run : (do_retry (few_attempts 3) fails_twice 4 0).0 ≡ returned none
unfolding do_retry do_loop do_round next_back_off
fails_twice-run = refl

do_retry-result_example : ComesFromRun (few_attempts 3) fails_twice none
do_retry-result_example = do_retry-result (few_attempts 3) fails_twice 4 0 none fails_twice-run

-- A policy that gives a delay of 5 until 20 have elapsed.
abbrev until_20 : ThrottleRetry ℕ ℕ
until_20 = record (few_attempts 3) {
  policy = λ elapsed attempts w. (if ltb 20 (pos_part elapsed) then done else pos 5, w);
}

until_20-Advances : Advances until_20 fails_twice
until_20-Advances = record {
  op_forward = λ k w. omega arith;
  policy_forward = λ elapsed attempts w. omega arith;
  throttle_forward = λ elapsed attempts w. omega arith;
  wait_forward = λ d w. omega arith;
}

until_20-IsExpiring : IsExpiring 20 until_20.policy
until_20-IsExpiring elapsed attempts w h = ground (arith, h)

do_retry_expires_example : IsReturned (do_retry until_20 fails_twice 22 0)
do_retry_expires_example =
    do_retry_expires until_20 fails_twice 20 (omega arith) until_20-Advances until_20-IsExpiring 0
