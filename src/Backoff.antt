-- ===== src/Backoff.antt =====
-- server/engine/backoff: retry policies, the retrier and the retry loop.
pub mod Policy
pub mod Retrier
pub mod Retry
