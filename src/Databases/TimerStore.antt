-- ===== src/Databases/TimerStore.antt =====
-- server/databases/db_unified_interfaces.go: the operations of a store that the engine calls.
-- A store is a state type with an operation for each call. A call that returns a value and a
-- `*DbError` returns one of the two; a call that returns an error alone returns an `Option`.
use durable_timer.Base.{ℕ, String, Option}
use durable_timer.Databases.Models.{
  DbError, DbTimer, ShardInfo, ShardMetadata, RangeGetTimersRequest, RangeGetTimersResponse,
  RangeDeleteTimersRequest, RangeDeleteTimersResponse, UpdateDbTimerRequest,
}
use durable_timer.Databases.Results.{Result}

pub record TimerStore (Json : Type 0) : Type 1 where
  pub State : Type 0
  pub claim_shard_ownership : ℕ → String → State → Result (Option ShardInfo × ShardInfo) × State
  pub update_shard_metadata : ℕ → ℕ → ShardMetadata → State → Option DbError × State
  pub create_timer : ℕ → ℕ → String → DbTimer Json → State → Option DbError × State
  pub create_timer_no_lock : ℕ → String → DbTimer Json → State → Option DbError × State
  pub range_get_timers :
      ℕ → RangeGetTimersRequest → State → Result (RangeGetTimersResponse Json) × State
  pub range_delete_with_limit :
      ℕ → RangeDeleteTimersRequest → ℕ → State → Result RangeDeleteTimersResponse × State
  pub update_timer : ℕ → ℕ → String → UpdateDbTimerRequest Json → State → Option DbError × State
  pub get_timer : ℕ → String → String → State → Result (DbTimer Json) × State
  pub delete_timer : ℕ → ℕ → String → String → State → Option DbError × State
