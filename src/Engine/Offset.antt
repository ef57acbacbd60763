-- ===== src/Engine/Offset.antt =====
-- server/engine/interfaces.go: `TimerOffset`, a position in a shard's order of timers, and that order.
use durable_timer.Databases.Models.{Time, Uuid}

pub record TimerOffset : Type 0 where
  pub timestamp : Time
  pub uuid : Uuid
