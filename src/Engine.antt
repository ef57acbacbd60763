-- ===== src/Engine.antt =====
-- server/engine: the timer gate, shard ownership, the offset channels, the batch reader and the
-- batch deleter.
pub mod TimerGate
pub mod ShardOwnership
pub mod OffsetChannels
pub mod Offset
pub mod BatchReader
pub mod BatchDeleter
