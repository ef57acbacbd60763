-- ===== src/Databases/Mongodb.antt =====
-- server/databases/mongodb/mongodb_timer_store_impl.go: the timer store over MongoDB.
pub mod Driver
pub mod Session
pub mod Shard
pub mod Write
pub mod Range
pub mod Read
pub mod Laws
pub mod Fence
pub mod Documents
