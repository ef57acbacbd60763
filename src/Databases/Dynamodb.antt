-- ===== src/Databases/Dynamodb.antt =====
-- server/databases/dynamodb/dynamodb_timer_store_impl.go: the timer store over DynamoDB.
pub mod Client
pub mod Shard
pub mod Create
pub mod Change
pub mod Read
pub mod RoundTrip
pub mod Range
pub mod Outcomes
pub mod Batch
