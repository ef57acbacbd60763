-- ===== src/Tests.antt =====
-- Runs of the model on concrete inputs: a database in memory, a clock of nanoseconds, and an example
-- for each theorem with conditions.
mod Fixtures
mod Data
mod Items
mod Keyspace
mod Cassandra
mod Dynamodb
mod Mongodb
mod Postgres
mod Values
mod Retries
mod Gates
mod Loops
mod Stores
mod View
mod Tables
