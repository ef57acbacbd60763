-- ===== src/Databases.antt =====
-- server/databases: the models that the stores share, the timer identifiers and the stores.
pub mod Models
pub mod TimerUuid
pub mod TimerStore
pub mod Results
pub mod Codec
pub mod Rows
pub mod Table
pub mod Race
pub mod Sql
pub mod Mysql
pub mod Postgresql
pub mod Cassandra
pub mod Mongodb
pub mod Dynamodb
