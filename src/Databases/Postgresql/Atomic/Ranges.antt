-- ===== src/Databases/Postgresql/Atomic/Ranges.antt =====
-- What `RangeDeleteWithBatchInsertTxn` of the PostgreSQL store
-- (server/databases/postgresql/postgresql_timer_store_impl.go) makes of the table.
use durable_timer.Databases.Codec.{Codec}
