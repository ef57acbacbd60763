-- ===== src/Databases/Postgresql/Atomic.antt =====
-- What the operations of the PostgreSQL store
-- (server/databases/postgresql/postgresql_timer_store_impl.go) make of the table.
pub mod Timers
pub mod Moves
pub mod Updates
pub mod Ranges
