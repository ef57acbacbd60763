-- ===== src/Databases/Mysql/Atomic.antt =====
-- What the operations of the MySQL store (server/databases/mysql/mysql_timer_store_impl.go) make of the
-- table.
pub mod Timers
pub mod Ranges
pub mod Updates
