-- ===== src/Store.antt =====
-- internal/store: the records, the database and its operations.
pub mod Types
pub mod Db
pub mod Logs
pub mod Checkpoints
pub mod Mempool
pub mod Schema
pub mod Postgres
