-- ===== src/Mempool.antt =====
-- internal/mempool: pending transactions, from the first sight of a hash to its fate.
pub mod Key
pub mod Tracker
pub mod Handlers
pub mod Fetcher
pub mod Subscriber
pub mod Threads
pub mod Service
