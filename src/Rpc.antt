-- ===== src/Rpc.antt =====
-- internal/rpc: the JSON-RPC client.
pub mod Interface
pub mod Client
