-- ===== src/Metrics.antt =====
-- internal/metrics/metrics.go: the counters. Each is a `uint64` behind an atomic operation.
mod Tests
use blockchain_data_feeds_po.Prelude.{ℕ, add64}

pub record Metrics : Type 0 where
  pub processed_blocks : ℕ
  pub processed_logs : ℕ
  pub rpc_errors : ℕ
  pub lag_blocks : ℕ

unfoldable pub add_blocks : ℕ → Metrics → Metrics
add_blocks n m = record m { processed_blocks = add64 m.processed_blocks n }

unfoldable pub add_logs : ℕ → Metrics → Metrics
add_logs n m = record m { processed_logs = add64 m.processed_logs n }

unfoldable pub add_rpc_errors : ℕ → Metrics → Metrics
add_rpc_errors n m = record m { rpc_errors = add64 m.rpc_errors n }

unfoldable pub set_lag : ℕ → Metrics → Metrics
set_lag n m = record m { lag_blocks = n }

unfoldable pub snapshot : Metrics → ℕ × ℕ × ℕ × ℕ
snapshot m = (m.processed_blocks, m.processed_logs, m.rpc_errors, m.lag_blocks)
