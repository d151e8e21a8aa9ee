-- ===== src/Metrics/Tests.antt =====
-- Runs of the counters.
use blockchain_data_feeds_po.Prelude.{◌≡◌, refl}
use blockchain_data_feeds_po.Metrics.{add_blocks, add_logs, add_rpc_errors, set_lag, snapshot}

counted :
    snapshot (
      set_lag 7 (
        add_logs 3 (
          add_blocks 5 (
            add_rpc_errors 1 (record {
              processed_blocks = 2;
              processed_logs = 0;
              rpc_errors = 0;
              lag_blocks = 9;
            })))))
    ≡ (7, 3, 1, 7)
unfolding add_blocks add_logs add_rpc_errors set_lag snapshot
counted = refl
