-- ===== src/Config/Example.antt =====
-- A small configuration, for the runs of internal/config/config.go.
use blockchain_data_feeds_po.Prelude.{false, true, lit, [], ◌∷◌}
use blockchain_data_feeds_po.Config.{Config}

abbrev pub given : Config
given = record {
  network = [];
  networks = [];
  chain = record { rpc_url = lit "https://node"; chain_id = 1 };
  indexer = record {
    start_block = 1;
    confirmations = 2;
    chunk_size = 5;
    min_chunk_size = 0;
    max_chunk_size = 0;
    concurrency = 0;
    poll_interval_seconds = 0;
    metrics_interval_seconds = 0;
  };
  database = record { driver = []; dsn = lit "file.db" };
  mempool = record {
    ws_url = [];
    http_url = [];
    pending_workers = 0;
    receipt_workers = 0;
    dropped_ttl = 0;
    decode_input = false;
    track_lifecycle = true;
    max_inflight_hashes = 0;
  };
  ui = record { listen_addr = []; default_feed = []; poll_interval_seconds = 0; default_from = [] };
  contracts =
      record { name = lit "T"; address = lit "0xa"; abi_path = lit "t.json"; events = lit "E" ∷ [] }
      ∷ [];
}
