-- ===== src/Store/Schema/Queries.antt =====
-- The statements of `Migrate` in internal/store/sqlite.go and internal/store/postgres.go.
use blockchain_data_feeds_po.Prelude.{lit, none, some, List, [], ◌∷◌}
use blockchain_data_feeds_po.Store.Schema.{
  integer, text, datetime, bigint, bigserial, timestamptz, required, optional, keyed, counted,
  Statement, create_table, create_index,
}

abbrev pub sqlite_queries : List Statement
sqlite_queries =
    create_table (record {
      name = lit "logs";
      columns =
          required (lit "chain_id") integer
          ∷ required (lit "contract_address") text
          ∷ required (lit "event_name") text
          ∷ required (lit "block_number") integer
          ∷ required (lit "block_hash") text
          ∷ required (lit "tx_hash") text
          ∷ required (lit "log_index") integer
          ∷ required (lit "timestamp") integer
          ∷ required (lit "args_json") text
          ∷ required (lit "topics_json") text
          ∷ required (lit "data_hex") text
          ∷ required (lit "inserted_at") integer
          ∷ [];
      key = lit "chain_id" ∷ lit "tx_hash" ∷ lit "log_index" ∷ [];
      check = none;
    })
    ∷ create_index (lit "idx_logs_block_number") (lit "logs") (lit "block_number" ∷ [])
    ∷ create_table (record {
      name = lit "checkpoints";
      columns =
          counted (lit "id") integer
          ∷ required (lit "start_block") integer
          ∷ required (lit "end_block") integer
          ∷ required (lit "block_hash") text
          ∷ required (lit "inserted_at") integer
          ∷ [];
      key = [];
      check = none;
    })
    ∷ create_index (lit "idx_checkpoints_end_block") (lit "checkpoints") (lit "end_block" ∷ [])
    ∷ create_table (record {
      name = lit "mempool_txs";
      columns =
          required (lit "chain_id") integer
          ∷ keyed (lit "tx_hash") text
          ∷ required (lit "from_addr") text
          ∷ required (lit "to_addr") text
          ∷ required (lit "nonce") integer
          ∷ required (lit "value") text
          ∷ required (lit "gas") integer
          ∷ optional (lit "gas_price") text
          ∷ optional (lit "max_fee_per_gas") text
          ∷ optional (lit "max_priority_fee_per_gas") text
          ∷ optional (lit "tx_type") integer
          ∷ required (lit "input") text
          ∷ required (lit "status") text
          ∷ required (lit "first_seen_at") datetime
          ∷ required (lit "last_seen_at") datetime
          ∷ optional (lit "mined_block_number") integer
          ∷ optional (lit "mined_block_hash") text
          ∷ optional (lit "mined_tx_index") integer
          ∷ optional (lit "replaced_by_tx_hash") text
          ∷ optional (lit "decoded_input_json") text
          ∷ required (lit "inserted_at") datetime
          ∷ [];
      key = [];
      check =
          some (lit "status", lit "pending" ∷ lit "mined" ∷ lit "replaced" ∷ lit "dropped" ∷ []);
    })
    ∷ create_index (lit "idx_mempool_from_nonce") (lit "mempool_txs")
        (lit "from_addr" ∷ lit "nonce" ∷ [])
    ∷ create_index (lit "idx_mempool_status") (lit "mempool_txs") (lit "status" ∷ [])
    ∷ create_index (lit "idx_mempool_first_seen") (lit "mempool_txs") (lit "first_seen_at" ∷ [])
    ∷ []

abbrev pub postgres_queries : List Statement
postgres_queries =
    create_table (record {
      name = lit "logs";
      columns =
          required (lit "chain_id") bigint
          ∷ required (lit "contract_address") text
          ∷ required (lit "event_name") text
          ∷ required (lit "block_number") bigint
          ∷ required (lit "block_hash") text
          ∷ required (lit "tx_hash") text
          ∷ required (lit "log_index") bigint
          ∷ required (lit "timestamp") bigint
          ∷ required (lit "args_json") text
          ∷ required (lit "topics_json") text
          ∷ required (lit "data_hex") text
          ∷ required (lit "inserted_at") bigint
          ∷ [];
      key = lit "chain_id" ∷ lit "tx_hash" ∷ lit "log_index" ∷ [];
      check = none;
    })
    ∷ create_index (lit "idx_logs_block_number") (lit "logs") (lit "block_number" ∷ [])
    ∷ create_table (record {
      name = lit "checkpoints";
      columns =
          counted (lit "id") bigserial
          ∷ required (lit "start_block") bigint
          ∷ required (lit "end_block") bigint
          ∷ required (lit "block_hash") text
          ∷ required (lit "inserted_at") bigint
          ∷ [];
      key = [];
      check = none;
    })
    ∷ create_index (lit "idx_checkpoints_end_block") (lit "checkpoints") (lit "end_block" ∷ [])
    ∷ create_table (record {
      name = lit "mempool_txs";
      columns =
          required (lit "chain_id") bigint
          ∷ keyed (lit "tx_hash") text
          ∷ required (lit "from_addr") text
          ∷ required (lit "to_addr") text
          ∷ required (lit "nonce") bigint
          ∷ required (lit "value") text
          ∷ required (lit "gas") bigint
          ∷ optional (lit "gas_price") text
          ∷ optional (lit "max_fee_per_gas") text
          ∷ optional (lit "max_priority_fee_per_gas") text
          ∷ optional (lit "tx_type") bigint
          ∷ required (lit "input") text
          ∷ required (lit "status") text
          ∷ required (lit "first_seen_at") timestamptz
          ∷ required (lit "last_seen_at") timestamptz
          ∷ optional (lit "mined_block_number") bigint
          ∷ optional (lit "mined_block_hash") text
          ∷ optional (lit "mined_tx_index") bigint
          ∷ optional (lit "replaced_by_tx_hash") text
          ∷ optional (lit "decoded_input_json") text
          ∷ required (lit "inserted_at") timestamptz
          ∷ [];
      key = [];
      check =
          some (lit "status", lit "pending" ∷ lit "mined" ∷ lit "replaced" ∷ lit "dropped" ∷ []);
    })
    ∷ create_index (lit "idx_mempool_from_nonce") (lit "mempool_txs")
        (lit "from_addr" ∷ lit "nonce" ∷ [])
    ∷ create_index (lit "idx_mempool_status") (lit "mempool_txs") (lit "status" ∷ [])
    ∷ create_index (lit "idx_mempool_first_seen") (lit "mempool_txs") (lit "first_seen_at" ∷ [])
    ∷ []
