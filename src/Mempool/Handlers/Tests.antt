-- ===== src/Mempool/Handlers/Tests.antt =====
-- The tracker on a transaction that was dropped, over an empty table.
use blockchain_data_feeds_po.Prelude.{refl, Text, lit, [], ◌∷◌, arith}
use blockchain_data_feeds_po.Store.Types.{MempoolTx}
use blockchain_data_feeds_po.Store.Mempool.{dropped}
use blockchain_data_feeds_po.Extract.Example.{empty_store}
use blockchain_data_feeds_po.Mempool.Tracker.{TrackedTx, Tracker}
use blockchain_data_feeds_po.Mempool.Tracker.Queue.{IsSound, Distinct}
use blockchain_data_feeds_po.Mempool.Handlers.{Feed}

abbrev payment : MempoolTx
payment = record {
  chain_id = 1;
  hash = lit "0xt";
  from_addr = lit "0xf";
  to_addr = [];
  nonce = 3;
  value = lit "1";
  gas = 21000;
  gas_price = [];
  max_fee_per_gas = [];
  max_priority_fee_per_gas = [];
  tx_type = 2;
  input = [];
  status = lit "pending";
  first_seen_at = 0;
  last_seen_at = 0;
  mined_block_number = 0;
  mined_block_hash = [];
  mined_tx_index = 0;
  replaced_by_tx_hash = [];
  inserted_at = 0;
  decoded_input_json = [];
}

abbrev entry : Text → TrackedTx
entry status = record {
  hash = lit "0xt";
  from_addr = lit "0xf";
  nonce = 3;
  first_seen = 1;
  last_seen = 1;
  status = status;
}

abbrev given_up : Tracker
given_up = record {
  dropped_ttl = 10;
  receipt_workers = 4;
  max_inflight = 2;
  txs = (lit "0xt", entry dropped) ∷ [];
  from_nonce = [];
  inflight = lit "0xs" ∷ [];
  receipt_c = lit "0xs" ∷ [];
}

abbrev feed : Feed (Unit {0})
feed = record { conn = tt; store = empty_store; tracker = given_up }

given_up-IsSound : IsSound given_up
unfolding IsSound Distinct
given_up-IsSound = ((refl, tt), omega arith, omega arith)
