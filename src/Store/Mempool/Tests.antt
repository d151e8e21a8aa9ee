-- ===== src/Store/Mempool/Tests.antt =====
-- The mempool statements on an empty table.
use blockchain_data_feeds_po.Prelude.{none, lit, [], ◌≡◌, text_eq, refl, ◌∷◌}
use blockchain_data_feeds_po.Prelude.Exec.{ok}
use blockchain_data_feeds_po.Store.Types.{MempoolTx, MinedInfo}
use blockchain_data_feeds_po.Store.Db.{Database, SqliteStore, query, exec}
use blockchain_data_feeds_po.Store.Mempool.{
  list_mempool, scan_mempool, latest_first, upsert_row, mempool_row, upsert_mempool_tx,
  mark_mempool_mined, mark_mempool_replaced, mark_mempool_dropped,
}
use blockchain_data_feeds_po.Store.Mempool.Status.{
  Marks, in_block, replaced_with, given_up, mark_mempool-Marks,
}

abbrev steady : Database
steady = record { fails = λ n. none; now = λ n. n }

abbrev empty : SqliteStore
empty = record { db = record { logs = []; checkpoints = []; next_id = 1; mempool = [] }; calls = 0 }

abbrev payment : MempoolTx
payment = record {
  chain_id = 1;
  hash = lit "0xt";
  from_addr = lit "0xf";
  to_addr = [];
  nonce = 3;
  value = lit "1";
  gas = 21000;
  gas_price = [];
  max_fee_per_gas = [];
  max_priority_fee_per_gas = [];
  tx_type = 2;
  input = [];
  status = lit "pending";
  first_seen_at = 0;
  last_seen_at = 0;
  mined_block_number = 0;
  mined_block_hash = [];
  mined_tx_index = 0;
  replaced_by_tx_hash = [];
  inserted_at = 0;
  decoded_input_json = [];
}

abbrev one_row : SqliteStore
one_row = (upsert_mempool_tx steady payment empty).1

abbrev block_seven : MinedInfo
block_seven = record { block_number = 7; block_hash = lit "0xb"; tx_index = 0 }

mark_mempool-Marks_example :
    Marks steady one_row
      (lit "0xt")
      (lit "0xt")
      (in_block block_seven)
      (mark_mempool_mined steady (lit "0xt") block_seven one_row)
    × Marks steady one_row
        (lit "0xt")
        (lit "0xt")
        (replaced_with (lit "0xu"))
        (mark_mempool_replaced steady (lit "0xt") (lit "0xu") one_row)
    × Marks steady one_row
        (lit "0xt")
        (lit "0xt")
        given_up
        (mark_mempool_dropped steady (lit "0xt") one_row)
mark_mempool-Marks_example =
    mark_mempool-Marks steady one_row (lit "0xt") (lit "0xt") (lit "0xu") block_seven

listed : (list_mempool steady (lit "pending") 5 one_row).0 ≡ ok (payment ∷ [])
unfolding list_mempool scan_mempool latest_first upsert_mempool_tx upsert_row mempool_row query exec
    text_eq
listed = refl
