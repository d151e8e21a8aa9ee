-- ===== src/Store/Postgres/Tests.antt =====
-- The mempool table of internal/store/postgres.go, with times kept to the microsecond.
use blockchain_data_feeds_po.Prelude.{◌*◌, ◌/◌, ◌≡◌, refl, none, lit, [], ◌∷◌, arith, text_eq}
use blockchain_data_feeds_po.Prelude.Exec.{ok}
use blockchain_data_feeds_po.Store.Types.{Time, MempoolTx, MinedInfo, unix}
use blockchain_data_feeds_po.Store.Db.{Database, SqliteStore, exec, query}
use blockchain_data_feeds_po.Store.Mempool.{
  pending, upsert_mempool_tx, mark_mempool_mined, mark_mempool_replaced, mark_mempool_dropped,
  mempool_row, upsert_row, scan_mempool, latest_first,
}
use blockchain_data_feeds_po.Store.Postgres.{
  pg_upsert_mempool_tx, pg_mark_mempool_mined, pg_mark_mempool_replaced, pg_mark_mempool_dropped,
  pg_list_mempool, pg_scan_mempool, pg_mempool_row,
}
use blockchain_data_feeds_po.Store.Postgres.Refines.{Refined, seconds_store, pg_mempool-Refined}

abbrev micros : Time → Time
micros t = t / 1000 * 1000

micros_keep : (t : Time) → unix (micros t) ≡ unix t
micros_keep t = omega arith

abbrev steady : Database
steady = record { fails = λ n. none; now = λ n. 7000000123 }

abbrev nothing : SqliteStore
nothing = record {
  db = record { logs = []; checkpoints = []; next_id = 1; mempool = [] };
  calls = 0;
}

abbrev seen : MempoolTx
seen = record {
  chain_id = 1;
  hash = lit "0xt";
  from_addr = lit "0xf";
  to_addr = lit "0xe";
  nonce = 3;
  value = lit "0";
  gas = 21000;
  gas_price = [];
  max_fee_per_gas = [];
  max_priority_fee_per_gas = [];
  tx_type = 0;
  input = lit "0x";
  status = pending;
  first_seen_at = 5000001000;
  last_seen_at = 5000001000;
  mined_block_number = 0;
  mined_block_hash = [];
  mined_tx_index = 0;
  replaced_by_tx_hash = [];
  inserted_at = 5000001000;
  decoded_input_json = [];
}

-- Times come back to the microsecond.
listed :
    (pg_list_mempool steady micros
      (lit "all")
      0
      (pg_upsert_mempool_tx steady micros seen nothing).1).0
    ≡ ok (seen ∷ [])
unfolding pg_list_mempool pg_scan_mempool pg_upsert_mempool_tx pg_mempool_row mempool_row upsert_row
    scan_mempool latest_first exec query text_eq
listed = refl

abbrev info : MinedInfo
info = record { block_number = 9; block_hash = lit "0xb9"; tx_index = 1 }

abbrev stored : SqliteStore
stored = (pg_upsert_mempool_tx steady micros seen nothing).1

pg_mempool-Refined_example :
    Refined steady micros
      (pg_upsert_mempool_tx steady micros seen stored)
      (upsert_mempool_tx steady seen (seconds_store stored))
    × Refined steady micros
        (pg_mark_mempool_mined steady micros (lit "0xt") info stored)
        (mark_mempool_mined steady (lit "0xt") info (seconds_store stored))
    × Refined steady micros
        (pg_mark_mempool_replaced steady micros (lit "0xt") (lit "0xu") stored)
        (mark_mempool_replaced steady (lit "0xt") (lit "0xu") (seconds_store stored))
    × Refined steady micros
        (pg_mark_mempool_dropped steady micros (lit "0xt") stored)
        (mark_mempool_dropped steady (lit "0xt") (seconds_store stored))
pg_mempool-Refined_example =
    pg_mempool-Refined steady micros seen (lit "0xt") (lit "0xu") info stored micros_keep
