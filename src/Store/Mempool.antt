-- ===== src/Store/Mempool.antt =====
-- The mempool table of internal/store/sqlite.go: UpsertMempoolTx, the three marks, ListMempool.
pub mod Status
mod Tests
use blockchain_data_feeds_po.Prelude.{
  ℕ, ◌+◌, Bool, true, false, ◌||◌, Option, none, some, List, [], ◌∷◌, ◌++◌, Text, lit, text_eq,
  is_empty, ◌==◌, leb, if◌then◌else◌, any, map, take, keep,
}
use blockchain_data_feeds_po.Prelude.Exec.{Error, failed, raise, ◌>>=◌, ◌>>◌}
use blockchain_data_feeds_po.Store.Types.{MempoolTx, MinedInfo, unix, from_unix}
use blockchain_data_feeds_po.Store.Db.{Db, MempoolRow, Database, SqliteStore, Action, exec, query}

abbrev pub pending : Text
pending = lit "pending"

abbrev pub mined : Text
mined = lit "mined"

abbrev pub replaced : Text
replaced = lit "replaced"

abbrev pub dropped : Text
dropped = lit "dropped"

abbrev pub null_if_empty : Text → Option Text
null_if_empty v = if is_empty v then none else some v

abbrev pub null_if_zero : ℕ → Option ℕ
null_if_zero v = if v == 0 then none else some v

-- The arguments of the INSERT.
unfoldable pub mempool_row : MempoolTx → MempoolRow
mempool_row tx = record {
  chain_id = tx.chain_id;
  tx_hash = tx.hash;
  from_addr = tx.from_addr;
  to_addr = tx.to_addr;
  nonce = tx.nonce;
  value = tx.value;
  gas = tx.gas;
  gas_price = null_if_empty tx.gas_price;
  max_fee_per_gas = null_if_empty tx.max_fee_per_gas;
  max_priority_fee_per_gas = null_if_empty tx.max_priority_fee_per_gas;
  tx_type = null_if_zero tx.tx_type;
  input = tx.input;
  status = tx.status;
  first_seen_at = unix tx.first_seen_at;
  last_seen_at = unix tx.last_seen_at;
  mined_block_number = null_if_zero tx.mined_block_number;
  mined_block_hash = null_if_empty tx.mined_block_hash;
  mined_tx_index = null_if_zero tx.mined_tx_index;
  replaced_by_tx_hash = null_if_empty tx.replaced_by_tx_hash;
  decoded_input_json = null_if_empty tx.decoded_input_json;
  inserted_at = unix tx.inserted_at;
}

-- ON CONFLICT (tx_hash) DO UPDATE SET ...: the columns that are set from the new row.
unfoldable pub refresh : MempoolRow → MempoolRow → MempoolRow
refresh new old = record old {
  last_seen_at = new.last_seen_at;
  status = new.status;
  gas_price = new.gas_price;
  max_fee_per_gas = new.max_fee_per_gas;
  max_priority_fee_per_gas = new.max_priority_fee_per_gas;
  tx_type = new.tx_type;
  decoded_input_json = new.decoded_input_json;
}

-- UPDATE mempool_txs SET ... WHERE tx_hash = ?
unfoldable pub update_hash : Text → (MempoolRow → MempoolRow) → List MempoolRow → List MempoolRow
update_hash hash change [] = []
update_hash hash change (r ∷ rows) =
    (if text_eq r.tx_hash hash then change r else r) ∷ update_hash hash change rows

unfoldable pub upsert_row : MempoolRow → List MempoolRow → List MempoolRow
upsert_row new rows =
    if any (λ r. text_eq r.tx_hash new.tx_hash) rows
    then update_hash new.tx_hash (refresh new) rows
    else rows ++ new ∷ []

-- CHECK (status IN ('pending','mined','replaced','dropped'))
abbrev pub status_allowed : Text → Bool
status_allowed s = text_eq s pending || text_eq s mined || text_eq s replaced || text_eq s dropped

unfoldable pub upsert_mempool_tx : Database → MempoolTx → Action (Unit {0})
upsert_mempool_tx d tx =
    if status_allowed tx.status
    then exec d (λ db. record db { mempool = upsert_row (mempool_row tx) db.mempool })
    else (do query d (λ _. tt); raise (failed (lit "CHECK constraint failed")))

unfoldable pub set_mined : MinedInfo → ℕ → MempoolRow → MempoolRow
set_mined info now r = record r {
  status = mined;
  mined_block_number = some info.block_number;
  mined_block_hash = some info.block_hash;
  mined_tx_index = some info.tx_index;
  last_seen_at = now;
}

unfoldable pub set_replaced : Text → ℕ → MempoolRow → MempoolRow
set_replaced by now r = record r {
  status = replaced;
  replaced_by_tx_hash = some by;
  last_seen_at = now;
}

unfoldable pub set_dropped : ℕ → MempoolRow → MempoolRow
set_dropped now r = record r { status = dropped; last_seen_at = now }

unfoldable pub update : Database → Text → (ℕ → MempoolRow → MempoolRow) → Action (Unit {0})
update d hash change s =
    exec d
      (λ db. record db { mempool = update_hash hash (change (unix (d.now s.calls))) db.mempool }) s

unfoldable pub mark_mempool_mined : Database → Text → MinedInfo → Action (Unit {0})
mark_mempool_mined d hash info = update d hash (set_mined info)

unfoldable pub mark_mempool_replaced : Database → Text → Text → Action (Unit {0})
mark_mempool_replaced d hash by = update d hash (set_replaced by)

unfoldable pub mark_mempool_dropped : Database → Text → Action (Unit {0})
mark_mempool_dropped d hash = update d hash set_dropped

-- A NULL column reads as the zero value of its type.
abbrev text_or_empty : Option Text → Text
text_or_empty none = []
text_or_empty (some t) = t

abbrev number_or_zero : Option ℕ → ℕ
number_or_zero none = 0
number_or_zero (some n) = n

unfoldable pub scan_mempool : MempoolRow → MempoolTx
scan_mempool r = record {
  chain_id = r.chain_id;
  hash = r.tx_hash;
  from_addr = r.from_addr;
  to_addr = r.to_addr;
  nonce = r.nonce;
  value = r.value;
  gas = r.gas;
  gas_price = text_or_empty r.gas_price;
  max_fee_per_gas = text_or_empty r.max_fee_per_gas;
  max_priority_fee_per_gas = text_or_empty r.max_priority_fee_per_gas;
  tx_type = number_or_zero r.tx_type;
  input = r.input;
  status = r.status;
  first_seen_at = from_unix r.first_seen_at;
  last_seen_at = from_unix r.last_seen_at;
  mined_block_number = number_or_zero r.mined_block_number;
  mined_block_hash = text_or_empty r.mined_block_hash;
  mined_tx_index = number_or_zero r.mined_tx_index;
  replaced_by_tx_hash = text_or_empty r.replaced_by_tx_hash;
  inserted_at = from_unix r.inserted_at;
  decoded_input_json = text_or_empty r.decoded_input_json;
}

-- ORDER BY last_seen_at DESC
place : MempoolRow → List MempoolRow → List MempoolRow
place r [] = r ∷ []
place r (q ∷ rows) = if leb q.last_seen_at r.last_seen_at then r ∷ q ∷ rows else q ∷ place r rows

unfoldable pub latest_first : List MempoolRow → List MempoolRow
unfolding place
latest_first [] = []
latest_first (r ∷ rows) = place r (latest_first rows)

-- A limit that is not positive is 0 here; both mean 100.
unfoldable pub list_mempool : Database → Text → ℕ → Action (List MempoolTx)
unfolding scan_mempool latest_first
list_mempool d status limit =
    let n = if limit == 0 then 100 else limit in
    let wanted = λ (r : MempoolRow).
      if is_empty status || text_eq status (lit "all") then true else text_eq r.status status in
    query d (λ db. map scan_mempool (take n (latest_first (keep wanted db.mempool))))
