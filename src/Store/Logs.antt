-- ===== src/Store/Logs.antt =====
-- InsertLogs and ListLogs of internal/store/sqlite.go.
pub mod Merge
pub mod Atomic
mod Tests
use blockchain_data_feeds_po.Prelude.{
  Text, ℕ, ◌+◌, Bool, ◌&&◌, List, [], ◌∷◌, ◌++◌, text_eq, ◌==◌, ltb, leb, if◌then◌else◌, any, map,
  take, length, false,
}
use blockchain_data_feeds_po.Prelude.Exec.{pure, ◌>>=◌, ◌>>◌}
use blockchain_data_feeds_po.Store.Types.{LogRecord, unix, from_unix}
use blockchain_data_feeds_po.Store.Db.{Db, LogRow, Database, SqliteStore, Action, exec, query}

unfoldable pub log_row : LogRecord → LogRow
log_row l = record {
  chain_id = l.chain_id;
  contract_address = l.contract_address;
  event_name = l.event_name;
  block_number = l.block_number;
  block_hash = l.block_hash;
  tx_hash = l.tx_hash;
  log_index = l.log_index;
  timestamp = unix l.timestamp;
  args_json = l.args_json;
  topics_json = l.topics_json;
  data_hex = l.data_hex;
  inserted_at = unix l.inserted_at;
}

-- PRIMARY KEY (chain_id, tx_hash, log_index)
abbrev pub has_key : ℕ → Text → ℕ → LogRow → Bool
has_key chain_id tx_hash log_index q =
    chain_id == q.chain_id && text_eq tx_hash q.tx_hash && log_index == q.log_index

abbrev pub same_key : LogRow → LogRow → Bool
same_key r = has_key r.chain_id r.tx_hash r.log_index

-- INSERT INTO logs ... ON CONFLICT (chain_id, tx_hash, log_index) DO NOTHING
unfoldable pub insert_row : LogRow → List LogRow → List LogRow
insert_row r rows = if any (same_key r) rows then rows else rows ++ r ∷ []

-- The statements of the loop work on the transaction's own view of the table. An error drops it.
unfoldable pub insert_all : Database → List LogRecord → List LogRow → Action (List LogRow)
insert_all d [] view = pure view
insert_all d (l ∷ ls) view = do query d (λ _. tt); insert_all d ls (insert_row (log_row l) view)

-- BeginTx, PrepareContext, the loop, and Commit.
transaction : Database → List LogRecord → Action (Unit {0})
transaction d logs = do
  view ← query d (λ db. db.logs)
  query d (λ _. tt)
  rows ← insert_all d logs view
  exec d (λ db. record db { logs = rows })

unfoldable pub insert_logs : Database → List LogRecord → Action (Unit {0})
unfolding transaction
insert_logs d [] = pure tt
insert_logs d (l ∷ ls) = transaction d (l ∷ ls)

scan_log : LogRow → LogRecord
scan_log r = record {
  chain_id = r.chain_id;
  contract_address = r.contract_address;
  event_name = r.event_name;
  block_number = r.block_number;
  block_hash = r.block_hash;
  tx_hash = r.tx_hash;
  log_index = r.log_index;
  timestamp = from_unix r.timestamp;
  args_json = r.args_json;
  topics_json = r.topics_json;
  data_hex = r.data_hex;
  inserted_at = from_unix r.inserted_at;
}

-- ORDER BY block_number DESC, log_index DESC
abbrev pub newer : LogRow → LogRow → Bool
newer r q =
    if r.block_number == q.block_number
    then leb q.log_index r.log_index
    else ltb q.block_number r.block_number

place : LogRow → List LogRow → List LogRow
place r [] = r ∷ []
place r (q ∷ rows) = if newer r q then r ∷ q ∷ rows else q ∷ place r rows

newest_first : List LogRow → List LogRow
unfolding place
newest_first [] = []
newest_first (r ∷ rows) = place r (newest_first rows)

-- A limit that is not positive is 0 here; both mean 100.
unfoldable pub list_logs : Database → ℕ → Action (List LogRecord)
unfolding scan_log newest_first
list_logs d limit =
    let n = if limit == 0 then 100 else limit in
    query d (λ db. map scan_log (take n (newest_first db.logs)))
