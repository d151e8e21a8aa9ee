-- ===== src/Store/Logs/Tests.antt =====
-- InsertLogs on a batch of one log, into an empty table, with a database whose fifth statement fails.
use blockchain_data_feeds_po.Prelude.{refl, ◌==◌, if◌then◌else◌, none, some, lit, [], ◌∷◌, ◌⊎◌, ◌≡◌}
use blockchain_data_feeds_po.Prelude.Exec.{ok, failed}
use blockchain_data_feeds_po.Store.Types.{LogRecord}
use blockchain_data_feeds_po.Store.Db.{Database, SqliteStore, exec, query}
use blockchain_data_feeds_po.Store.Logs.{
  list_logs, scan_log, newest_first, insert_row, log_row, insert_all, insert_logs,
}
use blockchain_data_feeds_po.Store.Logs.Atomic.{
  Merged, Untouched, insert_logs_atomic, insert_logs_again,
}

abbrev flaky : Database
flaky = record { fails = λ n. if n == 4 then some (failed (lit "disk")) else none; now = λ n. n }

abbrev empty : SqliteStore
empty = record { db = record { logs = []; checkpoints = []; next_id = 1; mempool = [] }; calls = 0 }

abbrev transfer : LogRecord
transfer = record {
  chain_id = 1;
  contract_address = lit "0xa";
  event_name = lit "Transfer";
  block_number = 7;
  block_hash = lit "0xb";
  tx_hash = lit "0xt";
  log_index = 2;
  timestamp = 5000000000;
  args_json = [];
  topics_json = [];
  data_hex = [];
  inserted_at = 0;
}

insert_logs_atomic_example :
    Merged flaky (transfer ∷ []) empty ⊎ Untouched flaky (transfer ∷ []) empty
insert_logs_atomic_example = insert_logs_atomic flaky (transfer ∷ []) empty

insert_logs_again_example :
    (insert_logs flaky (transfer ∷ []) (insert_logs flaky (transfer ∷ []) empty).1).1.db
    ≡ (insert_logs flaky (transfer ∷ []) empty).1.db
unfolding insert_logs insert_all query exec
insert_logs_again_example = insert_logs_again flaky flaky (transfer ∷ []) empty refl

-- Times are read back as whole seconds.
listed :
    (list_logs flaky 0 (insert_logs flaky (transfer ∷ []) (record empty { calls = 5 })).1).0
    ≡ ok (transfer ∷ [])
unfolding list_logs scan_log newest_first insert_logs insert_all insert_row log_row query exec
listed = refl
