-- ===== src/Extract/Example.antt =====
-- A node with one log in block 3 and its head at block 12, over an empty database.
use blockchain_data_feeds_po.Prelude.{lit, [], ◌∷◌, none}
use blockchain_data_feeds_po.Prelude.Exec.{ok}
use blockchain_data_feeds_po.Store.Db.{Db, Database, SqliteStore}
use blockchain_data_feeds_po.Rpc.Interface.{Rpc, Log, Hexutil}
use blockchain_data_feeds_po.Extract.Deps.{Deps, World, Decoder}

abbrev pub one_log : Log
one_log = record {
  address = lit "0xa";
  topics = [];
  log_data = [];
  block_number = 3;
  block_hash = lit "0xb3";
  tx_hash = lit "0xt";
  index = 0;
}

abbrev pub node : Rpc (Unit {0})
node = record {
  get_block_number = λ c. (ok 12, c);
  get_block_by_number = λ n c. (ok (record { number = n; hash = lit "0xb"; timestamp = 0 }), c);
  get_logs = λ f c. (ok (one_log ∷ []), c);
  get_transaction_by_hash = λ h c. (ok none, c);
  get_transaction_receipt = λ h c. (ok none, c);
}

abbrev pub no_failure : Database
no_failure = record { fails = λ n. none; now = λ n. 0 }

abbrev pub plain : Hexutil
plain = record { encode_uint64 = λ n. n ∷ []; decode_uint64 = λ t. ok 0; encode = λ t. t }

abbrev pub decoder : Decoder
decoder = record {
  decode_log = λ l. ok (record { event_name = lit "E"; args_json = ok (lit "{}") });
  topics_json = λ t. ok (lit "[]");
  filter_addresses = [];
  filter_topics = [];
}

abbrev pub sample : Deps (Unit {0})
sample = record { rpc = node; store = no_failure; decoder = decoder; hexutil = plain; chain_id = 1 }

abbrev pub empty_db : Db
empty_db = record { logs = []; checkpoints = []; next_id = 1; mempool = [] }

abbrev pub empty_store : SqliteStore
empty_store = record { db = empty_db; calls = 0 }

abbrev pub fresh : World (Unit {0})
fresh = record {
  conn = tt;
  store = empty_store;
  metrics = record { processed_blocks = 0; processed_logs = 0; rpc_errors = 0; lag_blocks = 0 };
}
