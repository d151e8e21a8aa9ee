-- ===== src/Cmd/Indexes/Tests.antt =====
-- The command `index backfill` on a configuration with one worker, over a server with one log.
use blockchain_data_feeds_po.Config.{fill}
use blockchain_data_feeds_po.Prelude.{All, false}
use blockchain_data_feeds_po.Store.Schema.{
  Catalog, new_store, migrate, send_query, create, has_table, has_index,
}
use blockchain_data_feeds_po.Store.Schema.Created.{IsThere}
use blockchain_data_feeds_po.Cmd.Opened.{must_build_deps, queries_for, opened, open_migrated}
use blockchain_data_feeds_po.Extract.Backfill.Pool.{finish}
use blockchain_data_feeds_po.Cmd.Indexes.Example.{cfg, read, unmarshal, loads}
use blockchain_data_feeds_po.Prelude.{
  ℕ, ◌≡◌, refl, inl, Bool, false, Text, lit, List, [], ◌∷◌, none, some, arith, text_eq, to_lower,
  put,
}
use blockchain_data_feeds_po.Prelude.Exec.{Error, Result, ok}
use blockchain_data_feeds_po.Metrics.{add_blocks, add_logs}
use blockchain_data_feeds_po.Store.Db.{exec, query}
use blockchain_data_feeds_po.Store.Logs.{insert_logs, insert_all, insert_row, log_row}
use blockchain_data_feeds_po.Store.Checkpoints.{add_checkpoint, save_range_checkpoint}
use blockchain_data_feeds_po.Rpc.Interface.{Log}
use blockchain_data_feeds_po.Rpc.Client.{Conn, Client, Json}
use blockchain_data_feeds_po.Rpc.Client.Example.{transport, json}
use blockchain_data_feeds_po.Rpc.Client.Typed.{client_rpc}
use blockchain_data_feeds_po.Decode.Registry.{EventSpec, Registry}
use blockchain_data_feeds_po.Decode.Example.{abi, transfer}
use blockchain_data_feeds_po.Extract.Deps.{Deps, World}
use blockchain_data_feeds_po.Extract.Example.{no_failure, plain, empty_store}
use blockchain_data_feeds_po.Extract.Chunker.{Chunker, new_chunker, on_success}
use blockchain_data_feeds_po.Extract.Range.Tiles.{Indexed}
use blockchain_data_feeds_po.Extract.Follow.{Settings}
use blockchain_data_feeds_po.Extract.Backfill.{Range}
use blockchain_data_feeds_po.Extract.Backfill.Pool.{
  Pool, ready, sending, closed, idle, busy, gone, advance,
}
use blockchain_data_feeds_po.Cmd.{registry_decoder, build_deps}
use blockchain_data_feeds_po.Cmd.Indexes.{settings, backfill_indexes}
use blockchain_data_feeds_po.Extract.Range.{
  chunk_end, chunk_size, process_chunk, store_chunk, insert_chunk, finish_chunk, save_chunk,
}
use blockchain_data_feeds_po.Decode.Registry.{
  load_registry, load_contracts, load_contract, load_parsed, load_events, add_event, new_registry,
  topic_address_key, filter_topics, topics_to_hex, filter_addresses, decode_log, decode_args,
  find_spec, split_args, args_json,
}
use blockchain_data_feeds_po.Rpc.Client.{
  call, call_loop, call_round, send, take_reply, take_response, sleep_backoff, backoff_wait,
  new_client,
}
use blockchain_data_feeds_po.Rpc.Client.Typed.{get_logs, get_block_by_number, to_header, unix_time}
use blockchain_data_feeds_po.Extract.Backfill.{backfill_bounds, produce, range_end}
use blockchain_data_feeds_po.Extract.Client.{ServerServes}
use blockchain_data_feeds_po.Cmd.{contract_spec, decoded_log, override}
use blockchain_data_feeds_po.Cmd.Wired.{configured}
use blockchain_data_feeds_po.Rpc.Client.Example.{one_log}
use blockchain_data_feeds_po.Prelude.{lookup}
use blockchain_data_feeds_po.Extract.Records.{
  BlockCache, wrapped, build_records, build_record, get_header, cached, build_filter,
}
use blockchain_data_feeds_po.Extract.Backfill.Pool.{
  after_round, noted, start_pool, open_pool, Reach, here, next, offer, take, round, leave, close,
  is_gone, AllGone,
}

-- A transfer of the contract, as the server gives it.
abbrev paid : Log
paid = record one_log { topics = lit "0xT" ∷ lit "0x1" ∷ [] }

abbrev with_paid : Json
with_paid = record json { logs = λ s. ok (paid ∷ []) }

abbrev spec : EventSpec
spec = record { contract_address = lit "0xa"; event_name = lit "Transfer"; event = transfer }

abbrev loaded : Registry (Unit {0})
loaded = record {
  by_topic_address = (lit "0xt|0xa", spec) ∷ [];
  by_topic = (lit "0xT", spec) ∷ [];
  addresses = lit "0xa" ∷ [];
  topic0s = lit "0xT" ∷ [];
  abi_by_address = (lit "0xa", tt) ∷ [];
}

abbrev unlimited : Bool → Bool
unlimited r = r

abbrev as_json : List Text → Result Error Text
as_json topics = ok (lit "[]")

abbrev client : Client Bool
client = configured abi unlimited false as_json transport with_paid plain no_failure cfg

abbrev deps : Deps (Conn ℕ)
deps = record {
  rpc = client_rpc transport with_paid plain client;
  store = no_failure;
  decoder = registry_decoder abi as_json loaded;
  hexutil = plain;
  chain_id = 1;
}

-- An empty database.
abbrev no_tables : Catalog
no_tables = record { tables = []; indexes = []; calls = 0 }

abbrev sql_open : Text → Text → Result Error ℕ
sql_open driver dsn = ok 7

builds :
    (must_build_deps abi unlimited false transport with_paid plain false sql_open no_failure as_json
      cfg no_tables).0
    ≡ ok (7, deps)
unfolding must_build_deps opened open_migrated queries_for new_store migrate send_query create
    has_table has_index text_eq build_deps contract_spec load_registry load_contracts load_contract
    load_parsed load_events add_event new_registry put topic_address_key to_lower fill
builds = refl

serves : ServerServes transport with_paid client deps (paid ∷ [])
serves = record { complete = λ from to resp logs r e l mem lo hi. ground (arith, e, mem) }

abbrev extractor : Settings
extractor = settings cfg.indexer

-- The pool on block 3.
abbrev world : World (Conn ℕ)
world = record {
  conn = record { net = 0; held = 0; waits = [] };
  store = empty_store;
  metrics = record { processed_blocks = 0; processed_logs = 0; rpc_errors = 0; lag_blocks = 0 };
}

abbrev block_three : Range
block_three = record { from = 3; to = 3 }

bounded : backfill_bounds deps extractor (override 3) (override 3) world ≡ (ok block_three, world)
unfolding backfill_bounds override
bounded = refl

abbrev four : Chunker
four = record { min = 1; max = 8; current = 4 }

abbrev five : Chunker
five = record { min = 1; max = 8; current = 5 }

abbrev p0 : Pool (Conn ℕ)
p0 = record {
  producer = ready (block_three ∷ []);
  workers = idle four ∷ [];
  slot = none;
  canceled = false;
  world = world;
}

pool_opened : open_pool deps extractor 2 block_three world ≡ some p0
unfolding open_pool start_pool produce range_end new_chunker
pool_opened = refl

abbrev p1 : Pool (Conn ℕ)
p1 = record p0 { producer = sending block_three [] }

abbrev p2 : Pool (Conn ℕ)
p2 = record p0 { producer = ready []; workers = busy four [] 3 3 ∷ [] }

abbrev p3 : Pool (Conn ℕ)
p3 = advance deps extractor [] [] four [] 3 3 p2

abbrev cache_three : BlockCache
cache_three = (3, record { number = 0; hash = lit "0xb"; timestamp = 62135596800000000000 }) ∷ []

p3_workers : p3.workers ≡ busy five cache_three 4 3 ∷ []
unfolding advance after_round process_chunk store_chunk insert_chunk finish_chunk save_chunk
    build_records build_record get_header cached build_filter chunk_end chunk_size insert_logs
    insert_all insert_row log_row exec save_range_checkpoint add_checkpoint on_success add_blocks
    add_logs wrapped query client_rpc get_logs get_block_by_number call call_loop call_round send
    take_reply take_response sleep_backoff backoff_wait to_header unix_time registry_decoder
    decoded_log decode_log decode_args find_spec lookup split_args topic_address_key topics_to_hex
    filter_topics filter_addresses args_json to_lower new_client text_eq
p3_workers = refl

abbrev p4 : Pool (Conn ℕ)
p4 = record p3 { workers = idle five ∷ [] }

abbrev p5 : Pool (Conn ℕ)
p5 = record p4 { producer = closed }

abbrev p6 : Pool (Conn ℕ)
p6 = record p5 { workers = gone ∷ [] }

p3_running : (p3.producer ≡ ready []) × (p3.canceled ≡ false)
unfolding noted advance after_round process_chunk store_chunk insert_chunk finish_chunk save_chunk
    build_records build_record get_header cached build_filter chunk_end chunk_size insert_logs
    insert_all insert_row log_row exec save_range_checkpoint add_checkpoint on_success add_blocks
    add_logs wrapped query client_rpc get_logs get_block_by_number call call_loop call_round send
    take_reply take_response sleep_backoff backoff_wait to_header unix_time registry_decoder
    decoded_log decode_log decode_args find_spec lookup split_args topic_address_key topics_to_hex
    filter_topics filter_addresses args_json to_lower new_client text_eq
p3_running = (refl, refl)

p6_reached : Reach deps extractor p0 p6
p6_reached =
    next
      (next
        (next
          (next
            (next (next here (offer block_three [] refl refl refl))
              (take block_three [] [] [] four refl refl refl))
            (round [] [] four [] 3 3 refl (omega arith) refl))
          (finish [] [] five cache_three 4 3 p3_workers (omega arith) refl))
        (close p3_running.0 refl))
      (leave [] [] five refl refl refl)

all_gone : AllGone p6.workers
unfolding is_gone
all_gone = (refl, tt)

backfill_indexes_example :
    Indexed 1 paid p6.world.store.db.logs
    × All
        (IsThere
          (must_build_deps abi unlimited false transport with_paid plain false sql_open no_failure
            as_json cfg no_tables).1)
        (queries_for cfg.database.driver)
unfolding override backfill_bounds
backfill_indexes_example =
    backfill_indexes abi unlimited false as_json transport with_paid plain no_failure false sql_open
      read unmarshal (lit "config.yaml") tt cfg deps (paid ∷ []) paid 7 no_tables 3 3 2 world
      block_three p0 p6 loads builds serves (omega arith) refl (omega arith) (omega arith)
      pool_opened p6_reached all_gone p3_running.1 (inl refl) (omega arith) (omega arith)
