-- ===== src/Cmd/Indexes/Example.antt =====
-- A configuration with one worker, as `Load` returns it; for a run of the indexer command.
use blockchain_data_feeds_po.Prelude.{◌≡◌, refl, Text, lit, []}
use blockchain_data_feeds_po.Prelude.Exec.{Error, Result, ok, Exec}
use blockchain_data_feeds_po.Config.{Config, validate, finish}
use blockchain_data_feeds_po.Config.Example.{given}
use blockchain_data_feeds_po.Config.{finish}
use blockchain_data_feeds_po.Config.Load.{load, parsed}
use blockchain_data_feeds_po.Config.{
  fill, fill_indexer, resolve_network, chosen_chain, check_list, check_contracts, check_contract,
}

abbrev pub written : Config
written = record given {
  indexer = record (given.indexer) {
    chunk_size = 4;
    min_chunk_size = 1;
    max_chunk_size = 8;
    concurrency = 1;
  };
}

abbrev pub cfg : Config
cfg = record (fill written) {
  chain = given.chain;
  indexer = record {
    start_block = 1;
    confirmations = 2;
    chunk_size = 4;
    min_chunk_size = 1;
    max_chunk_size = 8;
    concurrency = 1;
    poll_interval_seconds = 10;
    metrics_interval_seconds = 30;
  };
  contracts = given.contracts;
}

abbrev pub read : Text → Exec (Unit {0}) Error Text
read path f = (ok [], f)

abbrev pub unmarshal : Text → Result Error Config
unmarshal b = ok written

pub loads : (load read unmarshal (lit "config.yaml") tt).0 ≡ ok cfg
unfolding load parsed validate resolve_network chosen_chain finish check_list check_contracts
    check_contract fill fill_indexer
loads = refl
