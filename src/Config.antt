-- ===== src/Config.antt =====
-- internal/config/config.go: the configuration and what Validate makes of it.
-- An `int` or a duration that is not positive stands as 0. Config/Load reads it from a file.
pub mod Ready
pub mod Load
pub mod Again
pub mod Example
mod Tests
use blockchain_data_feeds_po.Prelude.{
  ℕ, suc, ◌+◌, ◌*◌, Bool, ◌&&◌, not, Text, lit, is_empty, has_prefix, drop, List, [], ◌∷◌, ◌++◌,
  Option, none, some, ◌==◌, ltb, if◌then◌else◌, Dict, lookup,
}
use blockchain_data_feeds_po.Prelude.Exec.{Error, failed, wrap, Result, ok, err}
use blockchain_data_feeds_po.Store.Types.{Time, second}

pub record ChainConfig : Type 0 where
  pub rpc_url : Text
  pub chain_id : ℕ

-- Without the rate limit, which is a float that only the RPC client reads.
pub record IndexerConfig : Type 0 where
  pub start_block : ℕ
  pub confirmations : ℕ
  pub chunk_size : ℕ
  pub min_chunk_size : ℕ
  pub max_chunk_size : ℕ
  pub concurrency : ℕ
  pub poll_interval_seconds : ℕ
  pub metrics_interval_seconds : ℕ

pub record DatabaseConfig : Type 0 where
  pub driver : Text
  pub dsn : Text

pub record ContractConfig : Type 0 where
  pub name : Text
  pub address : Text
  pub abi_path : Text
  pub events : List Text

pub record MempoolConfig : Type 0 where
  pub ws_url : Text
  pub http_url : Text
  pub pending_workers : ℕ
  pub receipt_workers : ℕ
  pub dropped_ttl : Time
  pub decode_input : Bool
  pub track_lifecycle : Bool
  pub max_inflight_hashes : ℕ

pub record UiConfig : Type 0 where
  pub listen_addr : Text
  pub default_feed : Text
  pub poll_interval_seconds : ℕ
  pub default_from : Text

pub record Config : Type 0 where
  pub network : Text
  pub networks : Dict ChainConfig
  pub chain : ChainConfig
  pub indexer : IndexerConfig
  pub database : DatabaseConfig
  pub mempool : MempoolConfig
  pub ui : UiConfig
  pub contracts : List ContractConfig

abbrev or_text : Text → Text → Text
or_text s default = if is_empty s then default else s

abbrev or_number : ℕ → ℕ → ℕ
or_number n default = if n == 0 then default else n

-- The chain of the named network, if one is named.
unfoldable pub chosen_chain : Config → Result Error ChainConfig
chosen_chain c = if is_empty c.network then ok c.chain else elim c.networks [
  | [] ↦ err (failed (lit "networks map is required when network is set"))
  | _ ∷ _ ↦ elim (lookup c.network c.networks) [
    | none ↦ err (failed (lit "network not found in networks"))
    | some chain ↦ ok chain
  ]
]

unfoldable pub resolve_network : Config → Result Error Config
resolve_network c = elim (chosen_chain c) [
  | err e ↦ err e
  | ok chain ↦
      if is_empty chain.rpc_url
      then err (failed (lit "chain.rpc_url is required"))
      else if chain.chain_id == 0
      then err (failed (lit "chain.chain_id is required"))
      else ok (record c { chain = chain })
]

-- The defaults and the order of the chunk sizes, in the order of the source.
unfoldable pub fill_indexer : IndexerConfig → IndexerConfig
fill_indexer c =
    let min = or_number c.min_chunk_size 10 in
    let max = or_number c.max_chunk_size c.chunk_size in
    let max' = if ltb max min then min else max in
    let chunk = if ltb c.chunk_size min then min else c.chunk_size in
    let chunk' = if ltb max' chunk then max' else chunk in
    record c {
      chunk_size = chunk';
      min_chunk_size = min;
      max_chunk_size = max';
      concurrency = or_number c.concurrency 4;
      poll_interval_seconds = or_number c.poll_interval_seconds 10;
      metrics_interval_seconds = or_number c.metrics_interval_seconds 30;
    }

unfoldable pub derive_ws_url : Text → Text
derive_ws_url url =
    if has_prefix url (lit "https://")
    then lit "wss://" ++ drop 8 url
    else if has_prefix url (lit "http://")
    then lit "ws://" ++ drop 7 url
    else url

unfoldable pub apply_mempool_defaults : ChainConfig → MempoolConfig → MempoolConfig
apply_mempool_defaults chain c = record c {
  http_url = or_text c.http_url chain.rpc_url;
  ws_url =
      if is_empty c.ws_url && not (is_empty chain.rpc_url)
      then derive_ws_url chain.rpc_url
      else c.ws_url;
  pending_workers = or_number c.pending_workers 32;
  receipt_workers = or_number c.receipt_workers 16;
  dropped_ttl = or_number c.dropped_ttl (600 * second);
  max_inflight_hashes = or_number c.max_inflight_hashes 50000;
}

unfoldable pub apply_ui_defaults : UiConfig → UiConfig
apply_ui_defaults c = record c {
  listen_addr = or_text c.listen_addr (lit ":8080");
  default_feed = or_text c.default_feed (lit "mempool");
  poll_interval_seconds = or_number c.poll_interval_seconds 2;
}

-- What is missing of a contract, by its place in the list.
unfoldable pub check_contract : ℕ → ContractConfig → Option Error
check_contract i c =
    if is_empty c.address
    then some (wrap (lit "address is required") (i ∷ []) (failed (lit "contracts")))
    else if is_empty c.abi_path
    then some (wrap (lit "abi_path is required") (i ∷ []) (failed (lit "contracts")))
    else elim c.events [
      | [] ↦ some (wrap (lit "events is required") (i ∷ []) (failed (lit "contracts")))
      | _ ∷ _ ↦ none
    ]

unfoldable pub check_contracts : ℕ → List ContractConfig → Option Error
check_contracts i [] = none
check_contracts i (c ∷ cs) = elim (check_contract i c) [
  | some e ↦ some e
  | none ↦ check_contracts (suc i) cs
]

-- The list as a whole, which has to have a contract.
unfoldable pub check_list : List ContractConfig → Option Error
check_list [] = some (failed (lit "contracts list is required"))
check_list (c ∷ cs) = check_contracts 0 (c ∷ cs)

-- The configuration with its defaults, once the network is known.
unfoldable pub fill : Config → Config
fill c = record c {
  indexer = fill_indexer c.indexer;
  database = record (c.database) { driver = or_text c.database.driver (lit "sqlite") };
  mempool = apply_mempool_defaults c.chain c.mempool;
  ui = apply_ui_defaults c.ui;
}

-- The checks, each at its place. Load throws the configuration away on an error.
unfoldable pub finish : Config → Result Error Config
finish c =
    if c.indexer.chunk_size == 0
    then err (failed (lit "indexer.chunk_size is required"))
    else if is_empty c.database.dsn
    then err (failed (lit "database.dsn is required"))
    else elim (check_list c.contracts) [ some e ↦ err e | none ↦ ok (fill c) ]

unfoldable pub validate : Config → Result Error Config
validate c = elim (resolve_network c) [ err e ↦ err e | ok resolved ↦ finish resolved ]
