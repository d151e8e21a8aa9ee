-- ===== src/Config/Ready.antt =====
-- The configuration that Validate of internal/config/config.go lets pass.
use blockchain_data_feeds_po.Prelude.{
  ℕ, suc, List, [], ◌∷◌, ◌≢◌, All, List-cases, Option-cases, if◌then◌else◌, ◌≤◌, ◌<◌, ◌≡◌, false,
  Text, is_empty, none, arith, lit, ◌==◌, inl, inr,
}
use blockchain_data_feeds_po.Prelude.Exec.{ok, Result-cases}
use blockchain_data_feeds_po.Config.{
  ChainConfig, ContractConfig, check_contract, check_contracts, IndexerConfig, MempoolConfig,
  Config, chosen_chain, resolve_network, fill_indexer, apply_mempool_defaults, check_list, fill,
  finish, validate,
}

-- A contract with an address, a path of its ABI, and events.
pub record IsWhole (k : ContractConfig) : Type 0 where
  pub has_address : is_empty k.address ≡ false
  pub has_abi_path : is_empty k.abi_path ≡ false
  pub has_events : k.events ≢ []

-- The chunk sizes are in order and positive, and so are the counts; the texts and lists that the
-- program needs are there.
pub record IsReady (c : Config) : Type 0 where
  pub min_positive : 0 < c.indexer.min_chunk_size
  pub chunk_above : c.indexer.min_chunk_size ≤ c.indexer.chunk_size
  pub chunk_below : c.indexer.chunk_size ≤ c.indexer.max_chunk_size
  pub workers : 0 < c.indexer.concurrency
  pub has_url : is_empty c.chain.rpc_url ≡ false
  pub has_chain : 0 < c.chain.chain_id
  pub has_dsn : is_empty c.database.dsn ≡ false
  pub has_driver : is_empty c.database.driver ≡ false
  pub has_contracts : c.contracts ≢ []
  pub whole_contracts : All IsWhole c.contracts
  pub has_http : is_empty c.mempool.http_url ≡ false
  pub tracker_bounds : 0 < c.mempool.max_inflight_hashes

pub fill_indexer_lem :
    (c : IndexerConfig)
    → (c.chunk_size == 0) ≡ false
    → (0 < (fill_indexer c).min_chunk_size)
      × ((fill_indexer c).min_chunk_size ≤ (fill_indexer c).chunk_size)
      × ((fill_indexer c).chunk_size ≤ (fill_indexer c).max_chunk_size)
      × (0 < (fill_indexer c).concurrency)
unfolding fill_indexer
fill_indexer_lem c h = ground arith

pub resolve_network_lem :
    (c c' : Config)
    → resolve_network c ≡ ok c'
    → (is_empty c'.chain.rpc_url ≡ false) × (0 < c'.chain.chain_id)
unfolding resolve_network
resolve_network_lem c c' h = elim (Result-cases (chosen_chain c)) [
  | inl (chain, e) ↦ ground (arith, e)
  | inr (x, e) ↦ absurd (ground (arith, e))
]

pub finish_lem :
    (c c' : Config)
    → finish c ≡ ok c'
    → (c' ≡ fill c)
      × ((c.indexer.chunk_size == 0) ≡ false)
      × (is_empty c.database.dsn ≡ false)
      × (check_list c.contracts ≡ none)
unfolding finish
finish_lem c c' h = ground arith

check_contract-IsWhole : (i : ℕ) (k : ContractConfig) → check_contract i k ≡ none → IsWhole k
unfolding check_contract
check_contract-IsWhole i k h = elim (List-cases k.events) [
  | inl e ↦ absurd (ground (arith, e, h))
  | inr (x, xs, e) ↦ record {
    has_address = ground (arith, h);
    has_abi_path = ground (arith, h);
    has_events = λ none_left. cc;
  }
]

check_contracts-IsWhole :
    (i : ℕ) (ks : List ContractConfig) → check_contracts i ks ≡ none → All IsWhole ks
unfolding check_contracts
check_contracts-IsWhole i [] h = tt
check_contracts-IsWhole i (k ∷ ks) h = elim (Option-cases (check_contract i k)) [
  | inl e ↦
      (check_contract-IsWhole i k e, check_contracts-IsWhole (suc i) ks (ground (arith, e, h)))
  | inr (x, e) ↦ absurd (ground (arith, e, h))
]

check_list-IsWhole : (ks : List ContractConfig) → check_list ks ≡ none → (ks ≢ []) × All IsWhole ks
unfolding check_list
check_list-IsWhole [] h = cc
check_list-IsWhole (k ∷ ks) h = (λ e. cc, check_contracts-IsWhole 0 (k ∷ ks) h)

pub driver_is_set : (s : Text) → is_empty (if is_empty s then lit "sqlite" else s) ≡ false
driver_is_set s = ground arith

mempool_lem :
    (chain : ChainConfig) (c : MempoolConfig)
    → is_empty chain.rpc_url ≡ false
    → (is_empty (apply_mempool_defaults chain c).http_url ≡ false)
      × (0 < (apply_mempool_defaults chain c).max_inflight_hashes)
unfolding apply_mempool_defaults
mempool_lem chain c h = ground arith

-- A configuration that Validate lets pass has positive chunk sizes in order, a positive number of
-- workers, a chain, a database, at least one contract, in each contract an address, an ABI path
-- and an event at least, and a bound for the tracker.
pub validate-IsReady : (c c' : Config) → validate c ≡ ok c' → IsReady c'
unfolding validate fill
validate-IsReady c c' h = elim (Result-cases (resolve_network c)) [
  | inl (r, e) ↦
      let (eq, chunk, dsn, contracts) = finish_lem r c' (ground (arith, e, h)) in
      let (url, id) = resolve_network_lem c r e in
      let (min_positive, above, below, workers) = fill_indexer_lem r.indexer chunk in
      let (http, inflight) = mempool_lem r.chain r.mempool url in
      rw eq (record {
        min_positive = min_positive;
        chunk_above = above;
        chunk_below = below;
        workers = workers;
        has_url = url;
        has_chain = id;
        has_dsn = dsn;
        has_driver = driver_is_set r.database.driver;
        has_contracts = (check_list-IsWhole r.contracts contracts).0;
        whole_contracts = (check_list-IsWhole r.contracts contracts).1;
        has_http = http;
        tracker_bounds = inflight;
      })
  | inr (x, e) ↦ absurd (ground (arith, e, h))
]
