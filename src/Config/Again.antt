-- ===== src/Config/Again.antt =====
-- Validate of internal/config/config.go applied to its own result.
use blockchain_data_feeds_po.Prelude.{◌≡◌, false, Text, is_empty, arith, ◌==◌, inl, inr}
use blockchain_data_feeds_po.Prelude.Exec.{ok, Result-cases}
use blockchain_data_feeds_po.Config.{
  ChainConfig, IndexerConfig, MempoolConfig, UiConfig, Config, chosen_chain, resolve_network,
  fill_indexer, apply_mempool_defaults, apply_ui_defaults, fill, finish, validate, derive_ws_url,
}
use blockchain_data_feeds_po.Config.Ready.{
  finish_lem, resolve_network_lem, driver_is_set, fill_indexer_lem,
}

fill_indexer_again :
    (c : IndexerConfig)
    → (c.chunk_size == 0) ≡ false
    → fill_indexer (fill_indexer c) ≡ fill_indexer c
unfolding fill_indexer
fill_indexer_again c h = ground arith

derived_is_set : (url : Text) → is_empty url ≡ false → is_empty (derive_ws_url url) ≡ false
unfolding derive_ws_url
derived_is_set url h = ground arith

mempool_again :
    (chain : ChainConfig) (c : MempoolConfig)
    → is_empty chain.rpc_url ≡ false
    → apply_mempool_defaults chain (apply_mempool_defaults chain c) ≡ apply_mempool_defaults chain c
unfolding apply_mempool_defaults
mempool_again chain c h = ground (arith, derived_is_set chain.rpc_url h)

ui_again : (c : UiConfig) → apply_ui_defaults (apply_ui_defaults c) ≡ apply_ui_defaults c
unfolding apply_ui_defaults
ui_again c = ground arith

fill_again :
    (c : Config)
    → (c.indexer.chunk_size == 0) ≡ false
    → is_empty c.chain.rpc_url ≡ false
    → fill (fill c) ≡ fill c
unfolding fill
fill_again c h u = ground (
  arith,
  fill_indexer_again c.indexer h,
  mempool_again c.chain c.mempool u,
  ui_again c.ui,
  driver_is_set c.database.driver,
)

resolve_again : (c r : Config) → resolve_network c ≡ ok r → resolve_network (fill r) ≡ ok (fill r)
unfolding resolve_network chosen_chain fill
resolve_again c r h = elim (Result-cases (chosen_chain c)) [
  | inl (chain, e) ↦ ground (arith, e)
  | inr (x, e) ↦ absurd (ground (arith, e))
]

finish_again :
    (r c' : Config)
    → is_empty r.chain.rpc_url ≡ false
    → finish r ≡ ok c'
    → finish (fill r) ≡ ok (fill r)
unfolding finish fill
finish_again r c' url h =
    let (eq, chunk, dsn, contracts) = finish_lem r c' h in
    ground (arith, fill_again r chunk url, fill_indexer_lem r.indexer chunk, dsn, contracts)

-- What Validate lets pass it lets pass again, and fills in nothing more.
pub validate_again : (c c' : Config) → validate c ≡ ok c' → validate c' ≡ ok c'
unfolding validate
validate_again c c' h = elim (Result-cases (resolve_network c)) [
  | inl (r, e) ↦
      let (eq, chunk, dsn, contracts) = finish_lem r c' (ground (arith, e, h)) in
      let (url, id) = resolve_network_lem c r e in
      rw (eq, validate, resolve_again c r e) (finish_again r c' url (ground (arith, e, h)))
  | inr (x, e) ↦ absurd (ground (arith, e, h))
]
