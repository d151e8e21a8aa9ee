-- ===== src/Config/Tests.antt =====
-- Validate on a small configuration.
use blockchain_data_feeds_po.Prelude.{◌≡◌, refl, lit, has_prefix}
use blockchain_data_feeds_po.Prelude.Exec.{ok}
use blockchain_data_feeds_po.Config.{
  validate, resolve_network, chosen_chain, finish, fill, fill_indexer, apply_mempool_defaults,
  derive_ws_url, check_list, check_contracts, check_contract,
}
use blockchain_data_feeds_po.Config.Example.{given}
use blockchain_data_feeds_po.Config.Ready.{IsReady, validate-IsReady}

chunk_sizes : (fill given).indexer.chunk_size ≡ 10
unfolding fill fill_indexer
chunk_sizes = refl

socket : (fill given).mempool.ws_url ≡ lit "wss://node"
unfolding fill apply_mempool_defaults derive_ws_url has_prefix
socket = refl

passes : validate given ≡ ok (fill given)
unfolding validate resolve_network chosen_chain finish check_list check_contracts check_contract
passes = refl

validate-IsReady_example : IsReady (fill given)
validate-IsReady_example = validate-IsReady given (fill given) passes
