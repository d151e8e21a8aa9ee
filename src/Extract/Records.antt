-- ===== src/Extract/Records.antt =====
-- BlockCache, buildFilter and buildRecords of internal/extract/extract.go.
pub mod Match
mod Tests
use blockchain_data_feeds_po.Prelude.{
  ℕ, Text, lit, Option, none, some, List, [], ◌∷◌, ◌==◌, if◌then◌else◌,
}
use blockchain_data_feeds_po.Prelude.Exec.{
  Error, failed, wrap, Result, ok, err, Exec, pure, raise, attempt, ◌>>=◌, ◌>>◌,
}
use blockchain_data_feeds_po.Store.Types.{LogRecord}
use blockchain_data_feeds_po.Rpc.Interface.{LogFilter, Log, BlockHeader}
use blockchain_data_feeds_po.Extract.Deps.{Deps, Decoded, World, Run, with_rpc, now}

-- `map[uint64]*rpc.BlockHeader`
abbrev pub BlockCache : Type 0
BlockCache = List (ℕ × BlockHeader)

unfoldable pub cached : BlockCache → ℕ → Option BlockHeader
cached [] number = none
cached ((n, h) ∷ values) number = if n == number then some h else cached values number

-- `fmt.Errorf("...: %w", err)` around a call.
unfoldable pub wrapped : {S A : Type 0} → Text → List ℕ → Exec S Error A → Exec S Error A
wrapped text numbers m = do
  r ← attempt m
  elim r [ ok a ↦ pure a | err e ↦ raise (wrap text numbers e) ]

abbrev pub lift : {S A : Type 0} → Result Error A → Exec S Error A
lift (ok a) s = (ok a, s)
lift (err e) s = (err e, s)

module _ {C : Type 0} (deps : Deps C) where
  -- `Get` of the cache: the header, and the cache with it.
  unfoldable pub get_header : BlockCache → ℕ → Run C (BlockHeader × BlockCache)
  get_header cache number = elim (cached cache number) [
    | some h ↦ pure (h, cache)
    | none ↦ do h ← with_rpc (deps.rpc.get_block_by_number number); pure (h, (number, h) ∷ cache)
  ]

  unfoldable pub build_filter : ℕ → ℕ → LogFilter
  build_filter from to = record {
    from_block = deps.hexutil.encode_uint64 from;
    to_block = deps.hexutil.encode_uint64 to;
    address = deps.decoder.filter_addresses;
    topics = deps.decoder.filter_topics ∷ [];
  }

  -- The body of the loop of `buildRecords`.
  unfoldable pub build_record : BlockCache → Log → Run C (LogRecord × BlockCache)
  build_record cache l = do
    decoded ← wrapped (lit "decode log") [] (lift (deps.decoder.decode_log l))
    args_json ← wrapped (lit "args json") [] (lift decoded.args_json)
    topics_json ← wrapped (lit "topics json") [] (lift (deps.decoder.topics_json l.topics))
    found ← wrapped (lit "block header") [] (get_header cache l.block_number)
    λ w. (
      ok (
        record {
          chain_id = deps.chain_id;
          contract_address = l.address;
          event_name = decoded.event_name;
          block_number = l.block_number;
          block_hash = l.block_hash;
          tx_hash = l.tx_hash;
          log_index = l.index;
          timestamp = found.0.timestamp;
          args_json = args_json;
          topics_json = topics_json;
          data_hex = deps.hexutil.encode l.log_data;
          inserted_at = now deps w;
        },
        found.1,
      ),
      w,
    )

  unfoldable pub build_records : BlockCache → List Log → Run C (List LogRecord × BlockCache)
  build_records cache [] = pure ([], cache)
  build_records cache (l ∷ logs) = do
    first ← build_record cache l
    rest ← build_records first.1 logs
    pure (first.0 ∷ rest.0, rest.1)
