-- ===== src/Cmd/Tests.antt =====
-- The indexer command, cmd/indexer/main.go, on a small configuration.
use blockchain_data_feeds_po.Prelude.{
  ℕ, ◌≡◌, refl, Bool, false, Text, lit, List, [], ◌∷◌, none, text_eq, to_lower, put,
}
use blockchain_data_feeds_po.Prelude.Exec.{Result, ok}
use blockchain_data_feeds_po.Rpc.Client.{Conn, Client}
use blockchain_data_feeds_po.Rpc.Client.Example.{transport, json}
use blockchain_data_feeds_po.Rpc.Client.Typed.{client_rpc}
use blockchain_data_feeds_po.Config.Example.{given}
use blockchain_data_feeds_po.Decode.Registry.{
  EventSpec, Registry, load_registry, load_contracts, load_contract, load_parsed, load_events,
  add_event, new_registry, topic_address_key,
}
use blockchain_data_feeds_po.Decode.Example.{abi, transfer}
use blockchain_data_feeds_po.Extract.Deps.{Deps}
use blockchain_data_feeds_po.Extract.Example.{no_failure, plain}
use blockchain_data_feeds_po.Cmd.{
  backfill, usage, command_of, override, contract_spec, registry_decoder, build_deps, Error,
  MempoolDeps, build_mempool_service, new_client, pos,
}
use blockchain_data_feeds_po.Cmd.Wired.{configured}

named : command_of (lit "index" ∷ lit "backfill" ∷ []) 0 7 ≡ backfill 0 7
unfolding command_of text_eq
named = refl

misspelt : command_of (lit "index" ∷ lit "backfil" ∷ []) 0 7 ≡ usage
unfolding command_of text_eq
misspelt = refl

-- Block 0 cannot be asked for: it counts as no override.
no_override : override 0 ≡ none
unfolding override
no_override = refl

abbrev spec : EventSpec
spec = record { contract_address = lit "0xa"; event_name = lit "Transfer"; event = transfer }

abbrev loaded : Registry (Unit {0})
loaded = record {
  by_topic_address = (lit "0xt|0xa", spec) ∷ [];
  by_topic = (lit "0xT", spec) ∷ [];
  addresses = lit "0xa" ∷ [];
  topic0s = lit "0xT" ∷ [];
  abi_by_address = (lit "0xa", tt) ∷ [];
}

abbrev unlimited : Bool → Bool
unlimited r = r

abbrev as_json : List Text → Result Error Text
as_json topics = ok (lit "[]")

abbrev client : Client Bool
client = configured abi unlimited false as_json transport json plain no_failure given

abbrev deps : Deps (Conn ℕ)
deps = record {
  rpc = client_rpc transport json plain client;
  store = no_failure;
  decoder = registry_decoder abi as_json loaded;
  hexutil = plain;
  chain_id = 1;
}

builds : build_deps abi unlimited false as_json transport json plain no_failure given ≡ ok deps
unfolding build_deps contract_spec load_registry load_contracts load_contract load_parsed
    load_events add_event new_registry put topic_address_key to_lower
builds = refl

-- The mempool service asks the node of its own address.
abbrev service : MempoolDeps abi ℕ
service = record {
  cfg = given;
  rpc_http =
      client_rpc transport json plain
        (new_client unlimited given.mempool.http_url (pos given.mempool.pending_workers) false);
  decoder = loaded;
  store = no_failure;
}

builds_service :
    build_mempool_service abi unlimited false transport json plain no_failure given ≡ ok service
unfolding build_mempool_service contract_spec load_registry load_contracts load_contract load_parsed
    load_events add_event new_registry put topic_address_key to_lower
builds_service = refl
