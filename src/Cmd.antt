-- ===== src/Cmd.antt =====
-- cmd/indexer/main.go: the commands, from flags that are parsed, and what they are built from. The
-- texts that it prints are not part of it; Cmd/Opened has the opening of the database.
pub mod Wired
pub mod Opened
pub mod Indexes
mod Tests
use blockchain_data_feeds_po.Prelude.{
  ℕ, zero, suc, pos, Bool, Text, lit, is_empty, text_eq, Option, none, some, List, [], ◌∷◌, map,
  ltb, if◌then◌else◌,
}
use blockchain_data_feeds_po.Prelude.Exec.{Error, Result, ok, err}
use blockchain_data_feeds_po.Store.Db.{Database}
use blockchain_data_feeds_po.Config.{Config, ContractConfig}
use blockchain_data_feeds_po.Rpc.Interface.{Hexutil, Log, Rpc}
use blockchain_data_feeds_po.Rpc.Client.{Json, Transport, Client, Conn, new_client}
use blockchain_data_feeds_po.Rpc.Client.Typed.{client_rpc}
use blockchain_data_feeds_po.Decode.Abi.{Abi}
use blockchain_data_feeds_po.Decode.Registry.{
  Registry, ContractSpec, DecodedLog, load_registry, decode_log, args_json, filter_addresses,
  filter_topics, topics_to_hex,
}
use blockchain_data_feeds_po.Extract.Deps.{Deps, Decoder, Decoded}

-- The words of a command, and the flags that the command has.
pub data Command : Type 0 where
  backfill : ℕ → ℕ → Command
  follow : Command
  mempool : Command
  migrate : Command
  usage : Command

-- `main`, handleIndex and handleDB: which command the words name. `from` and `to` are the flags.
unfoldable pub command_of : List Text → ℕ → ℕ → Command
command_of [] from to = usage
command_of (w ∷ []) from to = usage
command_of (w ∷ v ∷ rest) from to =
    if text_eq w (lit "index")
    then if text_eq v (lit "backfill")
      then backfill from to
      else if text_eq v (lit "follow")
      then follow
      else if text_eq v (lit "mempool")
      then mempool
      else usage
    else if text_eq w (lit "db")
    then if text_eq v (lit "migrate") then migrate else usage
    else usage

-- A flag of zero is no override.
unfoldable pub override : ℕ → Option ℕ
override n = if ltb 0 n then some n else none

unfoldable pub contract_spec : ContractConfig → ContractSpec
contract_spec c = record {
  name = c.name;
  address = c.address;
  abi_path = c.abi_path;
  events = c.events;
}

module _ {P V : Type 0} (abi : Abi P V) where
  unfoldable pub decoded_log : Result Error (DecodedLog V) → Result Error Decoded
  decoded_log (err e) = err e
  decoded_log (ok d) = ok (record { event_name = d.event_name; args_json = args_json abi d })

  -- The registry as the extractor takes it; `topics_json` is the JSON of a list of texts.
  unfoldable pub registry_decoder : (List Text → Result Error Text) → Registry P → Decoder
  registry_decoder topics_json reg = record {
    decode_log = λ (l : Log). decoded_log (decode_log abi reg l);
    topics_json = λ topics. topics_json (topics_to_hex topics);
    filter_addresses = filter_addresses reg;
    filter_topics = filter_topics reg;
  }

  -- `mempool.Service` of service.go: what its `Run` is given.
  pub record MempoolDeps (C : Type 0) : Type 0 where
    pub cfg : Config
    pub rpc_http : Rpc (Conn C)
    pub decoder : Registry P
    pub store : Database

  -- mustBuildMempoolService behind the opening of the store, and `NewService`.
  unfoldable pub build_mempool_service :
      {C R : Type 0}
      → (R → Bool)
      → R
      → Transport C
      → Json
      → Hexutil
      → Database
      → Config
      → Result Error (MempoolDeps C)
  build_mempool_service positive rate t json hex d cfg =
      elim (load_registry abi (map contract_spec cfg.contracts)) [
        | err e ↦ err e
        | ok reg ↦ ok (record {
          cfg = cfg;
          rpc_http =
              client_rpc t json hex
                (new_client positive cfg.mempool.http_url (pos cfg.mempool.pending_workers) rate);
          decoder = reg;
          store = d;
        })
      ]

  -- mustBuildDeps behind the opening of the store.
  unfoldable pub build_deps :
      {C R : Type 0}
      → (R → Bool)
      → R
      → (List Text → Result Error Text)
      → Transport C
      → Json
      → Hexutil
      → Database
      → Config
      → Result Error (Deps (Conn C))
  build_deps positive rate topics_json t json hex d cfg =
      elim (load_registry abi (map contract_spec cfg.contracts)) [
        | err e ↦ err e
        | ok reg ↦ ok (record {
          rpc =
              client_rpc t json hex
                (new_client positive cfg.chain.rpc_url (pos cfg.indexer.concurrency) rate);
          store = d;
          decoder = registry_decoder topics_json reg;
          hexutil = hex;
          chain_id = cfg.chain.chain_id;
        })
      ]
