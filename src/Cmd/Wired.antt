-- ===== src/Cmd/Wired.antt =====
-- The dependencies that cmd/indexer/main.go builds for the extractor.
use blockchain_data_feeds_po.Prelude.{
  pos, ◌≡◌, sym, ap, subst, Bool, Text, List, ◌∷◌, map, In, arith, inl, inr,
}
use blockchain_data_feeds_po.Prelude.Exec.{Error, Result, ok, Result-cases}
use blockchain_data_feeds_po.Store.Db.{Database}
use blockchain_data_feeds_po.Config.{Config}
use blockchain_data_feeds_po.Rpc.Interface.{Hexutil, Log}
use blockchain_data_feeds_po.Rpc.Client.{Json, Transport, Client, Conn, new_client}
use blockchain_data_feeds_po.Rpc.Client.Typed.{client_rpc}
use blockchain_data_feeds_po.Decode.Abi.{Abi}
use blockchain_data_feeds_po.Decode.Registry.{EventSpec, Registry, load_registry, decode_args}
use blockchain_data_feeds_po.Decode.Registry.Known.{filtered_known}
use blockchain_data_feeds_po.Extract.Deps.{Deps}
use blockchain_data_feeds_po.Extract.Range.Complete.{Serves}
use blockchain_data_feeds_po.Extract.Client.{ServerServes, client-Serves}
use blockchain_data_feeds_po.Cmd.{contract_spec, decoded_log, registry_decoder, build_deps}

module _ {P V C R : Type 0} (abi : Abi P V) (positive : R → Bool) (rate : R)
    (topics_json : List Text → Result Error Text) (t : Transport C) (json : Json) (hex : Hexutil)
    (d : Database) (cfg : Config) where
  -- The client of the configuration.
  abbrev pub configured : Client R
  configured = new_client positive cfg.chain.rpc_url (pos cfg.indexer.concurrency) rate

  abbrev built : Registry P → Deps (Conn C)
  built reg = record {
    rpc = client_rpc t json hex configured;
    store = d;
    decoder = registry_decoder abi topics_json reg;
    hexutil = hex;
    chain_id = cfg.chain.chain_id;
  }

  -- What a log that the filter lets through is decoded as.
  abbrev pub Decodes : Deps (Conn C) → Log → List Text → Type 0
  Decodes deps log topics =
      (spec : EventSpec) × (deps.decoder.decode_log log
        ≡ decoded_log abi (decode_args abi spec topics log.log_data))
      × (spec.event_name ≡ spec.event.name)

  built-Decodes :
      (reg : Registry P) (log : Log) (topic0 : Text) (topics : List Text)
      → load_registry abi (map contract_spec cfg.contracts) ≡ ok reg
      → log.topics ≡ topic0 ∷ topics
      → In topic0 (built reg).decoder.filter_topics
      → Decodes (built reg) log topics
  unfolding registry_decoder
  built-Decodes reg log topic0 topics loaded shape mem =
      let (spec, e, name, place, named) =
        filtered_known abi (map contract_spec cfg.contracts) reg log topic0 topics loaded shape
          mem in
      (spec, ap (decoded_log abi) e, name)

  build_deps-built :
      (deps : Deps (Conn C))
      → build_deps abi positive rate topics_json t json hex d cfg ≡ ok deps
      → (reg : Registry P) × (load_registry abi (map contract_spec cfg.contracts) ≡ ok reg)
        × (deps ≡ built reg)
  unfolding build_deps
  build_deps-built deps h =
      elim (Result-cases (load_registry abi (map contract_spec cfg.contracts))) [
        | inr (x, e) ↦ absurd (ground (arith, e, h))
        | inl (reg, e) ↦ (reg, e, ground (arith, e, h))
      ]

  pub build_deps-Serves :
      (deps : Deps (Conn C)) (chain : List Log)
      → build_deps abi positive rate topics_json t json hex d cfg ≡ ok deps
      → ServerServes t json configured deps chain
      → Serves deps chain × (deps.chain_id ≡ cfg.chain.chain_id)
  build_deps-Serves deps chain h server =
      let (reg, e, same) = build_deps-built deps h in
      (
        subst (λ (k : Deps (Conn C)). Serves k chain) (sym same)
            (client-Serves t json configured (built reg) chain
              (subst (λ (k : Deps (Conn C)). ServerServes t json configured k chain) same server)),
        ap (λ (k : Deps (Conn C)). k.chain_id) same,
      )

  -- The dependencies that are built from a configuration fit together: over a server whose
  -- responses have the logs of the range that they are asked for, their node gives the extractor
  -- complete answers; every log that their filter lets through by topic is decoded as an event of
  -- the registry, under its name in the ABI; and records carry the configured chain.
  pub build_deps_lem :
      (deps : Deps (Conn C)) (chain : List Log) (log : Log) (topic0 : Text) (topics : List Text)
      → build_deps abi positive rate topics_json t json hex d cfg ≡ ok deps
      → ServerServes t json configured deps chain
      → log.topics ≡ topic0 ∷ topics
      → In topic0 deps.decoder.filter_topics
      → Serves deps chain × Decodes deps log topics × (deps.chain_id ≡ cfg.chain.chain_id)
  build_deps_lem deps chain log topic0 topics h server shape mem =
      let (reg, e, same) = build_deps-built deps h in
      let (served, id) = build_deps-Serves deps chain h server in
      (
        served,
        subst (λ (k : Deps (Conn C)). Decodes k log topics) (sym same)
            (built-Decodes reg log topic0 topics e shape
              (subst (λ (k : Deps (Conn C)). In topic0 k.decoder.filter_topics) same mem)),
        id,
      )
