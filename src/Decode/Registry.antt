-- ===== src/Decode/Registry.antt =====
-- internal/decode/registry.go. A Go map from a hash is an association list by the hash's text.
pub mod Known
mod Tests
use blockchain_data_feeds_po.Prelude.{
  ℕ, Bool, Text, lit, to_lower, Option, none, some, List, [], ◌∷◌, ◌++◌, map, if◌then◌else◌, Dict,
  lookup, put,
}
use blockchain_data_feeds_po.Prelude.Exec.{Error, failed, wrap, Result, ok, err}
use blockchain_data_feeds_po.Rpc.Interface.{Log}
use blockchain_data_feeds_po.Decode.Abi.{Argument, AbiEvent, Abi}

pub record EventSpec : Type 0 where
  pub contract_address : Text
  pub event_name : Text
  pub event : AbiEvent

pub record Registry (P : Type 0) : Type 0 where
  pub by_topic_address : Dict EventSpec
  pub by_topic : Dict EventSpec
  pub addresses : List Text
  pub topic0s : List Text
  pub abi_by_address : Dict P

pub record ContractSpec : Type 0 where
  pub name : Text
  pub address : Text
  pub abi_path : Text
  pub events : List Text

pub record DecodedLog (V : Type 0) : Type 0 where
  pub event_name : Text
  pub args : V

unfoldable pub topic_address_key : Text → Text → Text
topic_address_key topic addr = to_lower (topic ++ lit "|" ++ addr)

-- The arguments that are indexed, and the others.
unfoldable pub split_args : List Argument → List Argument × List Argument
split_args [] = ([], [])
split_args (a ∷ args) =
    let (indexed, non_indexed) = split_args args in
    if a.indexed then (a ∷ indexed, non_indexed) else (indexed, a ∷ non_indexed)

-- The topics are texts already.
unfoldable pub topics_to_hex : List Text → List Text
topics_to_hex topics = topics

module _ {P : Type 0} where
  unfoldable pub new_registry : Registry P
  new_registry = record {
    by_topic_address = [];
    by_topic = [];
    addresses = [];
    topic0s = [];
    abi_by_address = [];
  }

  unfoldable pub add_event : Text → AbiEvent → Registry P → Registry P
  add_event addr evt reg =
      let spec : EventSpec = record {
        contract_address = addr;
        event_name = evt.name;
        event = evt;
      } in
      record reg {
        by_topic_address = put (topic_address_key evt.id addr) spec reg.by_topic_address;
        by_topic = put evt.id spec reg.by_topic;
        topic0s = reg.topic0s ++ evt.id ∷ [];
      }

  -- FilterAddresses and FilterTopics.
  unfoldable pub filter_addresses : Registry P → List Text
  filter_addresses reg = reg.addresses

  unfoldable pub filter_topics : Registry P → List Text
  filter_topics reg = topics_to_hex reg.topic0s

  -- The event of a log: by its topic and address, or else by its topic.
  unfoldable pub find_spec : Registry P → Text → Text → Result Error EventSpec
  find_spec reg topic0 addr = elim (lookup (topic_address_key topic0 addr) reg.by_topic_address) [
    | some spec ↦ ok spec
    | none ↦ elim (lookup topic0 reg.by_topic) [
      | some spec ↦ ok spec
      | none ↦ err (failed (lit "unknown event topic"))
    ]
  ]

module _ {P V : Type 0} (abi : Abi P V) where
  -- The loop over the events of a contract.
  unfoldable pub load_events : P → Text → List Text → Registry P → Result Error (Registry P)
  load_events parsed addr [] reg = ok reg
  load_events parsed addr (evt_name ∷ names) reg = elim (abi.event parsed evt_name) [
    | none ↦ err (failed (lit "event not found"))
    | some evt ↦ load_events parsed addr names (add_event addr evt reg)
  ]

  -- One contract: its ABI under its lower-case address, its events, and its address.
  unfoldable pub load_parsed : ContractSpec → P → Registry P → Result Error (Registry P)
  load_parsed c parsed reg =
      let addr = abi.hex_to_address c.address in
      let with_abi : Registry P = record reg {
        abi_by_address = put (to_lower addr) parsed reg.abi_by_address;
      } in
      elim (load_events parsed addr c.events with_abi) [
        | err e ↦ err e
        | ok loaded ↦ ok (record loaded { addresses = loaded.addresses ++ addr ∷ [] })
      ]

  unfoldable pub load_contract : ContractSpec → Registry P → Result Error (Registry P)
  load_contract c reg = elim (abi.read_file c.abi_path) [
    | err e ↦ err (wrap (lit "read abi") [] e)
    | ok b ↦ elim (abi.parse b) [
      | err e ↦ err (wrap (lit "parse abi") [] e)
      | ok parsed ↦ load_parsed c parsed reg
    ]
  ]

  unfoldable pub load_contracts : List ContractSpec → Registry P → Result Error (Registry P)
  load_contracts [] reg = ok reg
  load_contracts (c ∷ cs) reg = elim (load_contract c reg) [
    | err e ↦ err e
    | ok loaded ↦ load_contracts cs loaded
  ]

  unfoldable pub load_registry : List ContractSpec → Result Error (Registry P)
  load_registry contracts = load_contracts contracts new_registry

  -- The arguments of a log, by the event: first the data, then the topics.
  unfoldable pub decode_args : EventSpec → List Text → Text → Result Error (DecodedLog V)
  decode_args spec topics data_bytes =
      let (indexed, non_indexed) = split_args spec.event.inputs in
      elim (abi.unpack non_indexed data_bytes abi.no_args) [
        | err e ↦ err (wrap (lit "unpack data") [] e)
        | ok args ↦ elim (abi.parse_topics indexed topics args) [
          | err e ↦ err (wrap (lit "parse topics") [] e)
          | ok args' ↦ ok (record { event_name = spec.event_name; args = args' })
        ]
      ]

  unfoldable pub decode_log : Registry P → Log → Result Error (DecodedLog V)
  decode_log reg log = elim log.topics [
    | [] ↦ err (failed (lit "log has no topics"))
    | topic0 ∷ topics ↦ elim (find_spec reg topic0 log.address) [
      | err e ↦ err e
      | ok spec ↦ decode_args spec topics log.log_data
    ]
  ]

  -- ArgsJSON
  unfoldable pub args_json : DecodedLog V → Result Error Text
  args_json d = abi.marshal d.args
