-- ===== src/Decode/Registry/Tests.antt =====
-- The registry of one contract, internal/decode/registry.go, on logs of it and of another address.
use blockchain_data_feeds_po.Prelude.{◌≡◌, ◌⊎◌, inl, refl, lit, [], ◌∷◌, put, to_lower, In, false}
use blockchain_data_feeds_po.Prelude.Exec.{ok}
use blockchain_data_feeds_po.Rpc.Interface.{Log}
use blockchain_data_feeds_po.Decode.Registry.{
  EventSpec, Registry, topic_address_key, new_registry, add_event, filter_topics, topics_to_hex,
  load_events, load_parsed, load_contract, load_contracts, load_registry, decode_log, decode_args,
  split_args,
}
use blockchain_data_feeds_po.Decode.Registry.Known.{IsNamed, filtered_known}
use blockchain_data_feeds_po.Decode.Example.{transfer, abi, token}

abbrev spec : EventSpec
spec = record { contract_address = lit "0xA"; event_name = lit "Transfer"; event = transfer }

abbrev loaded : Registry (Unit {0})
loaded = record {
  by_topic_address = (lit "0xt|0xa", spec) ∷ [];
  by_topic = (lit "0xT", spec) ∷ [];
  addresses = lit "0xA" ∷ [];
  topic0s = lit "0xT" ∷ [];
  abi_by_address = (lit "0xa", tt) ∷ [];
}

loads : load_registry abi (token ∷ []) ≡ ok loaded
unfolding load_registry load_contracts load_contract load_parsed load_events add_event new_registry
    put topic_address_key to_lower
loads = refl

abbrev foreign : Log
foreign = record {
  address = lit "0xC";
  topics = lit "0xT" ∷ lit "0x1" ∷ [];
  log_data = lit "d";
  block_number = 3;
  block_hash = lit "0xb3";
  tx_hash = lit "0xt";
  index = 0;
}

-- The arguments that are indexed come apart from the others.
apart :
    (split_args transfer.inputs).1
    ≡ record { name = lit "value"; indexed = false; type_name = lit "uint256" } ∷ []
unfolding split_args
apart = refl

topic_known : In (lit "0xT") (filter_topics loaded)
unfolding filter_topics topics_to_hex
topic_known = inl refl

filtered_known_example :
    (s : EventSpec) × (decode_log abi loaded foreign
      ≡ decode_args abi s (lit "0x1" ∷ []) foreign.log_data)
    × (s.event_name ≡ s.event.name)
    × ((s.event.id ≡ lit "0xT")
        ⊎ (topic_address_key s.event.id s.contract_address
            ≡ topic_address_key (lit "0xT") foreign.address))
    × IsNamed s.event.name (decode_log abi loaded foreign)
filtered_known_example =
    filtered_known abi (token ∷ []) loaded foreign (lit "0xT") (lit "0x1" ∷ []) loads refl
      topic_known
