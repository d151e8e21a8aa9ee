-- ===== src/Decode/Registry/Known.antt =====
-- Which logs the registry of internal/decode/registry.go knows an event for.
use blockchain_data_feeds_po.Prelude.Exec.{Error, Result, err, Result-cases}
use blockchain_data_feeds_po.Prelude.{
  ◌≡◌, Text, some, List, [], ◌∷◌, ◌++◌, ◌⊎◌, inl, inr, In, arith, Bool-cases, text_eq, text_eq_iff,
  lookup, lookup-put, subst, Option-cases, refl,
}
use blockchain_data_feeds_po.Decode.Abi.{AbiEvent, Abi}
use blockchain_data_feeds_po.Decode.Registry.{
  EventSpec, Registry, topic_address_key, add_event, new_registry, load_events, load_contract,
  load_contracts, load_registry, ok, ContractSpec, load_parsed, filter_topics, topics_to_hex, put,
  decode_log, find_spec, DecodedLog, split_args, to_lower, Log, decode_args,
}

-- Each event stands under its own topic, each event under its own key, and each topic of the filter
-- has its event.
pub record IsKeyed {P : Type 0} (reg : Registry P) : Type 0 where
  pub by_topic :
      (t : Text) (spec : EventSpec) → lookup t reg.by_topic ≡ some spec → spec.event.id ≡ t
  pub by_key :
      (k : Text) (spec : EventSpec)
      → lookup k reg.by_topic_address ≡ some spec
      → topic_address_key spec.event.id spec.contract_address ≡ k
  pub named :
      (t : Text) (spec : EventSpec)
      → lookup t reg.by_topic ≡ some spec
      → spec.event_name ≡ spec.event.name
  pub named_key :
      (k : Text) (spec : EventSpec)
      → lookup k reg.by_topic_address ≡ some spec
      → spec.event_name ≡ spec.event.name
  pub known :
      (t : Text) → In t reg.topic0s → (spec : EventSpec) × (lookup t reg.by_topic ≡ some spec)

In-append : {A : Type 0} (a x : A) (xs : List A) → In a (xs ++ x ∷ []) → In a xs ⊎ (a ≡ x)
In-append a x [] (inl e) = inr e
In-append a x [] (inr i) = elim i [ ]
In-append a x (y ∷ xs) (inl e) = inl (inl e)
In-append a x (y ∷ xs) (inr i) = elim (In-append a x xs i) [ inl j ↦ inl (inr j) | inr e ↦ inr e ]

module _ {P : Type 0} where
  add_event-IsKeyed :
      (addr : Text) (evt : AbiEvent) (reg : Registry P)
      → IsKeyed reg
      → IsKeyed (add_event addr evt reg)
  unfolding add_event
  add_event-IsKeyed addr evt reg k =
      let spec : EventSpec = record {
        contract_address = addr;
        event_name = evt.name;
        event = evt;
      } in
      let key = topic_address_key evt.id addr in
      record {
        by_topic = λ t s h. elim (Bool-cases (text_eq evt.id t)) [
          | inl e ↦
              ground (arith, lookup-put evt.id t spec reg.by_topic, text_eq_iff evt.id t, e, h)
          | inr e ↦ k.by_topic t s (ground (arith, lookup-put evt.id t spec reg.by_topic, e, h))
        ];
        by_key = λ t s h. elim (Bool-cases (text_eq key t)) [
          | inl e ↦
              ground (arith, lookup-put key t spec reg.by_topic_address, text_eq_iff key t, e, h)
          | inr e ↦ k.by_key t s (ground (arith, lookup-put key t spec reg.by_topic_address, e, h))
        ];
        named = λ t s h. elim (Bool-cases (text_eq evt.id t)) [
          | inl e ↦ ground (arith, lookup-put evt.id t spec reg.by_topic, e, h)
          | inr e ↦ k.named t s (ground (arith, lookup-put evt.id t spec reg.by_topic, e, h))
        ];
        named_key = λ t s h. elim (Bool-cases (text_eq key t)) [
          | inl e ↦ ground (arith, lookup-put key t spec reg.by_topic_address, e, h)
          | inr e ↦
              k.named_key t s (ground (arith, lookup-put key t spec reg.by_topic_address, e, h))
        ];
        known = λ t i. elim (Bool-cases (text_eq evt.id t)) [
          | inl e ↦ (spec, ground (arith, lookup-put evt.id t spec reg.by_topic, e))
          | inr e ↦ elim (In-append t evt.id reg.topic0s i) [
            | inl old ↦
                let (s, h) = k.known t old in
                (s, ground (arith, lookup-put evt.id t spec reg.by_topic, e, h))
            | inr same ↦ absurd (ground (arith, text_eq_iff evt.id t, e, same))
          ]
        ];
      }

  new_registry-IsKeyed : IsKeyed {P = P} new_registry
  unfolding new_registry lookup
  new_registry-IsKeyed = record {
    by_topic = λ t s h. cc;
    by_key = λ t s h. cc;
    named = λ t s h. cc;
    named_key = λ t s h. cc;
    known = λ t i. elim i [ ];
  }

-- A log that was decoded has this name.
abbrev pub IsNamed : {V : Type 0} → Text → Result Error (DecodedLog V) → Type 0
IsNamed name (ok d) = d.event_name ≡ name
IsNamed name (err e) = Unit

module _ {P V : Type 0} (abi : Abi P V) where
  decode_args-IsNamed :
      (spec : EventSpec) (topics : List Text) (data_bytes : Text)
      → IsNamed spec.event_name (decode_args abi spec topics data_bytes)
  unfolding decode_args
  decode_args-IsNamed spec topics data_bytes =
      let split = split_args spec.event.inputs in
      elim (Result-cases (abi.unpack split.1 data_bytes abi.no_args)) [
        | inr (x, e) ↦ rw (decode_args, e) tt
        | inl (args, e) ↦ elim (Result-cases (abi.parse_topics split.0 topics args)) [
          | inr (x, f) ↦ rw (decode_args, e, f) tt
          | inl (args', f) ↦ rw (decode_args, e, f) refl
        ]
      ]

  known_log-IsNamed :
      (reg : Registry P) (log : Log) (spec : EventSpec) (topics : List Text)
      → decode_log abi reg log ≡ decode_args abi spec topics log.log_data
      → spec.event_name ≡ spec.event.name
      → IsNamed spec.event.name (decode_log abi reg log)
  known_log-IsNamed reg log spec topics e name =
      subst (λ n. IsNamed n (decode_log abi reg log)) name
        (rw e (decode_args-IsNamed spec topics log.log_data))

  load_events-IsKeyed :
      (parsed : P) (addr : Text) (names : List Text) (reg done : Registry P)
      → IsKeyed reg
      → load_events abi parsed addr names reg ≡ ok done
      → IsKeyed done
  unfolding load_events
  load_events-IsKeyed parsed addr [] reg done k h = subst IsKeyed (ground (arith, h)) k
  load_events-IsKeyed parsed addr (n ∷ names) reg done k h =
      elim (Option-cases (abi.event parsed n)) [
        | inl missing ↦ absurd (ground (arith, missing, h))
        | inr (evt, e) ↦
            load_events-IsKeyed parsed addr names (add_event addr evt reg) done
              (add_event-IsKeyed addr evt reg k) (ground (arith, e, h))
      ]

  -- A record that has the maps and the topics of another.
  same-IsKeyed :
      (a b : Registry P)
      → a.by_topic ≡ b.by_topic
      → a.by_topic_address ≡ b.by_topic_address
      → a.topic0s ≡ b.topic0s
      → IsKeyed a
      → IsKeyed b
  same-IsKeyed a b e f g k = record {
    by_topic = λ t s h. k.by_topic t s (rw e h);
    by_key = λ t s h. k.by_key t s (rw f h);
    named = λ t s h. k.named t s (rw e h);
    named_key = λ t s h. k.named_key t s (rw f h);
    known = λ t i. let (s, h) = k.known t (rw g i) in (s, rw (← e) h);
  }

  load_contract-IsKeyed :
      (c : ContractSpec) (reg done : Registry P)
      → IsKeyed reg
      → load_contract abi c reg ≡ ok done
      → IsKeyed done
  unfolding load_contract load_parsed
  load_contract-IsKeyed c reg done k h = elim (Result-cases (abi.read_file c.abi_path)) [
    | inl (b, e) ↦ elim (Result-cases (abi.parse b)) [
      | inl (parsed, f) ↦
          let addr = abi.hex_to_address c.address in
          let begun : Registry P = record reg {
            abi_by_address = put (to_lower addr) parsed reg.abi_by_address;
          } in
          elim (Result-cases (load_events abi parsed addr c.events begun)) [
            | inl (loaded, g) ↦
                let kept =
                  load_events-IsKeyed parsed addr c.events begun loaded
                    (same-IsKeyed reg begun refl refl refl k) g in
                same-IsKeyed loaded done (ground (arith, e, f, g, h)) (ground (arith, e, f, g, h))
                  (ground (arith, e, f, g, h)) kept
            | inr (x, g) ↦ absurd (ground (arith, e, f, g, h))
          ]
      | inr (x, f) ↦ absurd (ground (arith, e, f, h))
    ]
    | inr (x, e) ↦ absurd (ground (arith, e, h))
  ]

  load_contracts-IsKeyed :
      (cs : List ContractSpec) (reg done : Registry P)
      → IsKeyed reg
      → load_contracts abi cs reg ≡ ok done
      → IsKeyed done
  unfolding load_contracts
  load_contracts-IsKeyed [] reg done k h = subst IsKeyed (ground (arith, h)) k
  load_contracts-IsKeyed (c ∷ cs) reg done k h = elim (Result-cases (load_contract abi c reg)) [
    | inl (loaded, e) ↦
        load_contracts-IsKeyed cs loaded done (load_contract-IsKeyed c reg loaded k e)
          (ground (arith, e, h))
    | inr (x, e) ↦ absurd (ground (arith, e, h))
  ]

  -- A registry that was loaded knows an event for every log that its filter lets through by topic,
  -- from whatever address: one with the log's topic, or one whose topic and contract make the same
  -- key, upper and lower case aside, as the log's topic and address. The log is decoded as that
  -- event, and what comes out has the event's name in the ABI.
  pub filtered_known :
      (contracts : List ContractSpec) (reg : Registry P) (log : Log) (topic0 : Text)
      (topics : List Text)
      → load_registry abi contracts ≡ ok reg
      → log.topics ≡ topic0 ∷ topics
      → In topic0 (filter_topics reg)
      → (spec : EventSpec) × (decode_log abi reg log ≡ decode_args abi spec topics log.log_data)
        × (spec.event_name ≡ spec.event.name)
        × ((spec.event.id ≡ topic0)
            ⊎ (topic_address_key spec.event.id spec.contract_address
                ≡ topic_address_key topic0 log.address))
        × IsNamed spec.event.name (decode_log abi reg log)
  unfolding load_registry filter_topics topics_to_hex decode_log find_spec
  filtered_known contracts reg log topic0 topics loaded shape mem =
      let k = load_contracts-IsKeyed contracts new_registry reg new_registry-IsKeyed loaded in
      elim (Option-cases (lookup (topic_address_key topic0 log.address) reg.by_topic_address)) [
        | inr (spec, e) ↦
            let same : decode_log abi reg log ≡ decode_args abi spec topics log.log_data =
              ground (arith, shape, e) in
            let name = k.named_key (topic_address_key topic0 log.address) spec e in
            (
              spec,
              same,
              name,
              inr (k.by_key (topic_address_key topic0 log.address) spec e),
              known_log-IsNamed reg log spec topics same name,
            )
        | inl none_there ↦
            let (spec, e) = k.known topic0 mem in
            let same : decode_log abi reg log ≡ decode_args abi spec topics log.log_data =
              ground (arith, shape, none_there, e) in
            let name = k.named topic0 spec e in
            (
              spec,
              same,
              name,
              inl (k.by_topic topic0 spec e),
              known_log-IsNamed reg log spec topics same name,
            )
      ]
