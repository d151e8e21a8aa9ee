-- ===== src/Mempool/Fetcher/Hands.antt =====
-- handleHash of internal/mempool/fetcher.go: what becomes of a hash that is taken up.
use blockchain_data_feeds_po.Mempool.Fetcher.{amount, recipient, or_zero, zero_address}
use blockchain_data_feeds_po.Store.Types.{Time}
use blockchain_data_feeds_po.Store.Db.{SqliteStore}
use blockchain_data_feeds_po.Prelude.Exec.{Error, err}
use blockchain_data_feeds_po.Prelude.{
  List-cases, ◌∷◌, Option, none, lit, is_empty, false, subst, sym, [], ℕ, zero, suc, ◌≡◌, refl,
  Text, to_lower, some, arith, inl, inr, ◌⊎◌, Option-cases,
}
use blockchain_data_feeds_po.Prelude.Exec.{ok, Result-cases}
use blockchain_data_feeds_po.Store.Types.{MempoolTx}
use blockchain_data_feeds_po.Store.Db.{Database}
use blockchain_data_feeds_po.Rpc.Interface.{Rpc, RpcTransaction}
use blockchain_data_feeds_po.Mempool.Tracker.Queue.{IsSound}
use blockchain_data_feeds_po.Mempool.Handlers.{Feed, handle_tx}
use blockchain_data_feeds_po.Mempool.Handlers.Sound.{handle_tx-IsSound}
use blockchain_data_feeds_po.Mempool.Fetcher.{
  Format, to_mempool_tx, with_input, ask, fetch, hand_over, handle_hash,
}

-- An amount that the node may leave out.
abbrev pub Written : Format → Text → Option ℕ → Text → Type 0
Written fmt absent given t =
    ((given ≡ none) × (t ≡ absent)) ⊎ ((n : ℕ) × (given ≡ some n) × (t ≡ fmt.decimal_text n))

-- A receiver, or the zero address where the node gives none.
abbrev pub Received : Option Text → Text → Type 0
Received given t =
    (((given ≡ none) ⊎ (given ≡ some [])) × (t ≡ lit "0x0000000000000000000000000000000000000000"))
    ⊎ ((to : Text) × (given ≡ some to) × (is_empty to ≡ false) × (t ≡ to_lower to))

-- What the tracker is given of a transaction of the node, at the time `now`.
pub record Taken (fmt : Format) (chain_id : ℕ) (now : Time) (raw : RpcTransaction) (tx : MempoolTx)
    : Type 0 where
  pub chain : tx.chain_id ≡ chain_id
  pub hash : tx.hash ≡ to_lower raw.hash
  pub sender : tx.from_addr ≡ to_lower raw.from_addr
  pub receiver : Received raw.to_addr tx.to_addr
  pub nonce : tx.nonce ≡ raw.nonce
  pub value : Written fmt (lit "0") raw.value tx.value
  pub gas : tx.gas ≡ raw.gas
  pub gas_price : Written fmt [] raw.gas_price tx.gas_price
  pub max_fee : Written fmt [] raw.max_fee_per_gas tx.max_fee_per_gas
  pub max_priority_fee : Written fmt [] raw.max_priority_fee_per_gas tx.max_priority_fee_per_gas
  pub typed :
      ((raw.tx_type ≡ none) × (tx.tx_type ≡ 0))
      ⊎ ((n : ℕ) × (raw.tx_type ≡ some n) × (tx.tx_type ≡ n))
  pub input :
      ((raw.input ≡ []) × (tx.input ≡ lit "0x"))
      ⊎ ((is_empty raw.input ≡ false) × (tx.input ≡ raw.input))
  pub decoded :
      ((fmt.decode_input tx.to_addr tx.input ≡ none) × (tx.decoded_input_json ≡ []))
      ⊎ ((json : Text) × (fmt.decode_input tx.to_addr tx.input ≡ some json)
          × (tx.decoded_input_json ≡ json))
  pub status : tx.status ≡ lit "pending"
  pub first_seen : tx.first_seen_at ≡ now
  pub last_seen : tx.last_seen_at ≡ now
  pub inserted : tx.inserted_at ≡ now
  pub no_block : tx.mined_block_number ≡ 0
  pub no_block_hash : tx.mined_block_hash ≡ []
  pub no_place : tx.mined_tx_index ≡ 0
  pub not_replaced : tx.replaced_by_tx_hash ≡ []

to_lower-zero : to_lower zero_address ≡ lit "0x0000000000000000000000000000000000000000"
unfolding to_lower
to_lower-zero = refl

amount-Written :
    (fmt : Format) (absent : Text) (n : Option ℕ) → Written fmt absent n (amount fmt absent n)
unfolding amount
amount-Written fmt absent none = inl (refl, refl)
amount-Written fmt absent (some m) = inr (m, refl, refl)

recipient-Received : (given : Option Text) → Received given (to_lower (recipient given))
unfolding recipient
recipient-Received none = inl (inl refl, to_lower-zero)
recipient-Received (some []) = inl (inr refl, to_lower-zero)
recipient-Received (some (c ∷ to)) = inr (c ∷ to, refl, refl, refl)

or_zero_cases :
    (given : Option ℕ)
    → ((given ≡ none) × (or_zero given ≡ 0)) ⊎ ((n : ℕ) × (given ≡ some n) × (or_zero given ≡ n))
unfolding or_zero
or_zero_cases none = inl (refl, refl)
or_zero_cases (some n) = inr (n, refl, refl)

-- The decoded input of a transaction, and nothing else, is set from the decoder.
with_input_lem :
    (fmt : Format) (tx : MempoolTx)
    → tx.decoded_input_json ≡ []
    → (t : Text) × (with_input fmt tx ≡ record tx { decoded_input_json = t })
      × (((fmt.decode_input tx.to_addr tx.input ≡ none) × (t ≡ []))
          ⊎ ((json : Text) × (fmt.decode_input tx.to_addr tx.input ≡ some json) × (t ≡ json)))
unfolding with_input
with_input_lem fmt tx h = elim (Option-cases (fmt.decode_input tx.to_addr tx.input)) [
  | inl e ↦ ([], ground (arith, e, h), inl (e, refl))
  | inr (json, e) ↦ (json, ground (arith, e), inr (json, e, refl))
]

to_mempool_tx-Taken :
    (fmt : Format) (chain_id : ℕ) (now : Time) (raw : RpcTransaction)
    → Taken fmt chain_id now raw (with_input fmt (to_mempool_tx fmt chain_id now raw))
unfolding to_mempool_tx
to_mempool_tx-Taken fmt chain_id now raw =
    let (t, same, made) = with_input_lem fmt (to_mempool_tx fmt chain_id now raw) refl in
    rw same (record {
      chain = refl;
      hash = refl;
      sender = refl;
      receiver = recipient-Received raw.to_addr;
      nonce = refl;
      value = amount-Written fmt (lit "0") raw.value;
      gas = refl;
      gas_price = amount-Written fmt [] raw.gas_price;
      max_fee = amount-Written fmt [] raw.max_fee_per_gas;
      max_priority_fee = amount-Written fmt [] raw.max_priority_fee_per_gas;
      typed = or_zero_cases raw.tx_type;
      input = elim (List-cases raw.input) [
        | inl e ↦ inl (e, ground (arith, e))
        | inr (c, cs, e) ↦ inr (ground (arith, e), ground (arith, e))
      ];
      decoded = made;
      status = refl;
      first_seen = refl;
      last_seen = refl;
      inserted = refl;
      no_block = refl;
      no_block_hash = refl;
      no_place = refl;
      not_replaced = refl;
    })

module _ {C : Type 0} (rpc : Rpc C) (d : Database) (fmt : Format) where
  -- Asking the node touches neither the tracker nor the store.
  fetch-keeps :
      (n : ℕ) (hash : Text) (f : Feed C)
      → ((fetch rpc d fmt n hash f).1.tracker ≡ f.tracker)
        × ((fetch rpc d fmt n hash f).1.store ≡ f.store)
  unfolding fetch
  fetch-keeps zero hash f = (refl, refl)
  fetch-keeps (suc n) hash f = elim (Result-cases (ask rpc d fmt hash f).0) [
    | inl (answer, e) ↦ elim (Option-cases answer) [
      | inl a ↦ ground (arith, e, a, fetch-keeps n hash (ask rpc d fmt hash f).1)
      | inr (tx, a) ↦ ground (arith, e, a)
    ]
    | inr (x, e) ↦ ground (arith, e)
  ]

  pub handle_hash_cases :
      (chain_id : ℕ) (hash : Text) (f : Feed C)
      → (((handle_hash rpc d fmt chain_id hash f).tracker ≡ f.tracker)
          × ((handle_hash rpc d fmt chain_id hash f).store ≡ f.store)
          × (((fetch rpc d fmt 6 hash f).0 ≡ ok none)
              ⊎ ((x : Error) × ((fetch rpc d fmt 6 hash f).0 ≡ err x))))
        ⊎ ((g : Feed C) × (g.tracker ≡ f.tracker)
            × (g.store ≡ f.store)
            × (raw : RpcTransaction) × (tx : MempoolTx) × ((fetch rpc d fmt 6 hash f).0
                ≡ ok (some raw))
            × (handle_hash rpc d fmt chain_id hash f ≡ (handle_tx rpc d tx g).1)
            × Taken fmt chain_id (d.now f.store.calls) raw tx)
  unfolding handle_hash hand_over
  handle_hash_cases chain_id hash f =
      let g = (fetch rpc d fmt 6 hash f).1 in
      let (t, s) = fetch-keeps 6 hash f in
      elim (Result-cases (fetch rpc d fmt 6 hash f).0) [
        | inl (answer, e) ↦ elim (Option-cases answer) [
          | inl a ↦
              inl (ground (arith, e, a, t), ground (arith, e, a, s), inl (ground (arith, e, a)))
          | inr (raw, a) ↦
              let tx = with_input fmt (to_mempool_tx fmt chain_id (d.now g.store.calls) raw) in
              inr (
                g,
                t,
                s,
                raw,
                tx,
                ground (arith, e, a),
                ground (arith, e, a),
                subst (λ (k : SqliteStore). Taken fmt chain_id (d.now k.calls) raw tx) s
                    (to_mempool_tx-Taken fmt chain_id (d.now g.store.calls) raw),
              )
        ]
        | inr (x, e) ↦ inl (ground (arith, e, t), ground (arith, e, s), inr (x, e))
      ]

  -- A hash that is taken up keeps a sound receipt queue sound, whatever the node answers.
  pub handle_hash-IsSound :
      (chain_id : ℕ) (hash : Text) (f : Feed C)
      → IsSound f.tracker
      → IsSound (handle_hash rpc d fmt chain_id hash f).tracker
  handle_hash-IsSound chain_id hash f h = elim (handle_hash_cases chain_id hash f) [
    | inl (t, s, _) ↦ subst IsSound (sym t) h
    | inr (g, t, s, raw, tx, e, same, _) ↦
        subst (λ (k : Feed C). IsSound k.tracker) (sym same)
          (handle_tx-IsSound rpc d tx g (subst IsSound (sym t) h))
  ]
