-- ===== src/Ui/Send/Checked.antt =====
-- What handleSendTx of cmd/ui/main.go lets through to the node.
use blockchain_data_feeds_po.Prelude.{
  ◌≡◌, ◌⊎◌, refl, true, Text, lit, text_eq, to_lower, [], ◌∷◌, ◌≢◌, List-cases, arith, inl, inr,
  Bool-cases,
}
use blockchain_data_feeds_po.Prelude.Exec.{Error, Result, ok, Result-cases}
use blockchain_data_feeds_po.Rpc.Client.{Json, Transport, Client, Conn, call, fields}
use blockchain_data_feeds_po.Ui.Send.{
  SendRequest, Addresses, Fields, refused, not_allowed, sender, rest_fields, amount_field,
  tx_fields, check_request, respond, handle_send_tx,
}

-- A transaction with this sender and receiver.
abbrev pub IsFrom : Text → Text → Fields → Type 0
IsFrom from_addr to_addr tx =
    (rest : Fields) × (tx ≡ (lit "from", to_lower from_addr) ∷ (lit "to", to_lower to_addr) ∷ rest)

tx_fields-IsFrom :
    (a : Addresses) (from_addr : Text) (req : SendRequest) (tx : Fields)
    → tx_fields a from_addr req ≡ ok tx
    → IsFrom from_addr req.to_addr tx
unfolding tx_fields
tx_fields-IsFrom a from_addr req tx h =
    elim (Result-cases (amount_field a (lit "value") (lit "invalid value_wei") req.value_wei)) [
      | inl (value, e) ↦
          elim (Result-cases
            (amount_field a (lit "gasPrice") (lit "invalid gas_price_wei") req.gas_price)) [
              | inl (gas_price, f) ↦ (rest_fields a req value gas_price, ground (arith, e, f, h))
              | inr (x, f) ↦ absurd (ground (arith, e, f, h))
            ]
      | inr (x, e) ↦ absurd (ground (arith, e, h))
    ]

check_request_lem :
    (a : Addresses) (default_from : Text) (req : SendRequest) (tx : Fields)
    → check_request a default_from req ≡ ok tx
    → (a.is_hex_address (sender default_from req) ≡ true)
      × (a.is_hex_address req.to_addr ≡ true)
      × (tx_fields a (sender default_from req) req ≡ ok tx)
unfolding check_request
check_request_lem a default_from req tx h = ground arith

-- Who sends: the sender of the request, or the default where it has none.
abbrev pub Sends : Text → SendRequest → Text → Type 0
Sends default_from req from_addr =
    ((req.from_addr ≡ []) × (from_addr ≡ default_from))
    ⊎ ((req.from_addr ≢ []) × (from_addr ≡ req.from_addr))

sender-Sends :
    (default_from : Text) (req : SendRequest) → Sends default_from req (sender default_from req)
sender-Sends default_from req = elim (List-cases req.from_addr) [
  | inl none_given ↦ inl (none_given, rw none_given refl)
  | inr (c, cs, given) ↦ inr (ground (arith, given), rw given refl)
]

module _ {C R : Type 0} (t : Transport C) (json : Json) (client : Client R) where
  -- Either the handler asks the node for nothing, and refuses the request or its method; or the
  -- method is POST, the sender, which is the default where none is given, and the receiver are
  -- addresses, and the handler makes one call, with a transaction from the one to the other in
  -- lower case, and responds with its result.
  pub handle_send_tx_lem :
      (a : Addresses) (default_from method : Text) (body : Result Error SendRequest) (c : Conn C)
      → (((handle_send_tx t json client a default_from method body c).1 ≡ c)
          × (((handle_send_tx t json client a default_from method body c).0 ≡ not_allowed)
              ⊎ ((e : Error) × ((handle_send_tx t json client a default_from method body c).0
                    ≡ refused e))))
        ⊎ ((req : SendRequest) × (tx : Fields) × (body ≡ ok req)
            × (text_eq method (lit "POST") ≡ true)
            × Sends default_from req (sender default_from req)
            × (a.is_hex_address (sender default_from req) ≡ true)
            × (a.is_hex_address req.to_addr ≡ true)
            × IsFrom (sender default_from req) req.to_addr tx
            × (handle_send_tx t json client a default_from method body c
                ≡ respond t json client (
                    call t json client (lit "eth_sendTransaction") (fields tx ∷ []) json.string c)))
  unfolding handle_send_tx
  handle_send_tx_lem a default_from method body c =
      elim (Bool-cases (text_eq method (lit "POST"))) [
        | inr other ↦ inl (rw other refl, inl (rw other refl))
        | inl post ↦ elim (Result-cases body) [
          | inr (x, e) ↦ inl (rw (post, e) refl, inr (x, rw (post, e) refl))
          | inl (req, e) ↦ elim (Result-cases (check_request a default_from req)) [
            | inr (x, f) ↦ inl (rw (post, e, f) refl, inr (x, rw (post, e, f) refl))
            | inl (tx, f) ↦
                let (from_ok, to_ok, made) = check_request_lem a default_from req tx f in
                inr (
                  req,
                  tx,
                  e,
                  post,
                  sender-Sends default_from req,
                  from_ok,
                  to_ok,
                  tx_fields-IsFrom a (sender default_from req) req tx made,
                  rw (post, e, f) refl,
                )
          ]
        ]
      ]
