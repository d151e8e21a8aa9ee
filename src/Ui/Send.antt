-- ===== src/Ui/Send.antt =====
-- The handlers of cmd/ui/main.go that ask the node: handleAccounts, handleSendTx and handleMine.
pub mod Checked
mod Tests
use blockchain_data_feeds_po.Prelude.{
  ℕ, ℤ, Bool, ◌||◌, ◌&&◌, not, Text, lit, is_empty, text_eq, to_lower, Option, none, some, List, [],
  ◌∷◌, ◌++◌, ltb, if◌then◌else◌,
}
use blockchain_data_feeds_po.Prelude.Exec.{Error, failed, Result, ok, err, Exec, pure, ◌>>=◌}
use blockchain_data_feeds_po.Rpc.Client.{Json, Transport, Client, Conn, call, fields}
use blockchain_data_feeds_po.Ui.Numbers.{set_string}

pub record SendRequest : Type 0 where
  pub from_addr : Text
  pub to_addr : Text
  pub value_wei : Text
  pub gas_limit : ℕ
  pub gas_price : Text
  pub nonce : Option ℕ

-- go-ethereum's hexutil and `common.IsHexAddress`.
pub record Addresses : Type 0 where
  pub encode_big : ℤ → Text
  pub encode_uint64 : ℕ → Text
  pub is_hex_address : Text → Bool

abbrev pub Fields : Type 0
Fields = List (Text × Text)

-- A response: the JSON of a value, an error with status 400, or status 405.
pub data Response (A : Type 0) : Type 0 where
  json_value : A → Response A
  refused : Error → Response A
  not_allowed : Response A

abbrev pub or_invalid : Addresses → Text → Text → Option ℤ → Result Error Fields
or_invalid a key message none = err (failed message)
or_invalid a key message (some n) = ok ((key, a.encode_big n) ∷ [])

-- An amount in decimal, if there is one.
unfoldable pub amount_field : Addresses → Text → Text → Text → Result Error Fields
amount_field a key message given =
    if is_empty given then ok [] else or_invalid a key message (set_string given)

abbrev nonce_field : Addresses → Option ℕ → Fields
nonce_field a none = []
nonce_field a (some n) = (lit "nonce", a.encode_uint64 n) ∷ []

abbrev sender : Text → SendRequest → Text
sender default_from req = if is_empty req.from_addr then default_from else req.from_addr

abbrev gas_field : Addresses → ℕ → Fields
gas_field a gas_limit = if ltb 0 gas_limit then (lit "gas", a.encode_uint64 gas_limit) ∷ [] else []

abbrev pub rest_fields : Addresses → SendRequest → Fields → Fields → Fields
rest_fields a req value gas_price =
    value ++ gas_field a req.gas_limit ++ gas_price ++ nonce_field a req.nonce

-- The transaction, from checked addresses.
unfoldable pub tx_fields : Addresses → Text → SendRequest → Result Error Fields
tx_fields a from_addr req =
    elim (amount_field a (lit "value") (lit "invalid value_wei") req.value_wei) [
      | err e ↦ err e
      | ok value ↦
          elim (amount_field a (lit "gasPrice") (lit "invalid gas_price_wei") req.gas_price) [
            | err e ↦ err e
            | ok gas_price ↦ ok (
                (lit "from", to_lower from_addr)
                ∷ (lit "to", to_lower req.to_addr)
                ∷ rest_fields a req value gas_price)
          ]
    ]

-- The checks of the addresses, and the transaction.
unfoldable pub check_request : Addresses → Text → SendRequest → Result Error Fields
check_request a default_from req =
    let from_addr = sender default_from req in
    if is_empty from_addr || is_empty req.to_addr
    then err (failed (lit "from and to are required"))
    else if not (a.is_hex_address from_addr) || not (a.is_hex_address req.to_addr)
    then err (failed (lit "invalid from/to address"))
    else tx_fields a from_addr req

module _ {C R : Type 0} (t : Transport C) (json : Json) (client : Client R) where
  unfoldable pub respond : {A : Type 0} → Result Error A × Conn C → Response A × Conn C
  respond (ok a, c) = (json_value a, c)
  respond (err e, c) = (refused e, c)

  unfoldable pub handle_accounts : Conn C → Response (List Text) × Conn C
  handle_accounts c = respond (call t json client (lit "eth_accounts") [] json.strings c)

  -- The method, the body as it is decoded, and the default sender.
  unfoldable pub handle_send_tx :
      Addresses → Text → Text → Result Error SendRequest → Conn C → Response Text × Conn C
  handle_send_tx a default_from method body c =
      if not (text_eq method (lit "POST")) then (not_allowed, c) else elim body [
        | err e ↦ (refused e, c)
        | ok req ↦ elim (check_request a default_from req) [
          | err e ↦ (refused e, c)
          | ok tx ↦
              respond
                (call t json client (lit "eth_sendTransaction") (fields tx ∷ []) json.string c)
        ]
      ]

  unfoldable pub handle_mine : Text → Conn C → Response Text × Conn C
  handle_mine method c =
      if not (text_eq method (lit "POST"))
      then (not_allowed, c)
      else (let (r, c') = call t json client (lit "evm_mine") [] json.string c in
          elim r [ ok res ↦ (json_value (lit "ok"), c') | err e ↦ (refused e, c') ])
