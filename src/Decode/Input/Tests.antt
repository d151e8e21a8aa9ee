-- ===== src/Decode/Input/Tests.antt =====
-- Call data of one method, internal/decode/input.go.
use blockchain_data_feeds_po.Prelude.{
  ◌≢◌, ◌≡◌, ◌⊎◌, refl, Text, lit, [], ◌∷◌, text_eq, to_lower, lookup, some, none, has_prefix,
}
use blockchain_data_feeds_po.Prelude.Exec.{Error, ok, err}
use blockchain_data_feeds_po.Mempool.Subscriber.Hex.{hex_digit}
use blockchain_data_feeds_po.Decode.Registry.{Registry}
use blockchain_data_feeds_po.Decode.Input.{
  decode_input, decode_call, decode_hex, decode_string, trim_prefix,
}
use blockchain_data_feeds_po.Decode.Input.Bytes.{Bare, Refused, Decoded, decode_input_lem}
use blockchain_data_feeds_po.Decode.Example.{abi}

abbrev known : Registry (Unit {0})
known = record {
  by_topic_address = [];
  by_topic = [];
  addresses = [];
  topic0s = [];
  abi_by_address = (lit "0xa", tt) ∷ [];
}

paid :
    decode_input abi known (lit "0xA") (lit "0xa9059cBB01")
    ≡ ok (some (record { method = lit "pay"; args = 1 ∷ [] }))
unfolding decode_input decode_hex decode_call decode_string trim_prefix hex_digit has_prefix text_eq
    to_lower lookup
paid = refl

decode_input_lem_example :
    (((lit "0xa9059cBB01" ≡ []) ⊎ (lit "0xa9059cBB01" ≡ lit "0x"))
      × (decode_input abi known (lit "0xA") (lit "0xa9059cBB01") ≡ ok none))
    ⊎ ((lit "0xa9059cBB01" ≢ [])
        × (lit "0xa9059cBB01" ≢ lit "0x")
        × ((t : Text) × Bare (lit "0xa9059cBB01") t
            × (((e : Error) × (decode_input abi known (lit "0xA") (lit "0xa9059cBB01") ≡ err e)
                  × Refused abi known (lit "0xA") t)
                ⊎ Decoded abi known
                    (lit "0xA")
                    t
                    (decode_input abi known (lit "0xA") (lit "0xa9059cBB01")))))
decode_input_lem_example = decode_input_lem abi known (lit "0xA") (lit "0xa9059cBB01")
