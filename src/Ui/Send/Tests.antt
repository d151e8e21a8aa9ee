-- ===== src/Ui/Send/Tests.antt =====
-- A transaction that cmd/ui/main.go sends, and numbers that it reads.
use blockchain_data_feeds_po.Prelude.{
  pos, negsuc, ◌≡◌, ◌⊎◌, refl, true, lit, [], ◌∷◌, some, text_eq,
}
use blockchain_data_feeds_po.Prelude.Exec.{Error, Result, ok}
use blockchain_data_feeds_po.Rpc.Client.{call, fields}
use blockchain_data_feeds_po.Rpc.Client.Example.{transport, json, client, start}
use blockchain_data_feeds_po.Ui.Numbers.{parse_int, set_string, natural, digits_from}
use blockchain_data_feeds_po.Ui.Send.{
  SendRequest, Addresses, Fields, refused, not_allowed, sender, handle_send_tx, respond,
}
use blockchain_data_feeds_po.Ui.Send.Checked.{IsFrom, Sends, handle_send_tx_lem}

negative_limit : parse_int (lit "-12") (pos 100) ≡ negsuc 11
unfolding parse_int set_string natural digits_from
negative_limit = refl

-- A number that does not fit is the default.
large_limit : parse_int (lit "9223372036854775808") (pos 100) ≡ pos 100
unfolding parse_int set_string natural digits_from
large_limit = refl

abbrev addresses : Addresses
addresses = record {
  encode_big = λ n. lit "0x1";
  encode_uint64 = λ n. lit "0x2";
  is_hex_address = λ a. true;
}

abbrev request : SendRequest
request = record {
  from_addr = [];
  to_addr = lit "0xB";
  value_wei = lit "1";
  gas_limit = 0;
  gas_price = [];
  nonce = some 2;
}

abbrev body : Result Error SendRequest
body = ok request

handle_send_tx_lem_example :
    (((handle_send_tx transport json client addresses (lit "0xA") (lit "POST") body start).1
        ≡ start)
      × (((handle_send_tx transport json client addresses (lit "0xA") (lit "POST") body start).0
            ≡ not_allowed)
          ⊎ ((e : Error) × ((handle_send_tx transport json client addresses
                  (lit "0xA")
                  (lit "POST")
                  body
                  start).0
                ≡ refused e))))
    ⊎ ((req : SendRequest) × (tx : Fields) × (body ≡ ok req)
        × (text_eq (lit "POST") (lit "POST") ≡ true)
        × Sends (lit "0xA") req (sender (lit "0xA") req)
        × (addresses.is_hex_address (sender (lit "0xA") req) ≡ true)
        × (addresses.is_hex_address req.to_addr ≡ true)
        × IsFrom (sender (lit "0xA") req) req.to_addr tx
        × (handle_send_tx transport json client addresses (lit "0xA") (lit "POST") body start
            ≡ respond transport json client (
                call transport json client
                  (lit "eth_sendTransaction")
                  (fields tx ∷ [])
                  json.string
                  start)))
handle_send_tx_lem_example =
    handle_send_tx_lem transport json client addresses (lit "0xA") (lit "POST") body start
