-- ===== src/Mempool/Subscriber/Tests.antt =====
-- The subscriber, internal/mempool/subscriber.go, on a few texts and on a server that hangs up.
use blockchain_data_feeds_po.Prelude.{
  ℕ, ◌+◌, ◌*◌, ◌^◌, ◌%◌, ◌≤◌, ◌≡◌, ◌⊎◌, refl, lit, none, some, [], ◌∷◌, ◌++◌, map, word, List,
  arith, text_eq,
}
use blockchain_data_feeds_po.Prelude.Exec.{Error, failed, ok, err}
use blockchain_data_feeds_po.Store.Types.{second}
use blockchain_data_feeds_po.Mempool.Subscriber.Hex.{parse_hex_uint, hex_value, hex_digit}
use blockchain_data_feeds_po.Mempool.Subscriber.Hex.Digits.{hex_char, number_of, parse_hex_uint-map}
use blockchain_data_feeds_po.Mempool.Subscriber.{
  Subscriber, WsJson, Websocket, Session, receive, dispatch, dispatch_head, send_head, send_pending,
  run_subscriber, run_turns, run_once, after_run, next_backoff, text_eq,
}
use blockchain_data_feeds_po.Mempool.Subscriber.Runs.{IsBounded, capped, run_subscriber_lem}

mixed_case : parse_hex_uint (lit "0x1F") ≡ ok 31
unfolding parse_hex_uint hex_value hex_digit
mixed_case = refl

no_digit : parse_hex_uint (lit "0x1g") ≡ err (failed (lit "invalid hex"))
unfolding parse_hex_uint hex_value hex_digit
no_digit = refl

-- The prefix alone is zero.
prefix_alone : parse_hex_uint (lit "0x") ≡ ok 0
unfolding parse_hex_uint hex_value hex_digit
prefix_alone = refl

abbrev digits : List ℕ
digits = 1 ∷ 15 ∷ []

parse_hex_uint-map_example :
    parse_hex_uint (lit "0x" ++ map hex_char digits) ≡ ok (number_of 0 digits % word)
parse_hex_uint-map_example = parse_hex_uint-map digits (omega arith, (omega arith, tt))

abbrev ws_json : WsJson
ws_json = record {
  message = λ raw. ok (record {
    jsonrpc = lit "2.0";
    method = lit "eth_subscription";
    params = record { subscription = lit "s"; result = raw };
  });
  string = λ raw. ok raw;
  head_number = λ raw. ok raw;
  subscribed = λ raw. ok (lit "s");
}

abbrev empty : Subscriber
empty = record { pending_cap = 1; head_cap = 128; pending_c = []; head_c = [] }

-- A second hash finds the channel full; a head goes to its own channel.
received :
    receive ws_json
      (lit "0x10")
      (receive ws_json (lit "\"b\"") (receive ws_json (lit "\"a\"") empty))
    ≡ record empty { pending_c = lit "\"a\"" ∷ []; head_c = 16 ∷ [] }
unfolding receive dispatch dispatch_head send_head send_pending parse_hex_uint hex_value hex_digit
    text_eq
received = refl

-- A server that refuses the connection.
abbrev refusing : Websocket ℕ
refusing = record {
  dial = λ n. (err (failed (lit "refused")), n + 1);
  write_json = λ r n. (ok tt, n);
  read_message = λ n. (err (failed (lit "closed")), n);
  close = λ n. n;
  canceled = λ n. none;
  random_id = λ n. (n, n);
}

abbrev begun : Session ℕ
begun = record { net = 0; sub = empty }

abbrev tried : Session ℕ
tried = record { net = 6; sub = empty }

six_turns : run_subscriber refusing ws_json 6 1 begun ≡ some (30 * second, tried)
unfolding run_subscriber run_turns run_once after_run next_backoff
six_turns = refl

begun-IsBounded : IsBounded begun.sub
begun-IsBounded = record { pending_room = omega arith; head_room = omega arith }

run_subscriber_lem_example :
    IsBounded tried.sub
    × ((n : ℕ) × (n ≤ 6)
        × (30 * second ≡ capped (second * 2 ^ n))
        × ((n ≡ 6) ⊎ ((e : Error) × (refusing.canceled tried.net ≡ some e))))
run_subscriber_lem_example =
    run_subscriber_lem refusing ws_json 6 1 (30 * second) begun tried begun-IsBounded six_turns
