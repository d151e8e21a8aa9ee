-- ===== src/Mempool/Subscriber.antt =====
-- internal/mempool/subscriber.go: the subscriptions over a websocket. The channels are lists,
-- oldest first; log lines are left out.
pub mod Hex
pub mod Runs
mod Tests
use blockchain_data_feeds_po.Prelude.{
  ℕ, zero, suc, ◌*◌, Bool, not, ◌==◌, Text, lit, is_empty, text_eq, Option, none, some, List, [],
  ◌∷◌, ◌++◌, length, leb, ltb, if◌then◌else◌, false,
}
use blockchain_data_feeds_po.Prelude.Exec.{
  Error, failed, wrap, Result, ok, err, Exec, pure, raise, attempt, ◌>>=◌, ◌>>◌,
}
use blockchain_data_feeds_po.Store.Types.{Time, second}
use blockchain_data_feeds_po.Mempool.Subscriber.Hex.{parse_hex_uint}

pub record Subscriber : Type 0 where
  pub pending_cap : ℕ
  pub head_cap : ℕ
  pub pending_c : List Text
  pub head_c : List ℕ

-- `result` is the raw text.
pub record SubscriptionParams : Type 0 where
  pub subscription : Text
  pub result : Text

pub record SubscriptionMsg : Type 0 where
  pub jsonrpc : Text
  pub method : Text
  pub params : SubscriptionParams

pub record SubscribeRequest : Type 0 where
  pub id : ℕ
  pub channel : Text

-- encoding/json at the types of the subscriber: a message, a string, the `number` of a head, and
-- the `result` of an answer to a request.
pub record WsJson : Type 0 where
  pub message : Text → Result Error SubscriptionMsg
  pub string : Text → Result Error Text
  pub head_number : Text → Result Error Text
  pub subscribed : Text → Result Error Text

-- gorilla/websocket, math/rand and the context, over the state `C` of the network. `canceled` is
-- the error of a context that is done.
pub record Websocket (C : Type 0) : Type 0 where
  pub dial : Exec C Error (Unit {0})
  pub write_json : SubscribeRequest → Exec C Error (Unit {0})
  pub read_message : Exec C Error Text
  pub close : C → C
  pub canceled : C → Option Error
  pub random_id : C → ℕ × C

-- A send that drops what a full channel has no room for.
abbrev pub offer : {A : Type 0} → ℕ → A → List A → List A
offer cap a c = if ltb (length c) cap then c ++ a ∷ [] else c

abbrev pub starts_with_quote : Text → Bool
starts_with_quote [] = false
starts_with_quote (c ∷ s) = c == b'"'

unfoldable pub send_pending : Result Error Text → Subscriber → Subscriber
send_pending (err e) s = s
send_pending (ok hash) s = record s { pending_c = offer s.pending_cap hash s.pending_c }

unfoldable pub send_head : Result Error ℕ → Subscriber → Subscriber
send_head (err e) s = s
send_head (ok num) s = record s { head_c = offer s.head_cap num s.head_c }

unfoldable pub dispatch_head : Result Error Text → Subscriber → Subscriber
dispatch_head (err e) s = s
dispatch_head (ok number) s = if is_empty number then s else send_head (parse_hex_uint number) s

unfoldable pub dispatch : WsJson → SubscriptionMsg → Subscriber → Subscriber
dispatch json msg s =
    if is_empty msg.params.subscription
    then s
    else if is_empty msg.params.result
    then s
    else if starts_with_quote msg.params.result
    then send_pending (json.string msg.params.result) s
    else dispatch_head (json.head_number msg.params.result) s

-- A message of the read loop.
unfoldable pub receive : WsJson → Text → Subscriber → Subscriber
receive json raw s = elim (json.message raw) [
  | err e ↦ s
  | ok msg ↦ if text_eq msg.method (lit "eth_subscription") then dispatch json msg s else s
]

abbrev pub thirty_seconds : Time
thirty_seconds = 30 * second

-- The next backoff.
unfoldable pub next_backoff : Time → Time
next_backoff backoff = if ltb thirty_seconds (backoff * 2) then thirty_seconds else backoff * 2

-- The subscriber with its connection.
pub record Session (C : Type 0) : Type 0 where
  pub net : C
  pub sub : Subscriber

module _ {C : Type 0} (ws : Websocket C) (json : WsJson) where
  abbrev pub on_ws : {A : Type 0} → Exec C Error A → Exec (Session C) Error A
  on_ws m s = let (r, net) = m s.net in (r, record s { net = net })

  abbrev pub wrapped : {A : Type 0} → Text → Result Error A → Exec (Session C) Error A
  wrapped what (ok a) s = (ok a, s)
  wrapped what (err e) s = (err (wrap what [] e), s)

  -- The identifier of the subscription.
  unfoldable pub subscribe : Text → Exec (Session C) Error Text
  subscribe channel = do
    id ← on_ws (λ c. let (n, c') = ws.random_id c in (ok n, c'))
    written ← attempt (on_ws (ws.write_json (record { id = id; channel = channel })))
    wrapped (lit "subscribe") written
    msg ← on_ws ws.read_message
    result ← wrapped (lit "subscribe parse") (json.subscribed msg)
    if is_empty result then raise (failed (lit "subscribe failed")) else pure result

  -- The read loop, on fuel: `none` means that the fuel ran out. It ends with an error only.
  unfoldable pub read_loop : ℕ → Session C → Option (Error × Session C)
  read_loop zero s = none
  read_loop (suc fuel) s = elim (ws.canceled s.net) [
    | some e ↦ some (e, s)
    | none ↦
        let (r, s') = on_ws ws.read_message s in
        elim r [
          | err e ↦ some (e, s')
          | ok raw ↦ read_loop fuel (record s' { sub = receive json raw s'.sub })
        ]
  ]

  abbrev pub hang_up : Session C → Session C
  hang_up s = record s { net = ws.close s.net }

  -- Both subscriptions.
  unfoldable pub subscribe_both : Exec (Session C) Error (Unit {0})
  subscribe_both = do
    pending_sub ← subscribe (lit "newPendingTransactions")
    head_sub ← subscribe (lit "newHeads")
    pure tt

  -- `runOnce`, with its deferred Close once there is a connection.
  unfoldable pub run_once : ℕ → Session C → Option (Result Error (Unit {0}) × Session C)
  run_once fuel s =
      let (dialed, s') = on_ws ws.dial s in
      elim dialed [
        | err e ↦ some (err (wrap (lit "ws dial") [] e), s')
        | ok u ↦
            let (subscribed, s'') = subscribe_both s' in
            elim subscribed [
              | err e ↦ some (err e, hang_up s'')
              | ok v ↦ elim (read_loop fuel s'') [
                | none ↦ none
                | some (e, t) ↦ some (err e, hang_up t)
              ]
            ]
      ]

  -- The next backoff of `Run` behind a run with this result.
  unfoldable pub after_run : Result Error (Unit {0}) → Time → Time
  after_run (err e) backoff = next_backoff backoff
  after_run (ok u) backoff = second

  -- So many turns of `Run` from a backoff on, and the backoff behind them; a turn with a context
  -- that is done is the last.
  unfoldable pub run_turns : ℕ → ℕ → Time → Session C → Option (Time × Session C)
  run_turns zero fuel backoff s = some (backoff, s)
  run_turns (suc turns) fuel backoff s = elim (ws.canceled s.net) [
    | some e ↦ some (backoff, s)
    | none ↦ elim (run_once fuel s) [
      | none ↦ none
      | some (r, s') ↦ run_turns turns fuel (after_run r backoff) s'
    ]
  ]

  -- `Run`
  unfoldable pub run_subscriber : ℕ → ℕ → Session C → Option (Time × Session C)
  run_subscriber turns fuel s = run_turns turns fuel second s
