-- ===== src/Rpc/Client/Calls/Tests.antt =====
-- Two calls at once over one slot.
use blockchain_data_feeds_po.Prelude.{
  ℕ, ◌*◌, ◌≤◌, ◌≡◌, ◌⊎◌, refl, false, pos, Bool, Text, lit, List, [], ◌∷◌, All, length,
}
use blockchain_data_feeds_po.Prelude.Exec.{ok}
use blockchain_data_feeds_po.Rpc.Client.{Client, Conn, new_client}
use blockchain_data_feeds_po.Rpc.Client.Example.{transport, json}
use blockchain_data_feeds_po.Rpc.Client.Calls.{
  Request, Caller, limiting, entering, building, Calls, advance_call, after_limit, go, CallRun,
  here, next, start_calls,
}
use blockchain_data_feeds_po.Rpc.Client.Calls.Slots.{slots_in}
use blockchain_data_feeds_po.Rpc.Client.Calls.Moves.{CanMove, IsReturned}
use blockchain_data_feeds_po.Rpc.Client.Calls.Ends.{calls_lem}

abbrev unlimited : Bool → Bool
unlimited r = r

abbrev single : Client Bool
single = new_client unlimited (lit "u") (pos 1) false

abbrev request : Request Text
request = record { body = lit "b"; decode = λ s. ok s }

abbrev both : List (Request Text)
both = request ∷ request ∷ []

abbrev idle_conn : Conn ℕ
idle_conn = record { net = 0; held = 0; waits = [] }

abbrev taken : Conn ℕ
taken = record { net = 0; held = 1; waits = [] }

abbrev after : List (Caller Text) → Conn ℕ → Calls ℕ Text
after callers conn = record { callers = callers; conn = conn }

-- Both are behind the limiter, and the first has the slot.
abbrev blocked : Calls ℕ Text
blocked = after (building 0 request ∷ entering 0 request ∷ []) taken

run_to_blocked : CallRun transport json single (start_calls transport json single both 0) 3 blocked
unfolding start_calls advance_call after_limit new_client
run_to_blocked =
    next
      (next
        (next here (
          go [] (limiting 0 request ∷ []) (limiting 0 request) (entering 0 request) idle_conn refl
            refl refl))
        (go (entering 0 request ∷ []) [] (limiting 0 request) (entering 0 request) idle_conn refl
          refl refl))
      (go [] (entering 0 request ∷ []) (entering 0 request) (building 0 request) taken refl refl
        refl)

calls_lem_example :
    (slots_in blocked.callers ≤ single.slots)
    × (blocked.conn.held ≡ slots_in blocked.callers)
    × (CanMove transport json single blocked.callers blocked.conn ⊎ All IsReturned blocked.callers)
    × (3 ≤ 30 * length both)
calls_lem_example =
    calls_lem transport json unlimited (lit "u") (pos 1) false both 0 3 blocked run_to_blocked
