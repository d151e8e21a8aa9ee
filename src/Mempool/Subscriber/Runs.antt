-- ===== src/Mempool/Subscriber/Runs.antt =====
-- Runs of the subscriber, internal/mempool/subscriber.go.
use native.Mathlib.Nat.{pow-suc, mul_assoc, mul_comm}
use blockchain_data_feeds_po.Prelude.{
  ◌⊎◌, ap, refl, ◌^◌, ◌*◌, ◌∙◌, ℕ, zero, suc, ◌*◌, ◌^◌, ◌≤◌, ◌≡◌, refl, subst, ◌∙◌, Text, lit, some,
  List, [], ◌∷◌, length, length-append, ltb, if◌then◌else◌, inl, inr, arith, Bool-cases,
  Option-cases, is_empty, text_eq,
}
use blockchain_data_feeds_po.Prelude.Exec.{Error, Result, ok, err, Result-cases}
use blockchain_data_feeds_po.Store.Types.{Time, second}
use blockchain_data_feeds_po.Mempool.Subscriber.Hex.{parse_hex_uint}
use blockchain_data_feeds_po.Mempool.Subscriber.{
  Subscriber, SubscriptionMsg, WsJson, Websocket, offer, starts_with_quote, send_pending, send_head,
  dispatch_head, dispatch, receive, next_backoff, Session, subscribe, read_loop, subscribe_both,
  run_once, after_run, run_turns, run_subscriber, SubscribeRequest, wrap,
}

-- Neither channel holds more than its capacity.
pub record IsBounded (s : Subscriber) : Type 0 where
  pub pending_room : length s.pending_c ≤ s.pending_cap
  pub head_room : length s.head_c ≤ s.head_cap

length-offer :
    {A : Type 0} (cap : ℕ) (a : A) (c : List A) → length c ≤ cap → length (offer cap a c) ≤ cap
length-offer cap a c h = ground (arith, length-append c (a ∷ []))

send_pending-IsBounded :
    (r : Result Error Text) (s : Subscriber) → IsBounded s → IsBounded (send_pending r s)
unfolding send_pending
send_pending-IsBounded (err e) s b = b
send_pending-IsBounded (ok hash) s b = record {
  pending_room = length-offer s.pending_cap hash s.pending_c b.pending_room;
  head_room = b.head_room;
}

send_head-IsBounded :
    (r : Result Error ℕ) (s : Subscriber) → IsBounded s → IsBounded (send_head r s)
unfolding send_head
send_head-IsBounded (err e) s b = b
send_head-IsBounded (ok num) s b = record {
  pending_room = b.pending_room;
  head_room = length-offer s.head_cap num s.head_c b.head_room;
}

dispatch_head-IsBounded :
    (r : Result Error Text) (s : Subscriber) → IsBounded s → IsBounded (dispatch_head r s)
unfolding dispatch_head
dispatch_head-IsBounded (err e) s b = b
dispatch_head-IsBounded (ok number) s b = elim (Bool-cases (is_empty number)) [
  | inl e ↦ rw e b
  | inr e ↦ rw e (send_head-IsBounded (parse_hex_uint number) s b)
]

module _ (json : WsJson) where
  dispatch-IsBounded :
      (msg : SubscriptionMsg) (s : Subscriber) → IsBounded s → IsBounded (dispatch json msg s)
  unfolding dispatch
  dispatch-IsBounded msg s b = elim (Bool-cases (is_empty msg.params.subscription)) [
    | inl e ↦ rw e b
    | inr e ↦ elim (Bool-cases (is_empty msg.params.result)) [
      | inl f ↦ rw (e, f) b
      | inr f ↦ elim (Bool-cases (starts_with_quote msg.params.result)) [
        | inl q ↦ rw (e, f, q) (send_pending-IsBounded (json.string msg.params.result) s b)
        | inr q ↦ rw (e, f, q) (dispatch_head-IsBounded (json.head_number msg.params.result) s b)
      ]
    ]
  ]

  pub receive-IsBounded :
      (raw : Text) (s : Subscriber) → IsBounded s → IsBounded (receive json raw s)
  unfolding receive
  receive-IsBounded raw s b = elim (Result-cases (json.message raw)) [
    | inl (msg, e) ↦ elim (Bool-cases (text_eq msg.method (lit "eth_subscription"))) [
      | inl f ↦ rw (receive, e, f) (dispatch-IsBounded msg s b)
      | inr f ↦ rw (receive, e, f) b
    ]
    | inr (x, e) ↦ rw (receive, e) b
  ]

module _ {C : Type 0} (ws : Websocket C) (json : WsJson) where
  read_loop-IsBounded :
      (fuel : ℕ) (s t : Session C) (e : Error)
      → IsBounded s.sub
      → read_loop ws json fuel s ≡ some (e, t)
      → IsBounded t.sub
  unfolding read_loop
  read_loop-IsBounded zero s t e b h = cc
  read_loop-IsBounded (suc fuel) s t e b h = elim (Option-cases (ws.canceled s.net)) [
    | inl on ↦ elim (Result-cases (ws.read_message s.net).0) [
      | inl (raw, f) ↦
          read_loop-IsBounded fuel
            (record s { net = (ws.read_message s.net).1; sub = receive json raw s.sub }) t e
            (receive-IsBounded json raw s.sub b) (ground (arith, on, f, h))
      | inr (x, f) ↦ subst IsBounded (ground (arith, on, f, h)) b
    ]
    | inr (x, off) ↦ subst IsBounded (ground (arith, off, h)) b
  ]

  sub-subscribe : (channel : Text) (s : Session C) → (subscribe ws json channel s).1.sub ≡ s.sub
  unfolding subscribe
  sub-subscribe channel s =
      let (id, net) = ws.random_id s.net in
      let req : SubscribeRequest = record { id = id; channel = channel } in
      elim (Result-cases (ws.write_json req net).0) [
        | inl (u, e) ↦
            let net' = (ws.write_json req net).1 in
            elim (Result-cases (ws.read_message net').0) [
              | inl (msg, f) ↦ elim (Result-cases (json.subscribed msg)) [
                | inl (result, g) ↦ ground (arith, e, f, g)
                | inr (x, g) ↦ ground (arith, e, f, g)
              ]
              | inr (x, f) ↦ ground (arith, e, f)
            ]
        | inr (x, e) ↦ ground (arith, e)
      ]

  sub-subscribe_both : (s : Session C) → (subscribe_both ws json s).1.sub ≡ s.sub
  unfolding subscribe_both
  sub-subscribe_both s =
      let first = subscribe ws json (lit "newPendingTransactions") s in
      let kept = sub-subscribe (lit "newPendingTransactions") s in
      elim (Result-cases first.0) [
        | inl (id, e) ↦
            let second_kept = sub-subscribe (lit "newHeads") first.1 in
            elim (Result-cases (subscribe ws json (lit "newHeads") first.1).0) [
              | inl (id', f) ↦ ground (arith, e, f, kept, second_kept)
              | inr (x, f) ↦ ground (arith, e, f, kept, second_kept)
            ]
        | inr (x, e) ↦ ground (arith, e, kept)
      ]

  -- A run that ends does so with an error.
  run_once_lem :
      (fuel : ℕ) (s t : Session C) (r : Result Error (Unit {0}))
      → IsBounded s.sub
      → run_once ws json fuel s ≡ some (r, t)
      → IsBounded t.sub × ((e : Error) × (r ≡ err e))
  unfolding run_once
  run_once_lem fuel s t r b h = elim (Result-cases (ws.dial s.net).0) [
    | inr (x, e) ↦ (
      subst IsBounded (ground (arith, e, h)) b,
      (wrap (lit "ws dial") [] x, ground (arith, e, h)),
    )
    | inl (u, e) ↦
        let s' : Session C = record s { net = (ws.dial s.net).1 } in
        let out = subscribe_both ws json s' in
        let b' : IsBounded out.1.sub = rw (sub-subscribe_both s') b in
        elim (Result-cases out.0) [
          | inr (x, f) ↦
              (subst IsBounded (ground (arith, e, f, h)) b', (x, ground (arith, e, f, h)))
          | inl (v, f) ↦ elim (Option-cases (read_loop ws json fuel out.1)) [
            | inl none_there ↦ absurd (ground (arith, e, f, none_there, h))
            | inr (found, g) ↦ (
              subst IsBounded (ground (arith, e, f, g, h))
                  (read_loop-IsBounded fuel out.1 found.1 found.0 b' g),
              (found.0, ground (arith, e, f, g, h)),
            )
          ]
        ]
  ]

-- The least of a wait and thirty seconds, in nanoseconds.
abbrev pub capped : Time → Time
capped b = if ltb 30000000000 b then 30000000000 else b

next_backoff-capped : (b : Time) → next_backoff (capped b) ≡ capped (b * 2)
unfolding next_backoff
next_backoff-capped b = ground arith

twice : (b n : ℕ) → b * 2 * 2 ^ n ≡ b * 2 ^ suc n
twice b n = rw (pow-suc 2 n) (mul_assoc b 2 (2 ^ n) ∙ ap (λ m. b * m) (mul_comm 2 (2 ^ n)))

module _ {C : Type 0} (ws : Websocket C) (json : WsJson) where
  run_turns_lem :
      (turns fuel : ℕ) (b backoff : Time) (s t : Session C)
      → IsBounded s.sub
      → run_turns ws json turns fuel (capped b) s ≡ some (backoff, t)
      → IsBounded t.sub
        × ((n : ℕ) × (n ≤ turns)
            × (backoff ≡ capped (b * 2 ^ n))
            × ((n ≡ turns) ⊎ ((e : Error) × (ws.canceled t.net ≡ some e))))
  unfolding run_turns after_run
  run_turns_lem zero fuel b backoff s t inv h =
      (subst IsBounded (ground (arith, h)) inv, (0, omega arith, ground (arith, h), inl refl))
  run_turns_lem (suc turns) fuel b backoff s t inv h = elim (Option-cases (ws.canceled s.net)) [
    | inr (e, off) ↦ (
      subst IsBounded (ground (arith, off, h)) inv,
      (0, omega arith, ground (arith, off, h), inr (e, ground (arith, off, h))),
    )
    | inl on ↦ elim (Option-cases (run_once ws json fuel s)) [
      | inl none_there ↦ absurd (ground (arith, on, none_there, h))
      | inr ((r, s'), f) ↦
          let (inv', (e, failure)) = run_once_lem ws json fuel s s' r inv f in
          let (inv'', (n, few, same, ended)) =
            run_turns_lem turns fuel (b * 2) backoff s' t inv'
              (rw (← next_backoff-capped b) (ground (arith, on, f, failure, h))) in
          let rest : (suc n ≡ suc turns) ⊎ ((x : Error) × (ws.canceled t.net ≡ some x)) =
            elim ended [ inl all ↦ inl (ap suc all) | inr stop ↦ inr stop ] in
          (inv'', (suc n, omega arith, same ∙ ap capped (twice b n), rest))
    ]
  ]

  -- However often the subscriber connects and whatever it receives, its channels stay within their
  -- capacities, and the backoff that it ends with is a second doubled once for every turn that it
  -- made, up to thirty seconds: no turn, however long its connection lasted, takes it back. It made
  -- all its turns, or its context is done.
  pub run_subscriber_lem :
      (turns fuel : ℕ) (backoff : Time) (s t : Session C)
      → IsBounded s.sub
      → run_subscriber ws json turns fuel s ≡ some (backoff, t)
      → IsBounded t.sub
        × ((n : ℕ) × (n ≤ turns)
            × (backoff ≡ capped (second * 2 ^ n))
            × ((n ≡ turns) ⊎ ((e : Error) × (ws.canceled t.net ≡ some e))))
  unfolding run_subscriber
  run_subscriber_lem turns fuel backoff s t inv h =
      run_turns_lem turns fuel second backoff s t inv h
