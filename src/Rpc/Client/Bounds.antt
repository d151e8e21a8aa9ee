-- ===== src/Rpc/Client/Bounds.antt =====
-- What every `Call` of internal/rpc/client.go keeps: the semaphore, and a bounded number of waits.
use blockchain_data_feeds_po.Prelude.{
  refl, [], ◌*◌, ℕ, zero, suc, ◌+◌, ◌<◌, ◌≡◌, Bool, true, false, Text, List, ◌∷◌, ◌⊎◌, inl, inr,
  arith, Bool-cases, Option-cases, leb, ◌||◌, ◌==◌, ◌∙◌, ◌≤◌, ◌≢◌, lit, ◌*◌,
}
use blockchain_data_feeds_po.Prelude.Exec.{
  Error, failed, too_many_results, http_status, rpc_failed, wrap, Result, ok, err, Result-cases,
}
use blockchain_data_feeds_po.Rpc.Client.{
  RpcError, RpcResponse, Json, Reply, Transport, Client, Conn, backoff_wait, Outcome, again, done,
  sleep_backoff, send, answer_error, take_response, take_reply, post_failed, call_round, call_loop,
  max_backoff, call, Param, RpcRequest,
}

-- Not an error of a text alone, as the one behind the loop is.
abbrev pub is_plain : Error → Bool
is_plain (failed what) = false
is_plain too_many_results = true
is_plain (http_status n) = true
is_plain (rpc_failed n what) = true
is_plain (wrap what ns e) = true

abbrev is_fine : {A : Type 0} → Result Error A → Bool
is_fine (ok a) = true
is_fine (err e) = is_plain e

-- A round that ends the call.
abbrev pub is_ended : {A : Type 0} → Result Error (Outcome A) → Bool
is_ended (ok again) = false
is_ended (ok (done a)) = true
is_ended (err e) = is_plain e

-- The waits behind the attempts `i` to `i + n - 1`, the last one first, and the ones before.
abbrev pub backoffs : ℕ → ℕ → ℕ → List ℕ → List ℕ
backoffs backoff i zero before = before
backoffs backoff i (suc n) before = backoffs backoff (i + 1) n (backoff_wait backoff i ∷ before)

-- The sum of the waits.
abbrev pub total : List ℕ → ℕ
total [] = 0
total (w ∷ ws) = w + total ws

backoff_wait_le : (backoff i : ℕ) → backoff_wait backoff i ≤ max_backoff
unfolding backoff_wait
backoff_wait_le backoff i = ground arith

total-backoffs :
    (backoff i n : ℕ) (before : List ℕ)
    → total (backoffs backoff i n before) ≤ total before + n * max_backoff
total-backoffs backoff i zero before = omega arith
total-backoffs backoff i (suc n) before =
    let rest = total-backoffs backoff (i + 1) n (backoff_wait backoff i ∷ before) in
    omega (arith, rest, backoff_wait_le backoff i)

module _ {C R A : Type 0} (client : Client R) where
  -- A round asks for one more attempt behind a wait, or ends the call without one.
  abbrev pub Rounded : ℕ → Conn C → Result Error (Outcome A) × Conn C → Type 0
  Rounded i c out =
      (out.1.held ≡ c.held)
      × (((out.0 ≡ ok again)
            × (i < client.retries)
            × (out.1.waits ≡ backoff_wait client.backoff i ∷ c.waits))
          ⊎ ((is_ended out.0 ≡ true) × (out.1.waits ≡ c.waits)))

module _ {C R : Type 0} (t : Transport C) (json : Json) (client : Client R) where
  send_lem :
      (body : Text) (c : Conn C)
      → ((send t json client body c).1.held ≡ c.held)
        × ((send t json client body c).1.waits ≡ c.waits)
        × (is_fine (send t json client body c).0 ≡ true)
  unfolding send
  send_lem body c = elim (Result-cases (t.limit_wait c.net).0) [
    | inl (u, e) ↦
        let net = (t.limit_wait c.net).1 in
        elim (Result-cases (t.new_request client.url body net).0) [
          | inl (v, f) ↦ ground (arith, e, f)
          | inr (y, f) ↦ ground (arith, e, f)
        ]
    | inr (x, e) ↦ ground (arith, e)
  ]

  module _ {A : Type 0} (decode : Text → Result Error A) where
    answer_error-Rounded :
        (i : ℕ) (e : RpcError) (c : Conn C)
        → Rounded {A = A} client i c (answer_error t json client i e c)
    unfolding answer_error sleep_backoff
    answer_error-Rounded i e c = ground arith

    pub post_failed-Rounded :
        (i : ℕ) (e : Error) (c : Conn C)
        → Rounded {A = A} client i c (post_failed t json client i e c)
    unfolding post_failed sleep_backoff
    post_failed-Rounded i e c = ground arith

    take_response-Rounded :
        (i : ℕ) (resp : RpcResponse) (c : Conn C)
        → Rounded client i c (take_response t json client i decode resp c)
    unfolding take_response
    take_response-Rounded i resp c = elim (Option-cases resp.error) [
      | inl none_there ↦ elim (Result-cases (decode resp.result)) [
        | inl (a, e) ↦ ground (arith, none_there, e)
        | inr (x, e) ↦ ground (arith, none_there, e)
      ]
      | inr (e, there) ↦ rw there (answer_error-Rounded i e c)
    ]

    pub take_reply-Rounded :
        (i : ℕ) (reply : Reply) (c : Conn C)
        → Rounded client i c (take_reply t json client i decode reply c)
    unfolding take_reply sleep_backoff
    take_reply-Rounded i reply c = elim (Result-cases reply.body) [
      | inl (body, e) ↦ elim (Bool-cases (leb 500 reply.status || reply.status == 429)) [
        | inl busy ↦ ground (arith, e, busy)
        | inr fine ↦ elim (Result-cases (json.response body)) [
          | inl (resp, f) ↦ rw (e, fine, f) (take_response-Rounded i resp c)
          | inr (x, f) ↦ ground (arith, e, fine, f)
        ]
      ]
      | inr (x, e) ↦ ground (arith, e)
    ]

    call_round-Rounded :
        (i : ℕ) (body : Text) (c : Conn C)
        → Rounded client i c (call_round t json client i body decode c)
    unfolding call_round
    call_round-Rounded i body c =
        let s = send_lem body c in
        let sent = send t json client body c in
        elim (Result-cases sent.0) [
          | inl (answer, e) ↦ elim (Result-cases answer) [
            | inl (reply, f) ↦ ground (arith, e, f, s, take_reply-Rounded i reply sent.1)
            | inr (x, f) ↦ ground (arith, e, f, s, post_failed-Rounded i x sent.1)
          ]
          | inr (x, e) ↦ ground (arith, e, s)
        ]

module _ {C R A : Type 0} (client : Client R) where
  -- The loop from attempt `i` on: the slots are as before, so many waits more, no bare error.
  abbrev Looped : ℕ → Conn C → Result Error A × Conn C → Type 0
  Looped i c out =
      (out.1.held ≡ c.held)
      × (is_fine out.0 ≡ true)
      × ((n : ℕ) × (n + i ≤ client.retries) × (out.1.waits ≡ backoffs client.backoff i n c.waits))

module _ {C R A : Type 0} (t : Transport C) (json : Json) (client : Client R)
    (decode : Text → Result Error A) where
  next-Looped :
      (i : ℕ) (c c' : Conn C) (out : Result Error A × Conn C)
      → c'.held ≡ c.held
      → c'.waits ≡ backoff_wait client.backoff i ∷ c.waits
      → Looped client (i + 1) c' out
      → Looped client i c out
  next-Looped i c c' out same more (held, fine, (n, few, waits)) =
      (held ∙ same, fine, (suc n, omega arith, rw (← more) waits))

  call_loop-Looped :
      (left i : ℕ) (body : Text) (c : Conn C)
      → i ≤ client.retries
      → i + left ≡ client.retries + 1
      → Looped client i c (call_loop t json client left i body decode c)
  unfolding call_loop
  call_loop-Looped zero i body c le sum = absurd (omega arith)
  call_loop-Looped (suc left) i body c le sum =
      let ended = call_round-Rounded t json client decode i body c in
      let out = call_round t json client i body decode c in
      elim ended.1 [
        | inl (e, more, waits) ↦
            let rest = call_loop-Looped left (i + 1) body out.1 (omega arith) (omega arith) in
            rw e (
              next-Looped i c out.1 (call_loop t json client left (i + 1) body decode out.1) ended.0
                waits rest)
        | inr (e, waits) ↦ elim (Result-cases out.0) [
          | inl (again, f) ↦ absurd (ground (arith, e, f))
          | inl (done a, f) ↦ (
            ground (arith, f, ended.0),
            ground (arith, f),
            (0, omega arith, ground (arith, f, waits)),
          )
          | inr (x, f) ↦ (
            ground (arith, f, ended.0),
            ground (arith, f, e),
            (0, omega arith, ground (arith, f, waits)),
          )
        ]
      ]

  -- However a call ends, with a result or with any error, its semaphore has the slots that it had
  -- before; it waited at most as often as the client may retry, each time as long as the backoff
  -- of its attempt says, in the order of the attempts, and, the jitter aside, no longer than the
  -- maximum on the average; and it never ends behind the loop, with the
  -- error for retries that are used up.
  pub call_keeps :
      (method : Text) (params : List Param) (c : Conn C)
      → ((call t json client method params decode c).1.held ≡ c.held)
        × ((call t json client method params decode c).0
            ≢ err (failed (lit "rpc call failed after retries")))
        × ((n : ℕ) × (n ≤ client.retries)
            × ((call t json client method params decode c).1.waits
                ≡ backoffs client.backoff 0 n c.waits)
            × (total (call t json client method params decode c).1.waits
                ≤ total c.waits + n * max_backoff))
  unfolding call
  call_keeps method params c =
      let req : RpcRequest = record {
        jsonrpc = lit "2.0";
        id = 1;
        method = method;
        params = params;
      } in
      elim (Result-cases (json.marshal req)) [
        | inl (body, e) ↦
            let (held, fine, (n, few, waits)) =
              call_loop-Looped (client.retries + 1) 0 body c (omega arith) (omega arith) in
            rw e (
              held,
              λ f. ground (arith, fine, f),
              (n, omega arith, waits, rw waits (total-backoffs client.backoff 0 n c.waits)),
            )
        | inr (x, e) ↦ rw e (refl, λ f. cc, (0, omega arith, refl, omega arith))
      ]
