-- ===== src/Rpc/Client/Answers.antt =====
-- What the results of `Call`, internal/rpc/client.go, say of the server's answers.
use blockchain_data_feeds_po.Prelude.{
  subst, ◌&&◌, ℕ, zero, suc, ◌+◌, ◌≤◌, ◌<◌, ◌≡◌, ◌≢◌, refl, true, false, Text, lit, List, [], ◌⊎◌,
  inl, inr, arith, Bool-cases, Option-cases, leb, ltb, ◌||◌, ◌==◌, none, some, not, Bool, contains,
  to_lower, sym, ◌∙◌,
}
use blockchain_data_feeds_po.Prelude.Exec.{
  Error, failed, too_many_results, http_status, rpc_failed, wrap, Result, ok, err, Result-cases,
}
use blockchain_data_feeds_po.Rpc.Client.{
  Param, RpcRequest, RpcError, RpcResponse, Json, Reply, Transport, Client, Conn, Outcome, again,
  done, sleep_backoff, send, answer_error, take_response, take_reply, post_failed, call_round,
  call_loop, call, says_too_many, is_retryable,
}

-- The request that `Call` sends.
abbrev pub request : Text → List Param → RpcRequest
request method params = record { jsonrpc = lit "2.0"; id = 1; method = method; params = params }

-- The message names a limit of results, in one of three phrases, upper and lower case aside.
abbrev pub names_limit : Text → Bool
names_limit message =
    contains (to_lower message) (lit "too many results")
    || contains (to_lower message) (lit "more than")
    || contains (to_lower message) (lit "query returned")

says_too_many_lem : (message : Text) → says_too_many message ≡ names_limit message
unfolding says_too_many
says_too_many_lem message = refl

module _ {C R : Type 0} (t : Transport C) (json : Json) (client : Client R) (req : RpcRequest) where
  -- The server gave this answer to a post of the request.
  abbrev pub Posted : Reply → Type 0
  Posted reply =
      (body : Text) × (json.marshal req ≡ ok body)
      × ((net : C) × ((t.post client.url body net).0 ≡ ok reply))

  -- The server gave this response, with a status that is not one to retry on.
  abbrev pub Responded : RpcResponse → Type 0
  Responded resp =
      (reply : Reply) × Posted reply
      × (reply.status < 500)
      × (reply.status ≢ 429)
      × ((raw : Text) × (reply.body ≡ ok raw) × (json.response raw ≡ ok resp))

  abbrev IsBusy : ℕ → Type 0
  IsBusy status = (500 ≤ status) ⊎ (status ≡ 429)

  -- A result without an error is the decoded result of a response without an error; the error for
  -- too many results is a response whose message says so; an RPC error is the error of a response
  -- whose message does not; and the error for a status is the status of an answer to retry on.
  abbrev pub Explained : {A : Type 0} → (Text → Result Error A) → Result Error A → Type 0
  Explained decode (ok a) =
      (resp : RpcResponse) × Responded resp × (resp.error ≡ none) × (decode resp.result ≡ ok a)
  Explained decode (err too_many_results) =
      (resp : RpcResponse) × Responded resp
      × ((e : RpcError) × (resp.error ≡ some e) × (names_limit e.message ≡ true))
  Explained decode (err (rpc_failed code message)) =
      (resp : RpcResponse) × Responded resp
      × (resp.error ≡ some (record { code = code; message = message }))
      × (names_limit message ≡ false)
  Explained decode (err (http_status n)) =
      (reply : Reply) × Posted reply × (reply.status ≡ n) × IsBusy n
  Explained decode (err (failed what)) = Unit
  Explained decode (err (wrap what ns e)) = Unit

  send-Posted :
      (body : Text) (c : Conn C) (reply : Reply)
      → json.marshal req ≡ ok body
      → (send t json client body c).0 ≡ ok (ok reply)
      → Posted reply
  unfolding send
  send-Posted body c reply m h =
      let net = (t.limit_wait c.net).1 in
      let net' = (t.new_request client.url body net).1 in
      elim (Result-cases (t.limit_wait c.net).0) [
        | inl (u, e) ↦ elim (Result-cases (t.new_request client.url body net).0) [
          | inl (v, f) ↦ (body, m, (net', ground (arith, e, f, h)))
          | inr (y, f) ↦ absurd (ground (arith, e, f, h))
        ]
        | inr (x, e) ↦ absurd (ground (arith, e, h))
      ]

  -- What fails before the post is a wrapped error.
  send_wraps :
      (body : Text) (c : Conn C) (x : Error)
      → (send t json client body c).0 ≡ err x
      → (what : Text) × (e : Error) × (x ≡ wrap what [] e)
  unfolding send
  send_wraps body c x h =
      let net = (t.limit_wait c.net).1 in
      elim (Result-cases (t.limit_wait c.net).0) [
        | inl (u, e) ↦ elim (Result-cases (t.new_request client.url body net).0) [
          | inl (v, f) ↦ absurd (ground (arith, e, f, h))
          | inr (y, f) ↦ (lit "build request", y, ground (arith, e, f, h))
        ]
        | inr (y, e) ↦ (lit "rate limit wait", y, ground (arith, e, h))
      ]

  module _ {A : Type 0} (decode : Text → Result Error A) where
    -- The same of a round.
    abbrev Rounded : Result Error (Outcome A) → Type 0
    Rounded (ok again) = Unit
    Rounded (ok (done a)) = Explained decode (ok a)
    Rounded (err e) = Explained decode (err e)

    post_failed-Rounded :
        (i : ℕ) (e : Error) (c : Conn C) → Rounded (post_failed t json client i e c).0
    unfolding post_failed sleep_backoff
    post_failed-Rounded i e c = elim (Bool-cases (not (t.is_canceled e) && ltb i client.retries)) [
      | inl more ↦ rw more tt
      | inr last ↦ rw last tt
    ]

    answer_error-Rounded :
        (i : ℕ) (resp : RpcResponse) (e : RpcError) (c : Conn C)
        → Responded resp
        → resp.error ≡ some e
        → Rounded (answer_error t json client i e c).0
    unfolding answer_error sleep_backoff
    answer_error-Rounded i resp e c r there =
        let says_limit = sym (says_too_many_lem e.message) in
        elim (Bool-cases (says_too_many e.message)) [
          | inl many ↦ rw many (resp, r, (e, there, says_limit ∙ many))
          | inr few ↦ elim (Bool-cases (ltb i client.retries && is_retryable e)) [
            | inl more ↦ rw (few, more) tt
            | inr last ↦ rw (few, last) (resp, r, there, says_limit ∙ few)
          ]
        ]

    take_response-Rounded :
        (i : ℕ) (resp : RpcResponse) (c : Conn C)
        → Responded resp
        → Rounded (take_response t json client i decode resp c).0
    unfolding take_response
    take_response-Rounded i resp c r = elim (Option-cases resp.error) [
      | inl none_there ↦ elim (Result-cases (decode resp.result)) [
        | inl (a, e) ↦ rw (none_there, e) (resp, r, none_there, e)
        | inr (x, e) ↦ rw (none_there, e) tt
      ]
      | inr (e, there) ↦ rw there (answer_error-Rounded i resp e c r there)
    ]

    take_reply-Rounded :
        (i : ℕ) (reply : Reply) (c : Conn C)
        → Posted reply
        → Rounded (take_reply t json client i decode reply c).0
    unfolding take_reply sleep_backoff
    take_reply-Rounded i reply c p = elim (Result-cases reply.body) [
      | inl (body, e) ↦ elim (Bool-cases (leb 500 reply.status || reply.status == 429)) [
        | inl busy ↦ elim (Bool-cases (ltb i client.retries)) [
          | inl more ↦ rw (e, busy, more) tt
          | inr last ↦ rw (e, busy, last) (reply, p, refl, ground (arith, busy))
        ]
        | inr fine ↦ elim (Result-cases (json.response body)) [
          | inl (resp, f) ↦
              rw (e, fine, f)
                (take_response-Rounded i resp c
                  (reply, p, ground (arith, fine), ground (arith, fine), (body, e, f)))
          | inr (x, f) ↦ rw (e, fine, f) tt
        ]
      ]
      | inr (x, e) ↦ rw e tt
    ]

    call_round-Rounded :
        (i : ℕ) (body : Text) (c : Conn C)
        → json.marshal req ≡ ok body
        → Rounded (call_round t json client i body decode c).0
    unfolding call_round
    call_round-Rounded i body c m =
        let sent = send t json client body c in
        elim (Result-cases sent.0) [
          | inl (answer, e) ↦ elim (Result-cases answer) [
            | inl (reply, f) ↦
                rw (e, f)
                  (take_reply-Rounded i reply sent.1
                    (send-Posted body c reply m (ground (arith, e, f))))
            | inr (x, f) ↦ rw (e, f) (post_failed-Rounded i x sent.1)
          ]
          | inr (x, e) ↦ let (what, y, shape) = send_wraps body c x e in rw (e, shape) tt
        ]

    call_loop-Explained :
        (left i : ℕ) (body : Text) (c : Conn C)
        → json.marshal req ≡ ok body
        → Explained decode (call_loop t json client left i body decode c).0
    unfolding call_loop
    call_loop-Explained zero i body c m = tt
    call_loop-Explained (suc left) i body c m =
        let out = call_round t json client i body decode c in
        let r = call_round-Rounded i body c m in
        elim (Result-cases out.0) [
          | inl (again, e) ↦ rw e (call_loop-Explained left (i + 1) body out.1 m)
          | inl (done a, e) ↦ rw e (subst Rounded e r)
          | inr (x, e) ↦ rw e (subst Rounded e r)
        ]

module _ {C R A : Type 0} (t : Transport C) (json : Json) (client : Client R)
    (decode : Text → Result Error A) where
  -- Whatever the network does, each result of a call has its reason in what the server answered to
  -- its request: a value is the decoded result of a response without an error; too many results is
  -- a response whose error says so; an RPC error is the error of a response, which does not say
  -- so; and an error for a status is a status of at least 500 or of 429. A response counts only if
  -- its status is none of those.
  pub call-Explained :
      (method : Text) (params : List Param) (c : Conn C)
      → Explained t json client
          (request method params)
          decode
          (call t json client method params decode c).0
  unfolding call
  call-Explained method params c =
      let req = request method params in
      elim (Result-cases (json.marshal req)) [
        | inl (body, e) ↦
            rw e (call_loop-Explained t json client req decode (client.retries + 1) 0 body c e)
        | inr (x, e) ↦ rw e tt
      ]
