-- ===== src/Rpc/Client.antt =====
-- `Client` and `Call` of internal/rpc/client.go, with the retries and the classification of errors.
pub mod Bounds
pub mod Answers
pub mod Typed
pub mod Calls
pub mod Example
mod Tests
use blockchain_data_feeds_po.Prelude.{
  ℕ, zero, suc, ◌+◌, ◌-◌, ◌*◌, ◌^◌, ℤ, pos, negsuc, Bool, true, false, ◌||◌, ◌&&◌, not, ◌==◌, Text,
  lit, Option, none, some, List, [], ◌∷◌, leb, ltb, if◌then◌else◌, to_lower, contains,
}
use blockchain_data_feeds_po.Prelude.Exec.{
  Error, failed, too_many_results, http_status, rpc_failed, wrap, Result, ok, err, Exec, pure,
  raise, attempt, ◌>>=◌, ◌>>◌,
}
use blockchain_data_feeds_po.Rpc.Interface.{LogFilter, Log, RpcTransaction, RpcReceipt}

-- What the program passes as parameters of a call.
pub data Param : Type 0 where
  text : Text → Param
  flag : Bool → Param
  filter : LogFilter → Param
  fields : List (Text × Text) → Param

pub record RpcRequest : Type 0 where
  pub jsonrpc : Text
  pub id : ℕ
  pub method : Text
  pub params : List Param

pub record RpcError : Type 0 where
  pub code : ℤ
  pub message : Text

-- `result` is the raw text; a nil pointer is `none`.
pub record RpcResponse : Type 0 where
  pub jsonrpc : Text
  pub id : ℕ
  pub result : Text
  pub error : Option RpcError

pub record BlockResponse : Type 0 where
  pub number : Text
  pub hash : Text
  pub timestamp : Text

-- encoding/json at the types of the client, which is outside the program.
pub record Json : Type 0 where
  pub marshal : RpcRequest → Result Error Text
  pub response : Text → Result Error RpcResponse
  pub string : Text → Result Error Text
  pub strings : Text → Result Error (List Text)
  pub raw : Text → Result Error Text
  pub block : Text → Result Error BlockResponse
  pub logs : Text → Result Error (List Log)
  pub transaction : Text → Result Error RpcTransaction
  pub receipt : Text → Result Error RpcReceipt

-- An answer of the server, with what reading its body gave.
pub record Reply : Type 0 where
  pub status : ℕ
  pub body : Result Error Text

-- The rate limiter and net/http over the state `C` of the network. `new_request` and `post` take
-- the URL and the body; `post` sends it with its `Content-Type`. `is_canceled` is the test for
-- `context.Canceled` or `context.DeadlineExceeded`.
pub record Transport (C : Type 0) : Type 0 where
  pub limit_wait : Exec C Error (Unit {0})
  pub new_request : Text → Text → Exec C Error (Unit {0})
  pub post : Text → Text → Exec C Error Reply
  pub is_canceled : Error → Bool

-- A duration in nanoseconds.
abbrev pub default_backoff : ℕ
default_backoff = 200000000

abbrev pub max_backoff : ℕ
max_backoff = 5000000000

-- `rate` is the limit; `none` is `rate.Inf`. `slots` is the capacity of the semaphore.
pub record Client (R : Type 0) : Type 0 where
  pub url : Text
  pub limit : Option R
  pub burst : ℕ
  pub slots : ℕ
  pub retries : ℕ
  pub backoff : ℕ

abbrev capacity : ℤ → ℕ
capacity (pos zero) = 4
capacity (pos (suc n)) = suc n
capacity (negsuc n) = 4

-- `NewClient`; `positive` is the test `rateLimit > 0`.
unfoldable pub new_client : {R : Type 0} → (R → Bool) → Text → ℤ → R → Client R
new_client positive url concurrency rate_limit = record {
  url = url;
  limit = if positive rate_limit then some rate_limit else none;
  burst = capacity concurrency;
  slots = capacity concurrency;
  retries = 5;
  backoff = default_backoff;
}

abbrev pub is_limit_code : ℤ → Bool
is_limit_code (pos n) = false
is_limit_code (negsuc n) = n == 32004

unfoldable pub is_retryable : RpcError → Bool
is_retryable e = is_limit_code e.code || contains (to_lower e.message) (lit "timeout")

-- `isTooManyResults`
unfoldable pub says_too_many : Text → Bool
says_too_many msg =
    contains (to_lower msg) (lit "too many results")
    || contains (to_lower msg) (lit "more than")
    || contains (to_lower msg) (lit "query returned")

-- The network, the slots of the semaphore in use, and the waits so far, the last one first.
pub record Conn (C : Type 0) : Type 0 where
  pub net : C
  pub held : ℕ
  pub waits : List ℕ

-- The wait before its jitter of at most a tenth. The powers of two of the source are exact.
unfoldable pub backoff_wait : ℕ → ℕ → ℕ
backoff_wait backoff i =
    let exp = backoff * 2 ^ i in if ltb max_backoff exp then max_backoff else exp

-- How a round of the loop goes on: with the next attempt, or with the result.
pub data Outcome (A : Type 0) : Type 0 where
  again : Outcome A
  done : A → Outcome A

module _ {C R : Type 0} (t : Transport C) (json : Json) (client : Client R) where
  abbrev pub on_net : {A : Type 0} → Exec C Error A → Exec (Conn C) Error A
  on_net m c = let (r, net) = m c.net in (r, record c { net = net })

  -- `c.sem <- struct{}{}` and `<-c.sem`.
  abbrev pub acquire : Exec (Conn C) Error (Unit {0})
  acquire c = (ok tt, record c { held = c.held + 1 })

  abbrev pub release : Exec (Conn C) Error (Unit {0})
  release c = (ok tt, record c { held = c.held - 1 })

  unfoldable pub sleep_backoff : ℕ → Exec (Conn C) Error (Unit {0})
  sleep_backoff i c = (ok tt, record c { waits = backoff_wait client.backoff i ∷ c.waits })

  abbrev pub wrap_err : {A : Type 0} → Text → Result Error A → Exec (Conn C) Error A
  wrap_err what (ok a) c = (ok a, c)
  wrap_err what (err e) c = (err (wrap what [] e), c)

  abbrev pub retry : {A : Type 0} → ℕ → Exec (Conn C) Error (Outcome A)
  retry i = sleep_backoff i >> pure again

  -- The request and its answer, under the semaphore.
  unfoldable pub send : Text → Exec (Conn C) Error (Result Error Reply)
  send body = do
    limited ← attempt (on_net t.limit_wait)
    wrap_err (lit "rate limit wait") limited
    acquire
    built ← attempt (on_net (t.new_request client.url body))
    elim built [
      | err e ↦ release >> raise (wrap (lit "build request") [] e)
      | ok u ↦ do answer ← attempt (on_net (t.post client.url body)); release; pure answer
    ]

  -- An error in the response.
  unfoldable pub answer_error : {A : Type 0} → ℕ → RpcError → Exec (Conn C) Error (Outcome A)
  answer_error i e =
      if says_too_many e.message
      then raise too_many_results
      else if ltb i client.retries && is_retryable e
      then retry i
      else raise (rpc_failed e.code e.message)

  -- The response, with its result or its error.
  unfoldable pub take_response :
      {A : Type 0} → ℕ → (Text → Result Error A) → RpcResponse → Exec (Conn C) Error (Outcome A)
  take_response i decode resp = elim resp.error [
    | some e ↦ answer_error i e
    | none ↦ do a ← wrap_err (lit "unmarshal result") (decode resp.result); pure (done a)
  ]

  -- The answer of the server, from its status on.
  unfoldable pub take_reply :
      {A : Type 0} → ℕ → (Text → Result Error A) → Reply → Exec (Conn C) Error (Outcome A)
  take_reply i decode reply = do
    body ← wrap_err (lit "read response") reply.body
    if leb 500 reply.status || reply.status == 429
        then (if ltb i client.retries then retry i else raise (http_status reply.status))
        else (do
          resp ← wrap_err (lit "unmarshal response") (json.response body)
          take_response i decode resp)

  -- An error of the post.
  unfoldable pub post_failed : {A : Type 0} → ℕ → Error → Exec (Conn C) Error (Outcome A)
  post_failed i e =
      if not (t.is_canceled e) && ltb i client.retries
      then retry i
      else raise (wrap (lit "rpc post") [] e)

  -- One round of the loop, the attempt `i`.
  unfoldable pub call_round :
      {A : Type 0} → ℕ → Text → (Text → Result Error A) → Exec (Conn C) Error (Outcome A)
  call_round i body decode = do
    answer ← send body
    elim answer [ err e ↦ post_failed i e | ok reply ↦ take_reply i decode reply ]

  -- The loop from attempt `i` on, with `left` attempts to go.
  unfoldable pub call_loop :
      {A : Type 0} → ℕ → ℕ → Text → (Text → Result Error A) → Exec (Conn C) Error A
  call_loop zero i body decode = raise (failed (lit "rpc call failed after retries"))
  call_loop (suc left) i body decode = do
    outcome ← call_round i body decode
    elim outcome [ again ↦ call_loop left (i + 1) body decode | done a ↦ pure a ]

  -- `Call`. A nil `result` is a `decode` that drops the raw text.
  unfoldable pub call :
      {A : Type 0} → Text → List Param → (Text → Result Error A) → Exec (Conn C) Error A
  call method params decode = do
    body ←
        wrap_err (lit "marshal request")
          (json.marshal (record { jsonrpc = lit "2.0"; id = 1; method = method; params = params }))
    call_loop (client.retries + 1) 0 body decode
