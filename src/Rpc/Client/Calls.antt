-- ===== src/Rpc/Client/Calls.antt =====
-- `Call` of internal/rpc/client.go by goroutines at once, over one limiter and one semaphore.
pub mod Slots
pub mod Moves
pub mod Ends
mod Tests
use blockchain_data_feeds_po.Prelude.{
  ℕ, suc, ◌+◌, ◌-◌, ◌≡◌, Text, Option, none, some, List, [], ◌∷◌, ◌++◌, lit, ltb, if◌then◌else◌,
  map,
}
use blockchain_data_feeds_po.Prelude.Exec.{Error, failed, wrap, Result, ok, err}
use blockchain_data_feeds_po.Rpc.Client.{
  Json, Reply, Transport, Client, Conn, Outcome, again, done, post_failed, take_reply,
}

-- The body of a request, and the reader of its result.
pub record Request (A : Type 0) : Type 0 where
  pub body : Text
  pub decode : Text → Result Error A

-- A goroutine in its attempt: before the wait for the limiter, before the semaphore, before the
-- request is built, before it is sent, with the answer, or returned. Two of them have a slot.
pub data Caller (A : Type 0) : Type 0 where
  limiting : ℕ → Request A → Caller A
  entering : ℕ → Request A → Caller A
  building : ℕ → Request A → Caller A
  posting : ℕ → Request A → Caller A
  replied : ℕ → Request A → Result Error Reply → Caller A
  returned : Result Error A → Caller A

pub record Calls (C A : Type 0) : Type 0 where
  pub callers : List (Caller A)
  pub conn : Conn C

module _ {C R A : Type 0} (t : Transport C) (json : Json) (client : Client R) where
  -- The head of the loop behind an attempt.
  unfoldable pub next_attempt : ℕ → Request A → Result Error (Outcome A) → Caller A
  next_attempt i q (err e) = returned (err e)
  next_attempt i q (ok (done a)) = returned (ok a)
  next_attempt i q (ok again) =
      if ltb i client.retries
      then limiting (i + 1) q
      else returned (err (failed (lit "rpc call failed after retries")))

  unfoldable pub after_limit : ℕ → Request A → Result Error (Unit {0}) → Caller A
  after_limit i q (err e) = returned (err (wrap (lit "rate limit wait") [] e))
  after_limit i q (ok u) = entering i q

  -- Behind the building of the request: an error gives the slot back.
  unfoldable pub after_build : ℕ → Request A → Result Error (Unit {0}) → Conn C → Caller A × Conn C
  after_build i q (err e) c =
      (returned (err (wrap (lit "build request") [] e)), record c { held = c.held - 1 })
  after_build i q (ok u) c = (posting i q, c)

  unfoldable pub after_answer : ℕ → Request A → Result Error Reply → Conn C → Caller A × Conn C
  after_answer i q (err e) c =
      let (r, c') = post_failed t json client i e c in (next_attempt i q r, c')
  after_answer i q (ok reply) c =
      let (r, c') = take_reply t json client i q.decode reply c in (next_attempt i q r, c')

  -- One step of a goroutine; `none` where it waits for a slot or has returned.
  unfoldable pub advance_call : Caller A → Conn C → Option (Caller A × Conn C)
  advance_call (limiting i q) c =
      let (r, net) = t.limit_wait c.net in some (after_limit i q r, record c { net = net })
  advance_call (entering i q) c =
      if ltb c.held client.slots then some (building i q, record c { held = c.held + 1 }) else none
  advance_call (building i q) c =
      let (r, net) = t.new_request client.url q.body c.net in
      some (after_build i q r (record c { net = net }))
  advance_call (posting i q) c =
      let (r, net) = t.post client.url q.body c.net in
      some (replied i q r, record c { net = net; held = c.held - 1 })
  advance_call (replied i q r) c = some (after_answer i q r c)
  advance_call (returned r) c = none

  -- Any goroutine that can take a step takes it; the others stay.
  pub data CallStep (s u : Calls C A) : Type 0 where
    go :
        (front behind : List (Caller A)) (x y : Caller A) (c : Conn C)
        → s.callers ≡ front ++ x ∷ behind
        → advance_call x s.conn ≡ some (y, c)
        → u ≡ record { callers = front ++ y ∷ behind; conn = c }
        → CallStep s u

  -- So many steps.
  pub data CallRun (s : Calls C A) : ℕ → Calls C A → Type 0 where
    here : CallRun s 0 s
    next : {n : ℕ} {u v : Calls C A} → CallRun s n u → CallStep u v → CallRun s (suc n) v

  -- The requests as they come in; a goroutine that starts later takes its first step later.
  unfoldable pub start_calls : List (Request A) → C → Calls C A
  start_calls requests net = record {
    callers = map (λ q. limiting 0 q) requests;
    conn = record { net = net; held = 0; waits = [] };
  }
