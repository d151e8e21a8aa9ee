-- ===== src/Rpc/Client/Calls/Slots.antt =====
-- What one step of a goroutine in `Call` of internal/rpc/client.go does to the semaphore, and how
-- much of its way is left.
use blockchain_data_feeds_po.Prelude.{
  ℕ, ◌+◌, ◌-◌, ◌*◌, ◌≤◌, ◌<◌, ◌≡◌, refl, Option, none, some, List, [], ◌∷◌, arith, ltb, Bool-cases,
  inl, inr,
}
use blockchain_data_feeds_po.Prelude.Exec.{Error, Result, ok, err, Result-cases}
use blockchain_data_feeds_po.Rpc.Client.{
  Json, Reply, Transport, Client, Conn, Outcome, again, done, post_failed, take_reply,
}
use blockchain_data_feeds_po.Rpc.Client.Bounds.{post_failed-Rounded, take_reply-Rounded}
use blockchain_data_feeds_po.Rpc.Client.Calls.{
  Request, Caller, limiting, entering, building, posting, replied, returned, next_attempt,
  after_limit, after_build, after_answer, advance_call,
}

module _ {A : Type 0} where
  -- The slots of a goroutine.
  abbrev pub slots_of : Caller A → ℕ
  slots_of (building i q) = 1
  slots_of (posting i q) = 1
  slots_of _ = 0

  abbrev pub slots_in : List (Caller A) → ℕ
  slots_in [] = 0
  slots_in (x ∷ xs) = slots_of x + slots_in xs

  -- A bound on the steps that are left: five for an attempt, and so many for those that may follow.
  abbrev pub steps_left : ℕ → Caller A → ℕ
  steps_left retries (limiting i q) = 5 * (retries - i) + 5
  steps_left retries (entering i q) = 5 * (retries - i) + 4
  steps_left retries (building i q) = 5 * (retries - i) + 3
  steps_left retries (posting i q) = 5 * (retries - i) + 2
  steps_left retries (replied i q r) = 5 * (retries - i) + 1
  steps_left retries (returned r) = 0

module _ {C R A : Type 0} (t : Transport C) (json : Json) (client : Client R) where
  -- A step keeps the count of the slots, takes none above the capacity, and comes nearer to the end.
  abbrev pub Kept : Caller A → Conn C → Caller A → Conn C → Type 0
  Kept x c y c' =
      (c'.held + slots_of x ≡ c.held + slots_of y)
      × (c'.held ≤ client.slots)
      × (steps_left client.retries y < steps_left client.retries x)

  abbrev pub Advanced : Caller A → Conn C → Option (Caller A × Conn C) → Type 0
  Advanced x c none = Unit
  Advanced x c (some (y, c')) = Kept x c y c'

  next_attempt_lem :
      (i : ℕ) (q : Request A) (r : Result Error (Outcome A))
      → (slots_of (next_attempt t json client i q r) ≡ 0)
        × (steps_left client.retries (next_attempt t json client i q r)
            < 5 * (client.retries - i) + 1)
  unfolding next_attempt
  next_attempt_lem i q (err e) = (refl, omega arith)
  next_attempt_lem i q (ok (done a)) = (refl, omega arith)
  next_attempt_lem i q (ok again) = elim (Bool-cases (ltb i client.retries)) [
    | inl more ↦ rw more (refl, ground arith)
    | inr last ↦ rw last (refl, omega arith)
  ]

  after_answer_lem :
      (i : ℕ) (q : Request A) (r : Result Error Reply) (c : Conn C)
      → (slots_of (after_answer t json client i q r c).0 ≡ 0)
        × ((after_answer t json client i q r c).1.held ≡ c.held)
        × (steps_left client.retries (after_answer t json client i q r c).0
            < 5 * (client.retries - i) + 1)
  unfolding after_answer
  after_answer_lem i q (err e) c =
      let (none_held, nearer) = next_attempt_lem i q (post_failed t json client i e c).0 in
      (none_held, (post_failed-Rounded t json client q.decode i e c).0, nearer)
  after_answer_lem i q (ok reply) c =
      let (none_held, nearer) =
        next_attempt_lem i q (take_reply t json client i q.decode reply c).0 in
      (none_held, (take_reply-Rounded t json client q.decode i reply c).0, nearer)

  pub advance_call-Advanced :
      (x : Caller A) (c : Conn C)
      → slots_of x ≤ c.held
      → c.held ≤ client.slots
      → Advanced x c (advance_call t json client x c)
  unfolding advance_call after_limit after_build
  advance_call-Advanced (limiting i q) c own room = elim (Result-cases (t.limit_wait c.net).0) [
    | inl (u, e) ↦ rw (advance_call, e) (omega arith, room, omega arith)
    | inr (x, e) ↦ rw (advance_call, e) (omega arith, room, omega arith)
  ]
  advance_call-Advanced (entering i q) c own room = elim (Bool-cases (ltb c.held client.slots)) [
    | inl free ↦ rw free (omega arith, ground arith, omega arith)
    | inr full ↦ rw full tt
  ]
  advance_call-Advanced (building i q) c own room =
      elim (Result-cases (t.new_request client.url q.body c.net).0) [
        | inl (u, e) ↦ rw (advance_call, e) (omega arith, room, omega arith)
        | inr (x, e) ↦ rw (advance_call, e) (omega arith, omega arith, omega arith)
      ]
  advance_call-Advanced (posting i q) c own room = (omega arith, omega arith, omega arith)
  advance_call-Advanced (replied i q r) c own room =
      let (none_held, same, nearer) = after_answer_lem i q r c in
      (omega (arith, none_held, same), omega (arith, same, room), nearer)
  advance_call-Advanced (returned r) c own room = tt
