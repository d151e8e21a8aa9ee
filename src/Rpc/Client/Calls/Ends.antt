-- ===== src/Rpc/Client/Calls/Ends.antt =====
-- Calls of internal/rpc/client.go at once: the semaphore, and that they come to an end.
use blockchain_data_feeds_po.Prelude.{
  ℕ, zero, suc, ◌+◌, ◌*◌, ◌≤◌, ◌<◌, ◌≡◌, ◌⊎◌, refl, sym, subst, ℤ, pos, negsuc, Bool, Text, List,
  [], ◌∷◌, ◌++◌, arith, length, map, All,
}
use blockchain_data_feeds_po.Rpc.Client.{Json, Transport, Client, new_client}
use blockchain_data_feeds_po.Rpc.Client.Calls.{
  Request, Caller, limiting, Calls, CallStep, go, CallRun, here, next, start_calls,
}
use blockchain_data_feeds_po.Rpc.Client.Calls.Slots.{
  slots_of, slots_in, steps_left, Advanced, advance_call-Advanced,
}
use blockchain_data_feeds_po.Rpc.Client.Calls.Moves.{IsReturned, CanMove, never_blocked}

module _ {A : Type 0} where
  abbrev left_in : ℕ → List (Caller A) → ℕ
  left_in retries [] = 0
  left_in retries (x ∷ xs) = steps_left retries x + left_in retries xs

  slots_in-swap :
      (front behind : List (Caller A)) (x y : Caller A)
      → slots_in (front ++ y ∷ behind) + slots_of x ≡ slots_in (front ++ x ∷ behind) + slots_of y
  slots_in-swap [] behind x y = omega arith
  slots_in-swap (z ∷ front) behind x y = omega (arith, slots_in-swap front behind x y)

  slots_of-le :
      (front behind : List (Caller A)) (x : Caller A) → slots_of x ≤ slots_in (front ++ x ∷ behind)
  slots_of-le [] behind x = omega arith
  slots_of-le (z ∷ front) behind x = omega (arith, slots_of-le front behind x)

  left_in-swap :
      (retries : ℕ) (front behind : List (Caller A)) (x y : Caller A)
      → steps_left retries y < steps_left retries x
      → left_in retries (front ++ y ∷ behind) < left_in retries (front ++ x ∷ behind)
  left_in-swap retries [] behind x y h = omega arith
  left_in-swap retries (z ∷ front) behind x y h =
      omega (arith, left_in-swap retries front behind x y h)

module _ {C R A : Type 0} (t : Transport C) (json : Json) (client : Client R) where
  -- Behind `n` steps of what started with `bound` steps left.
  record IsUnderWay (bound n : ℕ) (s : Calls C A) : Type 0 where
    count : s.conn.held ≡ slots_in s.callers
    room : s.conn.held ≤ client.slots
    nearer : n + left_in client.retries s.callers ≤ bound

  CallStep-IsUnderWay :
      (bound n : ℕ) {s u : Calls C A}
      → CallStep t json client s u
      → IsUnderWay bound n s
      → IsUnderWay bound (suc n) u
  CallStep-IsUnderWay bound n {s} {u} (go front behind x y c split moved same) i =
      let count : s.conn.held ≡ slots_in (front ++ x ∷ behind) =
        subst (λ (k : List (Caller A)). s.conn.held ≡ slots_in k) split i.count in
      let way : n + left_in client.retries (front ++ x ∷ behind) ≤ bound =
        subst (λ (k : List (Caller A)). n + left_in client.retries k ≤ bound) split i.nearer in
      let (slots, room, nearer) = subst (Advanced t json client x s.conn) moved (
        advance_call-Advanced t json client x s.conn
          (omega (arith, slots_of-le front behind x, count)) i.room) in
      subst (IsUnderWay bound (suc n)) (sym same) (record {
        count = omega (arith, slots, count, slots_in-swap front behind x y);
        room = room;
        nearer = omega (arith, way, left_in-swap client.retries front behind x y nearer);
      })

  CallRun-IsUnderWay :
      (bound n : ℕ) {s u : Calls C A}
      → CallRun t json client s n u
      → IsUnderWay bound 0 s
      → IsUnderWay bound n u
  CallRun-IsUnderWay bound zero here i = i
  CallRun-IsUnderWay bound (suc n) (next r st) i =
      CallStep-IsUnderWay bound n st (CallRun-IsUnderWay bound n r i)

  start-slots_in : (qs : List (Request A)) → slots_in (map (λ q. limiting 0 q) qs) ≡ 0
  start-slots_in [] = refl
  start-slots_in (q ∷ qs) = omega (arith, start-slots_in qs)

  start-left_in :
      (qs : List (Request A))
      → client.retries ≡ 5
      → left_in client.retries (map (λ q. limiting 0 q) qs) ≡ 30 * length qs
  start-left_in [] e = omega arith
  start-left_in (q ∷ qs) e = omega (arith, e, start-left_in qs e)

module _ {R : Type 0} (positive : R → Bool) (url : Text) (rate : R) where
  new_client_lem :
      (concurrency : ℤ)
      → (0 < (new_client positive url concurrency rate).slots)
        × ((new_client positive url concurrency rate).retries ≡ 5)
  unfolding new_client
  new_client_lem (pos zero) = (omega arith, refl)
  new_client_lem (pos (suc n)) = (omega arith, refl)
  new_client_lem (negsuc n) = (omega arith, refl)

module _ {C R A : Type 0} (t : Transport C) (json : Json) (positive : R → Bool) (url : Text)
    (concurrency : ℤ) (rate : R) where
  -- Calls at once on a new client, whatever the network answers and whoever takes the next step:
  -- the slots in use are those of the calls between the semaphore and their answer, and never more
  -- than the client has; some call can take a step, or all have returned; and no more than thirty
  -- steps a call are taken, so that all do return.
  pub calls_lem :
      (requests : List (Request A)) (net : C) (n : ℕ) (s : Calls C A)
      → CallRun t json
          (new_client positive url concurrency rate)
          (start_calls t json (new_client positive url concurrency rate) requests net)
          n
          s
      → (slots_in s.callers ≤ (new_client positive url concurrency rate).slots)
        × (s.conn.held ≡ slots_in s.callers)
        × (CanMove t json (new_client positive url concurrency rate) s.callers s.conn
            ⊎ All IsReturned s.callers)
        × (n ≤ 30 * length requests)
  unfolding start_calls
  calls_lem requests net n s r =
      let (slots, retries) = new_client_lem positive url rate concurrency in
      let i =
        CallRun-IsUnderWay t json (new_client positive url concurrency rate) (30 * length requests)
          n r
          (record {
            count = sym (start-slots_in t json (new_client positive url concurrency rate) requests);
            room = omega arith;
            nearer = omega (
              arith,
              start-left_in t json (new_client positive url concurrency rate) requests retries,
            );
          }) in
      (
        omega (arith, i.count, i.room),
        i.count,
        never_blocked t json (new_client positive url concurrency rate) s.callers s.conn slots
            i.count,
        omega (arith, i.nearer),
      )
