-- ===== src/Rpc/Client/Calls/Moves.antt =====
-- Some goroutine in `Call` of internal/rpc/client.go can always go on.
use blockchain_data_feeds_po.Prelude.{
  ◌≤◌, ◌<◌, ◌≡◌, ◌⊎◌, refl, ap, none, some, List, [], ◌∷◌, ◌++◌, arith, All, Option-cases, inl, inr,
}
use blockchain_data_feeds_po.Prelude.Exec.{Error, Result}
use blockchain_data_feeds_po.Rpc.Client.{Json, Transport, Client, Conn}
use blockchain_data_feeds_po.Rpc.Client.Calls.{
  Caller, limiting, entering, building, posting, replied, returned, advance_call,
}
use blockchain_data_feeds_po.Rpc.Client.Calls.Slots.{slots_of, slots_in}

abbrev pub IsReturned : {A : Type 0} → Caller A → Type 0
IsReturned {A} x = (r : Result Error A) × (x ≡ returned r)

module _ {C R A : Type 0} (t : Transport C) (json : Json) (client : Client R) where
  -- One of the goroutines can take a step.
  abbrev pub CanMove : List (Caller A) → Conn C → Type 0
  CanMove xs c =
      (front : List (Caller A)) × (behind : List (Caller A)) × (x : Caller A) × (y : Caller A)
      × (c' : Conn C) × (xs ≡ front ++ x ∷ behind)
      × (advance_call t json client x c ≡ some (y, c'))

  -- A goroutine that cannot has returned, or waits for a slot while none is free; so it has none.
  abbrev IsStuck : Conn C → Caller A → Type 0
  IsStuck c x = (slots_of x ≡ 0) × (IsReturned x ⊎ (client.slots ≤ c.held))

  stuck_lem : (x : Caller A) (c : Conn C) → advance_call t json client x c ≡ none → IsStuck c x
  unfolding advance_call
  stuck_lem (limiting i q) c e = cc
  stuck_lem (entering i q) c e = (refl, inr (ground arith))
  stuck_lem (building i q) c e = cc
  stuck_lem (posting i q) c e = cc
  stuck_lem (replied i q r) c e = cc
  stuck_lem (returned r) c e = (refl, inl (r, refl))

  move_or_none : (xs : List (Caller A)) (c : Conn C) → CanMove xs c ⊎ All (IsStuck c) xs
  move_or_none [] c = inr tt
  move_or_none (x ∷ xs) c = elim (Option-cases (advance_call t json client x c)) [
    | inr ((y, c'), e) ↦ inl ([], xs, x, y, c', refl, e)
    | inl e ↦ elim (move_or_none xs c) [
      | inl (front, behind, z, y, c', split, moves) ↦
          inl (x ∷ front, behind, z, y, c', ap (λ (k : List (Caller A)). x ∷ k) split, moves)
      | inr stuck ↦ inr (stuck_lem x c e, stuck)
    ]
  ]

  stuck-slots_in : (xs : List (Caller A)) (c : Conn C) → All (IsStuck c) xs → slots_in xs ≡ 0
  stuck-slots_in [] c a = refl
  stuck-slots_in (x ∷ xs) c ((own, why), a) = omega (arith, own, stuck-slots_in xs c a)

  stuck-IsReturned :
      (xs : List (Caller A)) (c : Conn C)
      → c.held < client.slots
      → All (IsStuck c) xs
      → All IsReturned xs
  stuck-IsReturned [] c free a = tt
  stuck-IsReturned (x ∷ xs) c free ((own, inl r), a) = (r, stuck-IsReturned xs c free a)
  stuck-IsReturned (x ∷ xs) c free ((own, inr full), a) = absurd (omega arith)

  -- Where the slots in use are those of the goroutines, and there are slots at all, some goroutine
  -- can move or all have returned.
  pub never_blocked :
      (xs : List (Caller A)) (c : Conn C)
      → 0 < client.slots
      → c.held ≡ slots_in xs
      → CanMove xs c ⊎ All IsReturned xs
  never_blocked xs c some_slots count = elim (move_or_none xs c) [
    | inl m ↦ inl m
    | inr stuck ↦
        let none_held = stuck-slots_in xs c stuck in
        inr (stuck-IsReturned xs c (omega (arith, none_held)) stuck)
  ]
