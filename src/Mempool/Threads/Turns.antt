-- ===== src/Mempool/Threads/Turns.antt =====
-- One goroutine of internal/mempool/tracker.go that runs while the others wait.
use blockchain_data_feeds_po.Prelude.{
  ◌≡◌, refl, sym, ap, Text, none, some, List, [], ◌∷◌, ◌++◌, arith, Option-cases, inl, inr,
}
use blockchain_data_feeds_po.Store.Db.{Database}
use blockchain_data_feeds_po.Rpc.Interface.{Rpc}
use blockchain_data_feeds_po.Mempool.Tracker.{Tracker, enqueue_receipt, enqueue_all}
use blockchain_data_feeds_po.Mempool.Handlers.{Feed}
use blockchain_data_feeds_po.Mempool.Threads.{
  Continuation, rest, Task, entering, sending, giving_up, heads, System, resume, enter_receipt,
  send_receipt, release_receipt, advance, turn, Reach, here, next,
}

enqueue_receipt-split :
    (h : Text) (t : Tracker)
    → enqueue_receipt h t ≡ elim (enter_receipt h t) [
      | none ↦ t
      | some entered ↦ elim (send_receipt h entered) [
        | none ↦ release_receipt h entered
        | some sent ↦ sent
      ]
    ]
unfolding enqueue_receipt enter_receipt send_receipt release_receipt
enqueue_receipt-split h t = ground arith

module _ {C : Type 0} (rpc : Rpc C) (d : Database) where
  pub Reach-trans : {s t u : System C} → Reach rpc d s t → Reach rpc d t u → Reach rpc d s u
  Reach-trans r here = r
  Reach-trans r (next q st) = next (Reach-trans r q) st

  -- One goroutine gets from one place to another while the others wait.
  abbrev pub Alone : Task → Feed C → Task → Feed C → Type 0
  Alone x f y g =
      (front behind : List Task)
      → Reach rpc d (record { tasks = front ++ x ∷ behind; feed = f })
          (record { tasks = front ++ y ∷ behind; feed = g })

  pub Alone-trans : (x y z : Task) (f g k : Feed C) → Alone x f y g → Alone y g z k → Alone x f z k
  Alone-trans x y z f g k p q front behind = Reach-trans (p front behind) (q front behind)

  pub Alone-turn : (x y : Task) (f g : Feed C) → advance rpc d x f ≡ (y, g) → Alone x f y g
  Alone-turn x y f g e front behind = next here (
      turn front behind x refl (
        sym (
          ap
            (λ (r : Task × Feed C).
              let m : System C = record { tasks = front ++ r.0 ∷ behind; feed = r.1 } in m)
            e)))

  -- One step, and then the rest of the way.
  pub Alone-then :
      (x y z : Task) (f g k : Feed C) → advance rpc d x f ≡ (y, g) → Alone y g z k → Alone x f z k
  Alone-then x y z f g k e q = Alone-trans x y z f g k (Alone-turn x y f g e) q

  pub entering-Alone :
      (h : Text) (k : Continuation) (f : Feed C)
      → Alone (entering h k) f (resume k) (record f { tracker = enqueue_receipt h f.tracker })
  unfolding advance
  entering-Alone h k f = elim (Option-cases (enter_receipt h f.tracker)) [
    | inl out ↦
        Alone-turn (entering h k) (resume k) f (record f { tracker = enqueue_receipt h f.tracker })
          (rw (advance, out, enqueue_receipt-split h f.tracker, out) refl)
    | inr (t, e) ↦
        Alone-then (entering h k) (sending h k) (resume k) f (record f { tracker = t })
          (record f { tracker = enqueue_receipt h f.tracker }) (rw (advance, e) refl)
          (elim (Option-cases (send_receipt h t)) [
            | inl full ↦
                Alone-then (sending h k) (giving_up h k) (resume k) (record f { tracker = t })
                  (record f { tracker = t }) (record f { tracker = enqueue_receipt h f.tracker })
                  (rw (advance, full) refl)
                  (Alone-turn (giving_up h k) (resume k) (record f { tracker = t })
                    (record f { tracker = enqueue_receipt h f.tracker })
                    (rw (enqueue_receipt-split h f.tracker, e, full) refl))
            | inr (u, s) ↦
                Alone-turn (sending h k) (resume k) (record f { tracker = t })
                  (record f { tracker = enqueue_receipt h f.tracker })
                  (rw (advance, s, enqueue_receipt-split h f.tracker, e, s) refl)
          ])
  ]

  pub enqueue_all-Alone :
      (hs : List Text) (f : Feed C)
      → Alone (resume (rest hs)) f heads (record f { tracker = enqueue_all hs f.tracker })
  unfolding resume enqueue_all
  enqueue_all-Alone [] f = λ front behind. here
  enqueue_all-Alone (h ∷ hs) f =
      let g : Feed C = record f { tracker = enqueue_receipt h f.tracker } in
      Alone-trans (entering h (rest hs)) (resume (rest hs)) heads f g
        (record f { tracker = enqueue_all (h ∷ hs) f.tracker }) (entering-Alone h (rest hs) f)
        (enqueue_all-Alone hs g)
