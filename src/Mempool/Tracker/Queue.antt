-- ===== src/Mempool/Tracker/Queue.antt =====
-- The receipt queue of internal/mempool/tracker.go: the set `inflight` and the channel `receiptC`.
use blockchain_data_feeds_po.Prelude.{
  ℕ, suc, ◌≤◌, ◌≡◌, refl, Bool, false, Text, List, [], ◌∷◌, ◌++◌, arith, text_eq, text_eq_iff,
  if◌then◌else◌, any, length, leb, ◌||◌, Bool-cases, inl, inr, length-append,
}
use blockchain_data_feeds_po.Mempool.Tracker.{
  Tracker, leave, enqueue_receipt, enqueue_all, schedule_receipts, on_head, hashes_where,
  is_pending,
}

abbrev pub has : Text → List Text → Bool
has h hs = any (λ j. text_eq j h) hs

unfoldable pub Distinct : List Text → Type 0
Distinct [] = Unit
Distinct (h ∷ hs) = (has h hs ≡ false) × Distinct hs

-- The set has no hash twice and is not larger than its bound, and the channel is not longer than
-- the set.
unfoldable pub IsSound : Tracker → Type 0
IsSound t =
    Distinct t.inflight
    × (length t.receipt_c ≤ length t.inflight)
    × (length t.inflight ≤ t.max_inflight)

has-append : (j h : Text) (hs : List Text) → has j (hs ++ h ∷ []) ≡ (has j hs || text_eq h j)
has-append j h [] = ground arith
has-append j h (x ∷ hs) = ground (arith, has-append j h hs)

Distinct-append :
    (h : Text) (hs : List Text) → Distinct hs → has h hs ≡ false → Distinct (hs ++ h ∷ [])
unfolding Distinct
Distinct-append h [] d n = (refl, tt)
Distinct-append h (x ∷ hs) (f, d) n = (
  ground (arith, has-append x h hs, text_eq_iff x h, text_eq_iff h x),
  Distinct-append h hs d (ground arith),
)

has-leave : (j h : Text) (hs : List Text) → has j hs ≡ false → has j (leave h hs) ≡ false
unfolding leave
has-leave j h [] n = refl
has-leave j h (x ∷ hs) n = ground (arith, has-leave j h hs)

pub Distinct-leave : (h : Text) (hs : List Text) → Distinct hs → Distinct (leave h hs)
unfolding Distinct leave
Distinct-leave h [] d = tt
Distinct-leave h (x ∷ hs) (f, d) = elim (Bool-cases (text_eq x h)) [
  | inl e ↦ rw e (Distinct-leave h hs d)
  | inr e ↦ rw e (has-leave x h hs f, Distinct-leave h hs d)
]

leave-fresh : (h : Text) (hs : List Text) → has h hs ≡ false → leave h hs ≡ hs
unfolding leave
leave-fresh h [] n = refl
leave-fresh h (x ∷ hs) n = ground (arith, leave-fresh h hs)

-- At most one entry goes.
pub length-leave : (h : Text) (hs : List Text) → Distinct hs → length hs ≤ suc (length (leave h hs))
unfolding Distinct leave
length-leave h [] d = omega arith
length-leave h (x ∷ hs) (f, d) =
    ground (arith, length-leave h hs d, leave-fresh h hs, text_eq_iff x h)

pub length-leave-le : (h : Text) (hs : List Text) → length (leave h hs) ≤ length hs
unfolding leave
length-leave-le h [] = omega arith
length-leave-le h (x ∷ hs) = ground (arith, length-leave-le h hs)

-- In a sound queue a hash that is in flight, or that finds the set full, changes nothing; any other
-- hash comes last in the set and in the channel. So the branch for a full channel is never taken.
pub enqueue_receipt_lem :
    (h : Text) (t : Tracker)
    → IsSound t
    → enqueue_receipt h t ≡ (
        if has h t.inflight || leb t.max_inflight (length t.inflight)
        then t
        else record t { inflight = t.inflight ++ h ∷ []; receipt_c = t.receipt_c ++ h ∷ [] })
unfolding enqueue_receipt IsSound
enqueue_receipt_lem h t (d, c, m) = ground arith

pub enqueue_receipt-IsSound : (h : Text) (t : Tracker) → IsSound t → IsSound (enqueue_receipt h t)
unfolding IsSound
enqueue_receipt-IsSound h t (d, c, m) =
    elim (Bool-cases (has h t.inflight || leb t.max_inflight (length t.inflight))) [
      | inl e ↦ rw (enqueue_receipt_lem h t (d, c, m), e) (d, c, m)
      | inr e ↦
          rw (enqueue_receipt_lem h t (d, c, m), e)
            (
              Distinct-append h t.inflight d (ground arith),
              ground (arith, length-append t.inflight (h ∷ []), length-append t.receipt_c (h ∷ [])),
              ground (arith, length-append t.inflight (h ∷ [])),
            )
    ]

pub enqueue_all-IsSound : (hs : List Text) (t : Tracker) → IsSound t → IsSound (enqueue_all hs t)
unfolding enqueue_all
enqueue_all-IsSound [] t h = h
enqueue_all-IsSound (x ∷ hs) t h =
    enqueue_all-IsSound hs (enqueue_receipt x t) (enqueue_receipt-IsSound x t h)

pub on_head-IsSound : (head : ℕ) (t : Tracker) → IsSound t → IsSound (on_head head t)
unfolding on_head schedule_receipts
on_head-IsSound head t h = enqueue_all-IsSound (hashes_where is_pending t.txs) t h
