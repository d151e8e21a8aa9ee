-- ===== src/Mempool/Tracker/Entries.antt =====
-- The entries of the tracker, internal/mempool/tracker.go, under heads and sweeps.
use blockchain_data_feeds_po.Prelude.{
  ◌≡◌, refl, ◌∙◌, subst, Bool, false, Text, List, [], ◌∷◌, ◌++◌, some, none, arith, text_eq,
  text_eq_iff, Dict, lookup, put, lookup-put, Bool-cases, Option-cases, inl, inr, ◌||◌,
}
use blockchain_data_feeds_po.Store.Types.{Time}
use blockchain_data_feeds_po.Store.Mempool.{dropped}
use blockchain_data_feeds_po.Mempool.Tracker.{
  Tracker, TrackedTx, enqueue_receipt, enqueue_all, hashes_where, is_pending, is_expired, expire,
  set_status,
}
use blockchain_data_feeds_po.Mempool.Tracker.Queue.{has}

-- A map has a key once.
unfoldable pub IsMap : Dict TrackedTx → Type 0
IsMap [] = Unit
IsMap ((k, tx) ∷ txs) = (lookup k txs ≡ none) × IsMap txs

has-append : (j h : Text) (hs : List Text) → has j (hs ++ h ∷ []) ≡ (has j hs || text_eq h j)
has-append j h [] = ground arith
has-append j h (x ∷ hs) = ground (arith, has-append j h hs)

-- A hash whose entry does not pass is not among those that pass.
lookup-none-where :
    (p : TrackedTx → Bool) (h : Text) (txs : Dict TrackedTx)
    → lookup h txs ≡ none
    → has h (hashes_where p txs) ≡ false
unfolding lookup hashes_where
lookup-none-where p h [] e = refl
lookup-none-where p h ((k, tx) ∷ txs) e = ground (arith, e, lookup-none-where p h txs)

pub has-where :
    (p : TrackedTx → Bool) (h : Text) (tx : TrackedTx) (txs : Dict TrackedTx)
    → IsMap txs
    → lookup h txs ≡ some tx
    → p tx ≡ false
    → has h (hashes_where p txs) ≡ false
unfolding IsMap lookup hashes_where
has-where p h tx [] m e n = cc
has-where p h tx ((k, w) ∷ txs) (fresh, m) e n = elim (Bool-cases (text_eq k h)) [
  | inl s ↦
      let same = (text_eq_iff k h).0 s in
      let rest = lookup-none-where p h txs (subst (λ (j : Text). lookup j txs ≡ none) same fresh) in
      ground (arith, s, e, n, rest)
  | inr s ↦ ground (arith, s, has-where p h tx txs m (ground (arith, s, e)) n)
]

-- A head asks for no receipt but those of the hashes that it schedules.
enqueue_receipt-other :
    (j h : Text) (t : Tracker)
    → text_eq h j ≡ false
    → has j (enqueue_receipt h t).receipt_c ≡ has j t.receipt_c
unfolding enqueue_receipt
enqueue_receipt-other j h t n = ground (arith, has-append j h t.receipt_c)

pub enqueue_receipt-kept : (h : Text) (t : Tracker) → (enqueue_receipt h t).txs ≡ t.txs
unfolding enqueue_receipt
enqueue_receipt-kept h t = ground arith

pub enqueue_all-other :
    (j : Text) (hs : List Text) (t : Tracker)
    → has j hs ≡ false
    → (has j (enqueue_all hs t).receipt_c ≡ has j t.receipt_c) × ((enqueue_all hs t).txs ≡ t.txs)
unfolding enqueue_all
enqueue_all-other j [] t n = (refl, refl)
enqueue_all-other j (h ∷ hs) t n =
    let (a, b) = enqueue_all-other j hs (enqueue_receipt h t) (ground (arith, n)) in
    (a ∙ enqueue_receipt-other j h t (ground (arith, n)), b ∙ enqueue_receipt-kept h t)

pub lookup-expire :
    (cutoff : Time) (h : Text) (tx : TrackedTx) (txs : Dict TrackedTx)
    → lookup h txs ≡ some tx
    → is_expired cutoff tx ≡ false
    → lookup h (expire cutoff txs) ≡ some tx
unfolding lookup expire
lookup-expire cutoff h tx [] e n = cc
lookup-expire cutoff h tx ((k, w) ∷ txs) e n = elim (Bool-cases (text_eq k h)) [
  | inl s ↦ ground (arith, s, e, n)
  | inr s ↦ ground (arith, s, e, lookup-expire cutoff h tx txs)
]

lookup-none-expire :
    (cutoff : Time) (h : Text) (txs : Dict TrackedTx)
    → lookup h txs ≡ none
    → lookup h (expire cutoff txs) ≡ none
unfolding lookup expire
lookup-none-expire cutoff h [] e = refl
lookup-none-expire cutoff h ((k, w) ∷ txs) e = ground (arith, e, lookup-none-expire cutoff h txs)

pub expire-IsMap : (cutoff : Time) (txs : Dict TrackedTx) → IsMap txs → IsMap (expire cutoff txs)
unfolding IsMap expire
expire-IsMap cutoff [] m = tt
expire-IsMap cutoff ((k, w) ∷ txs) (fresh, m) =
    (lookup-none-expire cutoff k txs fresh, expire-IsMap cutoff txs m)

pub put-IsMap : (k : Text) (v : TrackedTx) (txs : Dict TrackedTx) → IsMap txs → IsMap (put k v txs)
unfolding IsMap put lookup
put-IsMap k v [] m = (refl, tt)
put-IsMap k v ((j, w) ∷ txs) (fresh, m) = elim (Bool-cases (text_eq j k)) [
  | inl e ↦ rw e (fresh, m)
  | inr e ↦ rw e (
    ground (arith, e, fresh, text_eq_iff j k, text_eq_iff k j, lookup-put k j v txs),
    put-IsMap k v txs m,
  )
]

pub set_status-IsMap :
    (k status : Text) (txs : Dict TrackedTx) → IsMap txs → IsMap (set_status k status txs)
unfolding set_status
set_status-IsMap k status txs m = elim (Option-cases (lookup k txs)) [
  | inl e ↦ rw (set_status, e) m
  | inr (tx, e) ↦ rw (set_status, e) (put-IsMap k (record tx { status = status }) txs m)
]

pub dropped_waits : (tx : TrackedTx) → tx.status ≡ dropped → is_pending tx ≡ false
unfolding text_eq
dropped_waits tx e = rw e refl

pub expired_waits :
    (cutoff : Time) (tx : TrackedTx) → tx.status ≡ dropped → is_expired cutoff tx ≡ false
expired_waits cutoff tx e = let w = dropped_waits tx e in rw w refl
