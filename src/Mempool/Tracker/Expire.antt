-- ===== src/Mempool/Tracker/Expire.antt =====
-- The sweep of internal/mempool/tracker.go over the tracked transactions.
use blockchain_data_feeds_po.Prelude.{
  ◌≡◌, refl, false, Text, [], ◌∷◌, Option, none, some, arith, text_eq, if◌then◌else◌, Dict, lookup,
  Bool-cases, inl, inr,
}
use blockchain_data_feeds_po.Store.Types.{Time}
use blockchain_data_feeds_po.Store.Mempool.{dropped, pending}
use blockchain_data_feeds_po.Mempool.Tracker.{TrackedTx, is_expired, expire, hashes_where}

abbrev pub swept : Time → Option TrackedTx → Option TrackedTx
swept cutoff none = none
swept cutoff (some tx) = some (if is_expired cutoff tx then record tx { status = dropped } else tx)

dropped_differs : text_eq dropped pending ≡ false
unfolding text_eq
dropped_differs = refl

-- The sweep gives the status `dropped` to an entry that is pending and was first seen before the
-- cutoff, changes no other entry and removes none; and after it no entry is expired, so that a
-- second sweep with the same cutoff marks nothing.
pub expire_lem :
    (cutoff : Time) (h : Text) (txs : Dict TrackedTx)
    → (lookup h (expire cutoff txs) ≡ swept cutoff (lookup h txs))
      × (hashes_where (is_expired cutoff) (expire cutoff txs) ≡ [])
unfolding expire lookup hashes_where
expire_lem cutoff h [] = (refl, refl)
expire_lem cutoff h ((j, tx) ∷ txs) =
    let (a, b) = expire_lem cutoff h txs in
    elim (Bool-cases (is_expired cutoff tx)) [
      | inl e ↦ rw e (ground (arith, a, e), ground (arith, b, dropped_differs))
      | inr e ↦ rw e (ground (arith, a, e), ground (arith, b, e))
    ]
