-- ===== src/Mempool/Threads/Held.antt =====
-- The receipt queue of internal/mempool/tracker.go under goroutines that run at once.
use blockchain_data_feeds_po.Prelude.{
  ◌+◌, ◌≤◌, ◌≡◌, ap, subst, Text, some, List, [], ◌∷◌, ◌++◌, arith, text_eq, text_eq_iff, any,
  length, length-append, leb, Bool-cases, inl, inr, Dict,
}
use blockchain_data_feeds_po.Mempool.Tracker.{Tracker, TrackedTx}
use blockchain_data_feeds_po.Mempool.Threads.{Task, enter_receipt, send_receipt, release_receipt}
use blockchain_data_feeds_po.Mempool.Threads.Count.{
  count, count-one, count-nil, count-cons, count-append, count-fresh, count-leave,
  length-count-leave, held, all_held, count-all_held, length-all_held,
}

-- The hashes in flight are those in the channel, those of one goroutine and those of the others,
-- each once and in one place, and no more than the bound.
pub record Fits (t : Tracker) (xs ys : List Text) : Type 0 where
  pub placed : (h : Text) → count h t.receipt_c + count h xs + count h ys ≡ count h t.inflight
  pub once : (h : Text) → count h t.inflight ≤ 1
  pub sized : length t.receipt_c + length xs + length ys ≡ length t.inflight
  pub room : length t.inflight ≤ t.max_inflight

pub enter_receipt-Fits :
    (h : Text) (t t' : Tracker) (ys : List Text)
    → enter_receipt h t ≡ some t'
    → Fits t [] ys
    → Fits t' (h ∷ []) ys
unfolding enter_receipt
enter_receipt-Fits h t t' ys e i = elim (Bool-cases (any (λ j. text_eq j h) t.inflight)) [
  | inl old ↦ absurd (ground (arith, old, e))
  | inr new ↦ elim (Bool-cases (leb t.max_inflight (length t.inflight))) [
    | inl full ↦ absurd (ground (arith, new, full, e))
    | inr free ↦
        let added : Tracker = record t { inflight = t.inflight ++ h ∷ [] } in
        let same : added ≡ t' = ground (arith, new, free, e) in
        subst (λ (k : Tracker). Fits k (h ∷ []) ys) same
          (record {
            placed = λ j.
                omega (
                  arith,
                  i.placed j,
                  count-nil j,
                  count-one j h,
                  count-append j t.inflight (h ∷ []),
                );
            once = λ j. ground (
              arith,
              i.once j,
              count-one j h,
              count-append j t.inflight (h ∷ []),
              text_eq_iff h j,
              count-fresh h t.inflight new,
            );
            sized = omega (arith, i.sized, length-append t.inflight (h ∷ []));
            room = ground (arith, i.room, free, length-append t.inflight (h ∷ []));
          })
  ]
]

-- A goroutine that has entered a hash finds room in the channel.
pub send_receipt-Fits :
    (h : Text) (t : Tracker) (ys : List Text)
    → Fits t (h ∷ []) ys
    → (t' : Tracker) × (send_receipt h t ≡ some t') × Fits t' [] ys
unfolding send_receipt
send_receipt-Fits h t ys i = (
  record t { receipt_c = t.receipt_c ++ h ∷ [] },
  ground (arith, i.sized, i.room),
  record {
    placed = λ j. omega (arith, i.placed j, count-nil j, count-append j t.receipt_c (h ∷ []));
    once = i.once;
    sized = omega (arith, i.sized, length-append t.receipt_c (h ∷ []));
    room = i.room;
  },
)

pub release_receipt-Fits :
    (h : Text) (t : Tracker) (ys : List Text)
    → Fits t (h ∷ []) ys
    → Fits (release_receipt h t) [] ys
unfolding release_receipt
release_receipt-Fits h t ys i = record {
  placed = λ j. ground (
    arith,
    i.placed j,
    i.once j,
    count-nil j,
    count-one j h,
    count-leave h j t.inflight,
    text_eq_iff h j,
  );
  once = λ j. ground (arith, i.once j, count-leave h j t.inflight);
  sized = ground (
    arith,
    i.sized,
    i.placed h,
    i.once h,
    count-one h h,
    text_eq_iff h h,
    length-count-leave h t.inflight,
  );
  room = omega (arith, i.room, length-count-leave h t.inflight);
}

pub receive-Fits :
    (h : Text) (hs : List Text) (t : Tracker) (ys : List Text)
    → t.receipt_c ≡ h ∷ hs
    → Fits t [] ys
    → Fits (record t { receipt_c = hs }) (h ∷ []) ys
receive-Fits h hs t ys e i = record {
  placed =
      λ j. omega (arith, i.placed j, ap (count j) e, count-nil j, count-one j h, count-cons j h hs);
  once = i.once;
  sized = omega (arith, i.sized, ap length e);
  room = i.room;
}

-- What happens to the entries does not touch the queue.
pub entries-Fits :
    (xs ys : List Text) (txs : Dict TrackedTx) (from_nonce : Dict Text) (t : Tracker)
    → Fits t xs ys
    → Fits (record t { txs = txs; from_nonce = from_nonce }) xs ys
entries-Fits xs ys txs from_nonce t i = record {
  placed = i.placed;
  once = i.once;
  sized = i.sized;
  room = i.room;
}

-- One goroutine beside the others, and back.
pub split-Fits :
    (t : Tracker) (front behind : List Task) (x : Task)
    → Fits t [] (all_held (front ++ x ∷ behind))
    → Fits t (held x) (all_held (front ++ behind))
split-Fits t front behind x i = record {
  placed = λ h. omega (arith, i.placed h, count-nil h, count-all_held h front behind x);
  once = i.once;
  sized = omega (arith, i.sized, length-all_held front behind x);
  room = i.room;
}

pub join-Fits :
    (t : Tracker) (front behind : List Task) (x : Task)
    → Fits t (held x) (all_held (front ++ behind))
    → Fits t [] (all_held (front ++ x ∷ behind))
join-Fits t front behind x i = record {
  placed = λ h. omega (arith, i.placed h, count-nil h, count-all_held h front behind x);
  once = i.once;
  sized = omega (arith, i.sized, length-all_held front behind x);
  room = i.room;
}
