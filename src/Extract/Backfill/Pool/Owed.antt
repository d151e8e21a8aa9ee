-- ===== src/Extract/Backfill/Pool/Owed.antt =====
-- What the pool of internal/extract/backfill.go still owes: blocks in ranges and with workers.
use blockchain_data_feeds_po.Prelude.{
  ℕ, ◌+◌, ◌≤◌, ◌<◌, ◌≡◌, refl, List, [], ◌∷◌, ◌++◌, ◌⊎◌, inl, inr, arith, All, word, length,
}
use blockchain_data_feeds_po.Extract.Chunker.Bounds.{IsValid}
use blockchain_data_feeds_po.Extract.Backfill.{Range}
use blockchain_data_feeds_po.Extract.Backfill.Cover.{Covers}
use blockchain_data_feeds_po.Extract.Backfill.Pool.{
  Producer, ready, sending, closed, Worker, idle, busy, gone, is_gone, AllGone,
}

-- Some entry meets the predicate.
abbrev pub Any : {A : Type 0} → (A → Type 0) → List A → Type 0
Any P [] = ⊥
Any P (x ∷ xs) = P x ⊎ Any P xs

abbrev pub left_ranges : Producer → List Range
left_ranges (ready rs) = rs
left_ranges (sending r rs) = r ∷ rs
left_ranges closed = []

-- The block lies in the range; the worker has the block before it.
abbrev pub Holds : ℕ → Range → Type 0
Holds b r = (r.from ≤ b) × (b ≤ r.to)

abbrev pub Carries : ℕ → Worker → Type 0
Carries b (idle c) = ⊥
Carries b (busy c cache current to) = (current ≤ b) × (b ≤ to)
Carries b gone = ⊥

-- The range, or the worker's own, ends below the last `uint64`, and its chunker is valid.
abbrev pub Fits : Range → Type 0
Fits r = (r.from ≤ r.to) × (r.to + 1 < word)

abbrev pub IsFit : Worker → Type 0
IsFit (idle c) = IsValid c
IsFit (busy c cache current to) = IsValid c × (current ≤ to + 1) × (to + 1 < word)
IsFit gone = Unit

module _ {A : Type 0} (P : A → Type 0) where
  pub Any-swap :
      (front back : List A) (x y : A) → Any P (front ++ x ∷ back) → P x ⊎ Any P (front ++ y ∷ back)
  Any-swap [] back x y (inl p) = inl p
  Any-swap [] back x y (inr q) = inr (inr q)
  Any-swap (z ∷ front) back x y (inl p) = inr (inl p)
  Any-swap (z ∷ front) back x y (inr q) = elim (Any-swap front back x y q) [
    | inl p ↦ inl p
    | inr r ↦ inr (inr r)
  ]

  pub Any-at : (front back : List A) (x : A) → P x → Any P (front ++ x ∷ back)
  Any-at [] back x p = inl p
  Any-at (z ∷ front) back x p = inr (Any-at front back x p)

pub split_at : (n mid : ℕ) → (n < mid) ⊎ (mid ≤ n)
split_at n mid = grind arith

pub length-swap :
    {A : Type 0} (front back : List A) (x y : A)
    → length (front ++ x ∷ back) ≡ length (front ++ y ∷ back)
length-swap [] back x y = refl
length-swap (z ∷ front) back x y = omega (arith, length-swap front back x y)

-- Ranges that cover blocks have each of the blocks, and fit.
pub Covers-Holds :
    (size from stop b : ℕ) (rs : List Range)
    → Covers size from stop rs
    → from ≤ b
    → b < stop
    → Any (Holds b) rs
Covers-Holds size from stop b [] c lo hi = omega arith
Covers-Holds size from stop b (r ∷ rs) (e, le, short, c) lo hi = elim (split_at b (r.to + 1)) [
  | inl early ↦ inl (rw e lo, omega arith)
  | inr late ↦ inr (Covers-Holds size (r.to + 1) stop b rs c late hi)
]

pub Covers-Fits :
    (size from stop : ℕ) (rs : List Range)
    → Covers size from stop rs
    → stop < word
    → (from ≤ stop) × All Fits rs
Covers-Fits size from stop [] c h = (omega arith, tt)
Covers-Fits size from stop (r ∷ rs) (e, le, short, c) h =
    let (a, rest) = Covers-Fits size (r.to + 1) stop rs c h in
    (omega arith, ((omega arith, omega arith), rest))

-- A worker among those that are all gone is gone, and has nothing.
pub AllGone-Carries : (b : ℕ) (ws : List Worker) → AllGone ws → Any (Carries b) ws → ⊥
unfolding is_gone
AllGone-Carries b [] a c = c
AllGone-Carries b (idle x ∷ ws) (e, a) c = cc
AllGone-Carries b (busy x y z w ∷ ws) (e, a) c = cc
AllGone-Carries b (gone ∷ ws) (e, a) (inl c) = elim c [ ]
AllGone-Carries b (gone ∷ ws) (e, a) (inr c) = AllGone-Carries b ws a c
