-- ===== src/Extract/Backfill/Cover.antt =====
-- The ranges of the producer in internal/extract/backfill.go and the blocks that they hold.
use blockchain_data_feeds_po.Prelude.{
  ℕ, zero, suc, ◌+◌, ◌-◌, ◌≤◌, ◌<◌, ◌≡◌, refl, sym, subst, some, arith, List, [], ◌∷◌, inl, inr,
  word, Option-cases, Bool-cases, ltb, add64, false,
}
use blockchain_data_feeds_po.Extract.Backfill.{Range, range_end, produce}

-- Ranges in a row from `from` on, none empty, none of more than `size` blocks, the last ending
-- right before `stop`.
abbrev pub Covers : ℕ → ℕ → ℕ → List Range → Type 0
Covers size from stop [] = from ≡ stop
Covers size from stop (r ∷ rs) =
    (r.from ≡ from) × (from ≤ r.to) × (r.to < from + size) × Covers size (r.to + 1) stop rs

range_end_lem :
    (size cur end : ℕ)
    → 0 < size
    → cur ≤ end
    → end + size < word
    → (cur ≤ range_end size cur end)
      × (range_end size cur end ≤ end)
      × (range_end size cur end < cur + size)
      × (add64 (range_end size cur end) 1 ≡ range_end size cur end + 1)
unfolding range_end
range_end_lem size cur end h p q = ground arith

produce_step :
    (fuel size cur end : ℕ) (rs : List Range)
    → ltb end cur ≡ false
    → produce fuel size (add64 (range_end size cur end) 1) end ≡ some rs
    → produce (suc fuel) size cur end
      ≡ some (record { from = cur; to = range_end size cur end } ∷ rs)
unfolding produce
produce_step fuel size cur end rs more e = rw (more, e)

-- With a positive chunk size, and as long as `end` and the size leave no sum to wrap, the producer
-- comes to an end on fuel for one range a block, and hands out ranges that cover the blocks from
-- `cur` to `end`, each once and in order, none longer than the chunk size.
pub produce-Covers :
    (fuel size cur end : ℕ)
    → 0 < size
    → end + size < word
    → cur ≤ end + 1
    → end + 1 - cur < fuel
    → (rs : List Range) × (produce fuel size cur end ≡ some rs) × Covers size cur (end + 1) rs
unfolding produce
produce-Covers zero size cur end pos fits le f = elim f [ ]
produce-Covers (suc fuel) size cur end pos fits le f = elim (Bool-cases (ltb end cur)) [
  | inl done ↦ ([], rw done refl, ground arith)
  | inr more ↦
      let (lo, hi, short, next) = range_end_lem size cur end pos (ground arith) fits in
      let (rs, e, cover) =
        produce-Covers fuel size (range_end size cur end + 1) end pos fits (omega arith)
          (omega arith) in
      let e' : produce fuel size (add64 (range_end size cur end) 1) end ≡ some rs =
        subst (λ n. produce fuel size n end ≡ some rs) (sym next) e in
      (
        record { from = cur; to = range_end size cur end } ∷ rs,
        produce_step fuel size cur end rs more e',
        (refl, lo, short, cover),
      )
]

wrapped_end :
    (size cur end : ℕ)
    → cur ≤ end
    → end < word
    → size < word
    → word < cur + size
    → (range_end size cur end < cur)
      × (add64 (range_end size cur end) 1 ≡ range_end size cur end + 1)
unfolding range_end
wrapped_end size cur end le e s w = ground arith

-- With a chunk size that makes the sum of the first range wrap, a producer that comes to an end has
-- handed out a first range that ends before it begins, and gone on right behind that end, at a
-- block that is not above the start.
pub produce_wraps :
    (fuel size cur end : ℕ) (rs : List Range)
    → cur ≤ end
    → end < word
    → size < word
    → word < cur + size
    → produce (suc fuel) size cur end ≡ some rs
    → (r : Range) × (rest : List Range) × (rs ≡ r ∷ rest)
      × (r.from ≡ cur)
      × (r.to < cur)
      × (produce fuel size (r.to + 1) end ≡ some rest)
unfolding produce
produce_wraps fuel size cur end rs le e s w h =
    let (low, next) = wrapped_end size cur end le e s w in
    let more : ltb end cur ≡ false = ground arith in
    elim (Option-cases (produce fuel size (add64 (range_end size cur end) 1) end)) [
      | inl none_left ↦ absurd (ground (arith, more, none_left, h))
      | inr (rest, f) ↦ (
        record { from = cur; to = range_end size cur end },
        rest,
        ground (arith, more, f, h),
        refl,
        low,
        subst (λ n. produce fuel size n end ≡ some rest) next f,
      )
    ]
