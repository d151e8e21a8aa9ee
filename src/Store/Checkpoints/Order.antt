-- ===== src/Store/Checkpoints/Order.antt =====
-- The checkpoint that `ORDER BY end_block DESC LIMIT 1` picks.
use blockchain_data_feeds_po.Prelude.{
  ℕ, ◌≤◌, ◌≡◌, refl, none, some, List, [], ◌∷◌, arith, All, In, inl, inr, Option-cases,
  if◌then◌else◌, ltb, ◌++◌,
}
use blockchain_data_feeds_po.Store.Db.{CheckpointRow}
use blockchain_data_feeds_po.Store.Checkpoints.{greatest_end}

greatest_end-none : (cs : List CheckpointRow) → greatest_end cs ≡ none → cs ≡ []
unfolding greatest_end
greatest_end-none [] h = refl
greatest_end-none (c ∷ cs) h = ground arith

All-le_mono :
    (m n : ℕ) (cs : List CheckpointRow)
    → m ≤ n
    → All (λ c. c.end_block ≤ m) cs
    → All (λ c. c.end_block ≤ n) cs
All-le_mono m n [] h a = tt
All-le_mono m n (c ∷ cs) h a = (omega arith, All-le_mono m n cs h a.1)

-- The row that the query for the last checkpoint picks is in the table, and no row ends after it.
pub greatest_end_lem :
    (cs : List CheckpointRow) (b : CheckpointRow)
    → greatest_end cs ≡ some b
    → In b cs × All (λ c. c.end_block ≤ b.end_block) cs
unfolding greatest_end
greatest_end_lem [] b h = cc
greatest_end_lem (c ∷ cs) b h = elim (Option-cases (greatest_end cs)) [
  | inl e ↦ (inl (ground arith), (ground arith, rw (greatest_end-none cs e) tt))
  | inr (x, e) ↦
      let ih = greatest_end_lem cs x e in ground (arith, ih, All-le_mono x.end_block b.end_block cs)
]

-- A table with a row has a row to pick.
pub greatest_end-some :
    (c : CheckpointRow) (cs : List CheckpointRow)
    → (b : CheckpointRow) × (greatest_end (c ∷ cs) ≡ some b)
unfolding greatest_end
greatest_end-some c cs = elim (Option-cases (greatest_end cs)) [
  | inl e ↦ (c, rw e)
  | inr (x, e) ↦ (if ltb x.end_block c.end_block then c else x, rw e)
]

-- Adding a row that ends last makes it the one that is picked.
pub greatest_end-append :
    (cs : List CheckpointRow) (b : CheckpointRow)
    → All (λ c. c.end_block ≤ b.end_block) cs
    → greatest_end (cs ++ b ∷ []) ≡ some b
unfolding greatest_end
greatest_end-append [] b h = refl
greatest_end-append (c ∷ cs) b h = rw (greatest_end-append cs b h.1) (ground arith)
