-- ===== src/Reorg/Tail.antt =====
-- A rollback of internal/reorg/reorg.go on checkpoints that tile the blocks from `origin` on.
use blockchain_data_feeds_po.Store.Checkpoints.Rollback.{rolled_back}
use blockchain_data_feeds_po.Extract.Deps.{Deps, World}
use blockchain_data_feeds_po.Reorg.Found.{row_block, detect_reports}
use blockchain_data_feeds_po.Prelude.Exec.{ok}
use blockchain_data_feeds_po.Reorg.{detect}
use blockchain_data_feeds_po.Prelude.{
  ℕ, ◌+◌, ◌≤◌, ◌<◌, ◌≡◌, refl, sym, ap, true, false, some, arith, List, [], ◌∷◌, ◌++◌, ◌⊎◌, inl,
  inr, Bool, not, leb, ltb, keep, All, keep-append, append-nil, lt→ltb, word, length, subst, ◌∙◌,
  length-append,
}
use blockchain_data_feeds_po.Store.Db.{CheckpointRow}
use blockchain_data_feeds_po.Store.Checkpoints.{greatest_end, delete_logs, delete_checkpoints}
use blockchain_data_feeds_po.Store.Checkpoints.Order.{greatest_end-append}
use blockchain_data_feeds_po.Extract.Range.Tiles.{Tiles, Tiles-le}

-- A tiling is empty, or has a last checkpoint behind a tiling.
pub record Last (from stop : ℕ) (cs : List CheckpointRow) : Type 0 where
  pub front : List CheckpointRow
  pub last : CheckpointRow
  pub split : cs ≡ front ++ last ∷ []
  pub tiles : Tiles from last.start_block front
  pub order : last.start_block ≤ last.end_block
  pub stops : stop ≡ last.end_block + 1

pub Tiles-cases :
    (from stop : ℕ) (cs : List CheckpointRow)
    → Tiles from stop cs
    → ((cs ≡ []) × (from ≡ stop)) ⊎ Last from stop cs
Tiles-cases from stop [] t = inl (refl, t)
Tiles-cases from stop (c ∷ cs) t = elim (Tiles-cases (c.end_block + 1) stop cs t.2) [
  | inl (e, f) ↦ inr (record {
    front = [];
    last = c;
    split = ap (λ (r : List CheckpointRow). c ∷ r) e;
    tiles = sym t.0;
    order = omega (arith, t.0);
    stops = sym f;
  })
  | inr l ↦ inr (record {
    front = c ∷ l.front;
    last = l.last;
    split = ap (λ (r : List CheckpointRow). c ∷ r) l.split;
    tiles = (t.0, t.1, l.tiles);
    order = l.order;
    stops = l.stops;
  })
]

-- In a tiling up to `stop` every checkpoint starts and ends below `stop`.
Tiles-below :
    (from stop : ℕ) (cs : List CheckpointRow)
    → Tiles from stop cs
    → All (λ c. (c.start_block < stop) × (c.end_block < stop)) cs
Tiles-below from stop [] t = tt
Tiles-below from stop (c ∷ cs) t =
    let le = Tiles-le (c.end_block + 1) stop cs t.2 in
    ((omega (arith, t.0), omega arith), Tiles-below (c.end_block + 1) stop cs t.2)

keep_same :
    (p : CheckpointRow → Bool) (cs : List CheckpointRow) → All (λ c. p c ≡ true) cs → keep p cs ≡ cs
keep_same p [] a = refl
keep_same p (c ∷ cs) a = rw a.0 (ap (λ (r : List CheckpointRow). c ∷ r) (keep_same p cs a.1))

All-map :
    {P Q : CheckpointRow → Type 0} (cs : List CheckpointRow)
    → ((c : CheckpointRow) → P c → Q c)
    → All P cs
    → All Q cs
All-map [] f a = tt
All-map (c ∷ cs) f a = (f c a.0, All-map cs f a.1)

-- The front of a tiling: what ends, or starts, below the start of the last checkpoint.
module _ (from stop : ℕ) (cs : List CheckpointRow) (l : Last from stop cs) where
  below_last :
      All (λ c. (c.start_block < l.last.start_block) × (c.end_block < l.last.start_block)) l.front
  below_last = Tiles-below from l.last.start_block l.front l.tiles

  pub greatest_end-last : greatest_end cs ≡ some l.last
  greatest_end-last = rw l.split (
      greatest_end-append l.front l.last
        (All-map l.front (λ c b. omega (arith, l.order, b.1)) below_last))

  keep-front :
      (p : CheckpointRow → Bool)
      → All (λ c. p c ≡ true) l.front
      → p l.last ≡ false
      → keep p cs ≡ l.front
  keep-front p a f =
      rw (l.split, keep-append p l.front (l.last ∷ []), keep_same p l.front a, f)
        (append-nil l.front)

  ends_before : keep (λ r. ltb r.end_block l.last.start_block) cs ≡ l.front
  ends_before =
      keep-front (λ r. ltb r.end_block l.last.start_block)
        (All-map l.front (λ c b. lt→ltb c.end_block l.last.start_block b.1) below_last)
        (ground (arith, l.order))

  starts_before : keep (λ r. not (leb l.last.start_block r.start_block)) cs ≡ l.front
  starts_before =
      keep-front (λ r. not (leb l.last.start_block r.start_block))
        (All-map l.front (λ c b. let lt = b.0 in ground arith) below_last) (ground arith)

front_block :
    (from stop : ℕ) (cs : List CheckpointRow) (l : Last from stop cs)
    → stop < word
    → row_block l.last (greatest_end l.front) ≡ l.last.start_block
unfolding greatest_end
front_block from stop cs l fits = elim (Tiles-cases from l.last.start_block l.front l.tiles) [
  | inl (e, f) ↦ rw e refl
  | inr k ↦
      rw (greatest_end-last from l.last.start_block l.front k)
        (omega (arith, k.stops, l.stops, l.order))
]

module _ {C : Type 0} (deps : Deps C) where
  -- A reported reorganisation is one of the last checkpoint, and its rollback leaves the others.
  pub detect-front :
      (origin stop : ℕ) (w : World C) (block : ℕ)
      → Tiles origin stop w.store.db.checkpoints
      → stop < word
      → (detect deps w).0 ≡ ok (block, true)
      → (l : Last origin stop w.store.db.checkpoints) × (block ≡ l.last.start_block)
        × ((rolled_back block w.store.db).checkpoints ≡ l.front)
  unfolding rolled_back delete_logs delete_checkpoints
  detect-front origin stop w block t fits h =
      let (c, e, header, f, differ, eq) = detect_reports deps w block h in
      elim (Tiles-cases origin stop w.store.db.checkpoints t) [
        | inl (empty, _) ↦
            let nothing : greatest_end [] ≡ some c =
              subst (λ cs. greatest_end cs ≡ some c) empty e in
            absurd (unfold greatest_end in cc)
        | inr l ↦
            let same : c ≡ l.last =
              cc (e, greatest_end-last origin stop w.store.db.checkpoints l) in
            let at : block ≡ l.last.start_block =
              subst
                (λ (d : CheckpointRow).
                  block
                  ≡ row_block d (
                      greatest_end
                        (keep (λ r. ltb r.end_block d.start_block) w.store.db.checkpoints)))
                same eq
              ∙ ap (λ (xs : List CheckpointRow). row_block l.last (greatest_end xs))
                  (ends_before origin stop w.store.db.checkpoints l)
              ∙ front_block origin stop w.store.db.checkpoints l fits in
            (l, at, rw at (starts_before origin stop w.store.db.checkpoints l))
      ]

  -- On checkpoints that tile the blocks from `origin` up to a `stop` below 2 ^ 64, the rollback of a
  -- reported reorganisation takes off exactly the last one: what is left tiles the blocks from
  -- `origin` up to the rollback block, which is below `stop`, and is shorter by one.
  pub detect-Tiles :
      (origin stop : ℕ) (w : World C) (block : ℕ)
      → Tiles origin stop w.store.db.checkpoints
      → stop < word
      → (detect deps w).0 ≡ ok (block, true)
      → Tiles origin block (rolled_back block w.store.db).checkpoints
        × (block < stop)
        × (length (rolled_back block w.store.db).checkpoints + 1 ≡ length w.store.db.checkpoints)
  detect-Tiles origin stop w block t fits h =
      let (l, at, front) = detect-front origin stop w block t fits h in
      (
        rw front (rw at l.tiles),
        omega (arith, at, l.order, l.stops),
        rw (front, l.split) (omega (arith, length-append {0} l.front (l.last ∷ []))),
      )
