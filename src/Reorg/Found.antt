-- ===== src/Reorg/Found.antt =====
-- What `Detect` has found when it reports a reorganisation.
use native.Mathlib.Nat.{le_refl}
use blockchain_data_feeds_po.Prelude.{
  subst, sym, All-In, List, Option, Option-cases, add64, ltb→lt, lt→ltb, text_eq_iff, ◌≢◌, ℕ, ◌+◌,
  ◌≤◌, ◌<◌, ◌≡◌, true, false, none, some, arith, text_eq, In, All, word, keep, ltb, inl, inr, ◌⊎◌,
  All-tabulate, Bool-cases,
}
use blockchain_data_feeds_po.Prelude.Exec.{ok, Result-cases}
use blockchain_data_feeds_po.Store.Db.{CheckpointRow, query}
use blockchain_data_feeds_po.Store.Checkpoints.{
  last_checkpoint, checkpoint_before, scan_checkpoint, greatest_end,
}
use blockchain_data_feeds_po.Store.Checkpoints.Order.{greatest_end_lem}
use blockchain_data_feeds_po.Rpc.Interface.{BlockHeader}
use blockchain_data_feeds_po.Extract.Deps.{Deps, World}
use blockchain_data_feeds_po.Extract.Records.{wrapped}
use blockchain_data_feeds_po.Store.Checkpoints.Rollback.{In-keep, keep-In}
use blockchain_data_feeds_po.Reorg.{detect, mismatch, compare_hash, rollback_block}

-- `rollback_block` on rows.
abbrev pub row_block : CheckpointRow → Option CheckpointRow → ℕ
row_block c none = c.start_block
row_block c (some p) = add64 p.end_block 1

row_block_lem :
    (c : CheckpointRow) (cs : List CheckpointRow)
    → All (λ r. r.end_block + 1 < word) cs
    → (row_block c (greatest_end (keep (λ r. ltb r.end_block c.start_block) cs)) ≤ c.start_block)
      × ((r : CheckpointRow)
          → In r cs
          → r.end_block < c.start_block
          → r.end_block < row_block c (greatest_end (keep (λ r. ltb r.end_block c.start_block) cs)))
row_block_lem c cs fits =
    elim (Option-cases (greatest_end (keep (λ r. ltb r.end_block c.start_block) cs))) [
      | inl e ↦ rw e (le_refl _, λ r i lt. lt)
      | inr (p, e) ↦
          let earlier = λ (r : CheckpointRow). ltb r.end_block c.start_block in
          let (member, greatest) = greatest_end_lem (keep earlier cs) p e in
          let (old, before) = In-keep earlier p cs member in
          let room : p.end_block + 1 < word = All-In (λ r. r.end_block + 1 < word) p cs fits old in
          let exact : add64 p.end_block 1 ≡ p.end_block + 1 = omega arith in
          rw e (
            rw exact (omega (arith, ltb→lt p.end_block c.start_block before)),
            λ r i lt. rw exact (
                omega (
                  arith,
                  All-In (λ q. q.end_block ≤ p.end_block) r (keep earlier cs) greatest
                      (keep-In earlier r cs (lt→ltb r.end_block c.start_block lt) i),
                )),
          )
    ]

module _ {C : Type 0} (deps : Deps C) where
  -- Looking for a reorganisation changes no table.
  pub db-detect : (w : World C) → (detect deps w).1.store.db ≡ w.store.db
  unfolding detect compare_hash mismatch wrapped last_checkpoint checkpoint_before query
  db-detect w = ground arith

  -- What stands behind a report.
  pub detect_reports :
      (w : World C) (block : ℕ)
      → (detect deps w).0 ≡ ok (block, true)
      → (c : CheckpointRow) × (greatest_end w.store.db.checkpoints ≡ some c)
        × (header : BlockHeader) × ((deps.rpc.get_block_by_number c.end_block w.conn).0 ≡ ok header)
        × (text_eq header.hash c.block_hash ≡ false)
        × (block
            ≡ row_block c
                (greatest_end (keep (λ r. ltb r.end_block c.start_block) w.store.db.checkpoints)))
  unfolding detect compare_hash mismatch wrapped last_checkpoint checkpoint_before query
      scan_checkpoint rollback_block
  detect_reports w block h = elim (Option-cases (greatest_end w.store.db.checkpoints)) [
    | inl e ↦ absurd (ground (arith, e))
    | inr (c, e) ↦ elim (Result-cases (deps.rpc.get_block_by_number c.end_block w.conn).0) [
      | inl (header, f) ↦ (c, e, header, f, ground (arith, e, f), ground (arith, e, f))
      | inr (x, f) ↦ absurd (ground (arith, e, f))
    ]
  ]

  -- A report means that the node gives another hash for the end of a checkpoint that ends last, as
  -- long as no end is the last `uint64`. The block of the report is not after the start of that
  -- checkpoint, and every checkpoint that ended before this start ended below the block.
  pub detect_exact :
      (w : World C) (block : ℕ)
      → All (λ r. r.end_block + 1 < word) w.store.db.checkpoints
      → (detect deps w).0 ≡ ok (block, true)
      → (c : CheckpointRow) × In c w.store.db.checkpoints
        × All (λ r. r.end_block ≤ c.end_block) w.store.db.checkpoints
        × ((header : BlockHeader) × ((deps.rpc.get_block_by_number c.end_block w.conn).0
              ≡ ok header)
            × (header.hash ≢ c.block_hash))
        × (block ≤ c.start_block)
        × All (λ r. (c.start_block ≤ r.end_block) ⊎ (r.end_block < block)) w.store.db.checkpoints
  detect_exact w block fits h =
      let (c, e, header, f, differ, eq) = detect_reports w block h in
      let (member, greatest) = greatest_end_lem w.store.db.checkpoints c e in
      let (low, above) = row_block_lem c w.store.db.checkpoints fits in
      (
        c,
        member,
        greatest,
        (header, f, λ same. ground (arith, same, differ, text_eq_iff header.hash c.block_hash)),
        subst (λ n. n ≤ c.start_block) (sym eq) low,
        All-tabulate _ w.store.db.checkpoints (λ r i.
            elim (Bool-cases (ltb r.end_block c.start_block)) [
              | inl lt ↦ inr (subst (λ n. r.end_block < n) (sym eq) (above r i (ltb→lt _ _ lt)))
              | inr ge ↦ inl (ground arith)
            ]),
      )
