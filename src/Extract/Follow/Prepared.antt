-- ===== src/Extract/Follow/Prepared.antt =====
-- The checkpoints over the checks before a range, internal/extract/follow.go.
use blockchain_data_feeds_po.Prelude.{
  ℕ, ◌+◌, ◌≤◌, ◌<◌, ◌≡◌, refl, sym, ◌∙◌, ap, subst, true, arith, inl, inr, word, Bool-cases,
}
use blockchain_data_feeds_po.Prelude.Exec.{Error, Result, ok, err, Result-cases}
use blockchain_data_feeds_po.Store.Db.{SqliteStore, Db}
use blockchain_data_feeds_po.Store.Checkpoints.{delete_logs}
use blockchain_data_feeds_po.Store.Checkpoints.Rollback.{rollback_from_cases}
use blockchain_data_feeds_po.Extract.Deps.{Deps, World}
use blockchain_data_feeds_po.Extract.Range.Tiles.{Tiles}
use blockchain_data_feeds_po.Extract.Follow.{
  Settings, Cursor, Plan, wait, index, check_reorg, plan_for, plan, prepare,
}
use blockchain_data_feeds_po.Reorg.{detect, rollback}
use blockchain_data_feeds_po.Reorg.Found.{db-detect}
use blockchain_data_feeds_po.Reorg.Tail.{detect-Tiles}

-- The checkpoints tile from `origin` up to some block, and a result that is no error names it.
abbrev pub Tiled : {C A : Type 0} → ℕ → (A → ℕ) → Result Error A × World C → Type 0
Tiled origin start_of out =
    (k : ℕ) × Tiles origin k out.1.store.db.checkpoints
    × (k < word)
    × ((a : _) → out.0 ≡ ok a → start_of a ≡ k)

abbrev pub plan_start : Plan → ℕ
plan_start (wait start) = start
plan_start (index start safe_head) = start

-- Heads leave room for one block more.
pub record Heads {C : Type 0} (deps : Deps C) : Type 0 where
  pub room : (conn : C) (head : ℕ) → (deps.rpc.get_block_number conn).0 ≡ ok head → head + 1 < word

module _ {C : Type 0} (deps : Deps C) (cfg : Settings) where
  rollback-Tiled :
      (origin start block : ℕ) (w : World C)
      → Tiles origin start w.store.db.checkpoints
      → start < word
      → (detect deps w).0 ≡ ok (block, true)
      → Tiled origin (λ (u : Unit {0}). block) (rollback deps block (detect deps w).1)
  unfolding rollback delete_logs
  rollback-Tiled origin start block w t fits h =
      let (shorter, below, _) = detect-Tiles deps origin start w block t fits h in
      let same = db-detect deps w in
      elim (rollback_from_cases deps.store block (detect deps w).1.store) [
        | inl (done, e) ↦ (block, rw (e, same) shorter, omega arith, λ u e'. refl)
        | inr (x, failed, left) ↦
            let rows : (rollback deps block (detect deps w).1).1.store.db.checkpoints
                ≡ w.store.db.checkpoints =
              ground (arith, left, same) in
            (start, rw rows t, fits, λ u e'. absurd (ground (arith, failed, e')))
      ]

  reorged-Tiled :
      (origin start block : ℕ) (w : World C)
      → Tiled origin (λ (u : Unit {0}). block) (rollback deps block (detect deps w).1)
      → (detect deps w).0 ≡ ok (block, true)
      → Tiled origin (λ n. n) (check_reorg deps cfg start w)
  unfolding check_reorg
  reorged-Tiled origin start block w (k, t, fits, same) h =
      elim (Result-cases (rollback deps block (detect deps w).1).0) [
        | inl (u, e) ↦
            let eq : check_reorg deps cfg start w
                ≡ (ok block, (rollback deps block (detect deps w).1).1) =
              ground (arith, h, e) in
            rw eq (k, t, fits, λ a e'. ground (arith, same u e, e'))
        | inr (x, e) ↦
            let eq : check_reorg deps cfg start w
                ≡ (err x, (rollback deps block (detect deps w).1).1) =
              ground (arith, h, e) in
            rw eq (k, t, fits, λ a e'. absurd (ground (arith, e')))
      ]

  check_reorg-Tiled :
      (origin start : ℕ) (w : World C)
      → Tiles origin start w.store.db.checkpoints
      → start < word
      → Tiled origin (λ n. n) (check_reorg deps cfg start w)
  unfolding check_reorg
  check_reorg-Tiled origin start w t fits =
      let same = ap (λ (db : Db). db.checkpoints) (db-detect deps w) in
      elim (Result-cases (detect deps w).0) [
        | inl (found, e) ↦ elim (Bool-cases found.1) [
          | inl yes_found ↦
              let h : (detect deps w).0 ≡ ok (found.0, true) = ground (arith, e, yes_found) in
              reorged-Tiled origin start found.0 w (rollback-Tiled origin start found.0 w t fits h)
                h
          | inr not_found ↦
              let eq : check_reorg deps cfg start w ≡ (ok start, (detect deps w).1) =
                ground (arith, e, not_found) in
              rw eq (start, rw same t, fits, λ a e'. ground (arith, e'))
        ]
        | inr (x, e) ↦
            let eq : check_reorg deps cfg start w ≡ (err x, (detect deps w).1) =
              ground (arith, e) in
            rw eq (start, rw same t, fits, λ a e'. absurd (ground (arith, e')))
      ]

  -- The request for the head and the plan leave the store alone. A range to index is not empty,
  -- and has room behind it.
  pub plan_lem :
      (start : ℕ) (w : World C)
      → Heads deps
      → ((plan deps cfg start w).1.store ≡ w.store)
        × ((p : Plan)
            → (plan deps cfg start w).0 ≡ ok p
            → (plan_start p ≡ start)
              × ((start' safe_head : ℕ)
                  → p ≡ index start' safe_head
                  → (start' ≤ safe_head) × (safe_head + 1 < word)))
  unfolding plan plan_for
  plan_lem start w heads = elim (Result-cases (deps.rpc.get_block_number w.conn).0) [
    | inl (head, e) ↦
        let room = heads.room w.conn head e in
        (
          ground (arith, e),
          λ p h. (ground (arith, e, h), λ start' safe eq. ground (arith, e, h, eq, room)),
        )
    | inr (x, e) ↦ (
      ground (arith, e),
      λ p h. (ground (arith, e, h), λ start' safe eq. absurd (ground (arith, e, h, eq))),
    )
  ]

  pub prepare-Tiled :
      (origin : ℕ) (cur : Cursor) (w : World C)
      → Heads deps
      → Tiles origin cur.start w.store.db.checkpoints
      → cur.start < word
      → Tiled origin plan_start (prepare deps cfg cur w)
        × ((start safe_head : ℕ)
            → (prepare deps cfg cur w).0 ≡ ok (index start safe_head)
            → (start ≤ safe_head) × (safe_head + 1 < word))
  unfolding prepare
  prepare-Tiled origin cur w heads t fits =
      let (k, tiles, fits', same) = check_reorg-Tiled origin cur.start w t fits in
      elim (Result-cases (check_reorg deps cfg cur.start w).0) [
        | inl (start, e) ↦
            let w' = (check_reorg deps cfg cur.start w).1 in
            let (store_same, planned) = plan_lem start w' heads in
            let eq : prepare deps cfg cur w ≡ plan deps cfg start w' = ground (arith, e) in
            rw eq (
              (
                k,
                subst (λ (s : SqliteStore). Tiles origin k s.db.checkpoints) (sym store_same) tiles,
                fits',
                λ p h. (planned p h).0 ∙ same start e,
              ),
              λ start' safe h. (planned (index start' safe) h).1 start' safe refl,
            )
        | inr (x, e) ↦
            let eq : prepare deps cfg cur w ≡ (err x, (check_reorg deps cfg cur.start w).1) =
              ground (arith, e) in
            rw eq (
              (k, tiles, fits', λ p h. absurd (ground (arith, h))),
              λ start' safe h. absurd (ground (arith, h)),
            )
      ]
