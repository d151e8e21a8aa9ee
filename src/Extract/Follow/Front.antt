-- ===== src/Extract/Follow/Front.antt =====
-- What a pass of Follow takes off the checkpoints, internal/extract/follow.go.
use blockchain_data_feeds_po.Prelude.{
  ℕ, ◌+◌, ◌≤◌, ◌<◌, ◌≡◌, refl, sym, ◌∙◌, ap, true, some, arith, List, [], ◌∷◌, ◌++◌, append-nil,
  append_assoc, length, inl, inr, word, Bool-cases, Option-cases,
}
use blockchain_data_feeds_po.Prelude.Exec.{Error, Result, ok, err, Result-cases}
use blockchain_data_feeds_po.Store.Db.{Db, CheckpointRow}
use blockchain_data_feeds_po.Store.Checkpoints.{delete_logs}
use blockchain_data_feeds_po.Store.Checkpoints.Rollback.{rollback_from_cases}
use blockchain_data_feeds_po.Extract.Deps.{Deps, World}
use blockchain_data_feeds_po.Extract.Chunker.{Chunker}
use blockchain_data_feeds_po.Extract.Chunker.Bounds.{IsValid}
use blockchain_data_feeds_po.Extract.Range.{process_range_adaptive}
use blockchain_data_feeds_po.Extract.Range.Tiles.{Tiles}
use blockchain_data_feeds_po.Extract.Range.Complete.{process_range_adaptive-Ended}
use blockchain_data_feeds_po.Extract.Follow.{
  Settings, Cursor, Plan, wait, index, check_reorg, plan, prepare, after_range, carry_out,
  follow_pass,
}
use blockchain_data_feeds_po.Extract.Follow.Prepared.{Heads, prepare-Tiled, plan_lem}
use blockchain_data_feeds_po.Extract.Follow.Pass.{no_chain}
use blockchain_data_feeds_po.Reorg.{detect, rollback}
use blockchain_data_feeds_po.Reorg.Found.{db-detect}
use blockchain_data_feeds_po.Reorg.Tail.{detect-front}

-- At most one row was taken off the end, and rows were added there.
abbrev pub KeepsFront : List CheckpointRow → List CheckpointRow → Type 0
KeepsFront before after =
    (front : List CheckpointRow) × (last : List CheckpointRow) × (more : List CheckpointRow)
    × (before ≡ front ++ last)
    × (length last ≤ 1)
    × (after ≡ front ++ more)

KeepsFront-same : (before after : List CheckpointRow) → after ≡ before → KeepsFront before after
KeepsFront-same before after e =
    (before, [], [], sym (append-nil before), omega arith, e ∙ sym (append-nil before))

KeepsFront-append :
    (before mid after more : List CheckpointRow)
    → KeepsFront before mid
    → after ≡ mid ++ more
    → KeepsFront before after
KeepsFront-append before mid after more (front, last, old, e, le, f) g = (
  front,
  last,
  old ++ more,
  e,
  le,
  g ∙ ap (λ (k : List CheckpointRow). k ++ more) f ∙ append_assoc front old more,
)

module _ {C : Type 0} (deps : Deps C) (cfg : Settings) where
  check_reorg-KeepsFront :
      (origin start : ℕ) (w : World C)
      → Tiles origin start w.store.db.checkpoints
      → start < word
      → KeepsFront w.store.db.checkpoints (check_reorg deps cfg start w).1.store.db.checkpoints
  unfolding check_reorg rollback delete_logs
  check_reorg-KeepsFront origin start w t fits =
      let same = ap (λ (db : Db). db.checkpoints) (db-detect deps w) in
      let cps = w.store.db.checkpoints in
      elim (Result-cases (detect deps w).0) [
        | inr (x, e) ↦ KeepsFront-same cps _ (ground (arith, e, same))
        | inl (found, e) ↦ elim (Bool-cases found.1) [
          | inr quiet ↦ KeepsFront-same cps _ (ground (arith, e, quiet, same))
          | inl reported ↦
              let h : (detect deps w).0 ≡ ok (found.0, true) = ground (arith, e, reported) in
              let (l, at, left) = detect-front deps origin start w found.0 t fits h in
              elim (rollback_from_cases deps.store found.0 (detect deps w).1.store) [
                | inl (done, g) ↦ (
                  l.front,
                  l.last ∷ [],
                  [],
                  l.split,
                  omega arith,
                  ground (arith, e, reported, g, done, left, same, db-detect deps w)
                      ∙ sym (append-nil l.front),
                )
                | inr (x, failed, kept) ↦
                    KeepsFront-same cps _ (ground (arith, e, reported, failed, kept, same))
              ]
        ]
      ]

  prepare-KeepsFront :
      (origin : ℕ) (cur : Cursor) (w : World C)
      → Heads deps
      → Tiles origin cur.start w.store.db.checkpoints
      → cur.start < word
      → KeepsFront w.store.db.checkpoints (prepare deps cfg cur w).1.store.db.checkpoints
  unfolding prepare
  prepare-KeepsFront origin cur w heads t fits =
      let kept = check_reorg-KeepsFront origin cur.start w t fits in
      let cps = w.store.db.checkpoints in
      elim (Result-cases (check_reorg deps cfg cur.start w).0) [
        | inr (x, e) ↦
            let eq : prepare deps cfg cur w ≡ (err x, (check_reorg deps cfg cur.start w).1) =
              ground (arith, e) in
            rw eq kept
        | inl (start, e) ↦
            let w' = (check_reorg deps cfg cur.start w).1 in
            let eq : prepare deps cfg cur w ≡ plan deps cfg start w' = ground (arith, e) in
            let same = (plan_lem deps cfg start w' heads).0 in rw (eq, same) kept
      ]

  after_range-checkpoints :
      (safe_head : ℕ) (res : Result Error Chunker × World C)
      → (after_range deps cfg safe_head res).1.store.db.checkpoints ≡ res.1.store.db.checkpoints
  unfolding after_range
  after_range-checkpoints safe_head (ok c, w) = refl
  after_range-checkpoints safe_head (err x, w) = refl

  carried-KeepsFront :
      (fuel : ℕ) (before : List CheckpointRow) (c : Chunker)
      (prepared : Result Error Plan × World C) (out : Result Error Cursor × World C)
      → IsValid c
      → KeepsFront before prepared.1.store.db.checkpoints
      → ((start safe_head : ℕ)
          → prepared.0 ≡ ok (index start safe_head)
          → (start ≤ safe_head) × (safe_head + 1 < word))
      → carry_out deps cfg fuel c prepared ≡ some out
      → KeepsFront before out.1.store.db.checkpoints
  unfolding carry_out after_range
  carried-KeepsFront fuel before c (err x, w) out v kept room h =
      let eq : out ≡ (err x, w) = ground (arith, h) in rw eq kept
  carried-KeepsFront fuel before c (ok (wait start), w) out v kept room h =
      let eq : out ≡ (ok (record { chunker = c; start = start }), w) = ground (arith, h) in
      rw eq kept
  carried-KeepsFront fuel before c (ok (index start safe_head), w) out v kept room h =
      let (le, fits) = room start safe_head refl in
      elim (Option-cases (process_range_adaptive deps fuel c start safe_head w)) [
        | inl e ↦ absurd (ground (arith, e, h))
        | inr (res, e) ↦
            let (stop, p, below, finish) =
              process_range_adaptive-Ended deps [] fuel c start safe_head w res (no_chain deps) v
                (omega arith) fits e in
            let eq : out ≡ after_range deps cfg safe_head res = ground (arith, e, h) in
            KeepsFront-append before w.store.db.checkpoints out.1.store.db.checkpoints p.rows kept (
              ap (λ (o : Result Error Cursor × World C). o.1.store.db.checkpoints) eq
              ∙ after_range-checkpoints safe_head res
              ∙ p.saved)
      ]

  -- Over checkpoints that tile the blocks up to its start, a pass takes off at most the last one,
  -- however it ends and whatever the node answers: all others stay in front as they are, whether
  -- their hashes are still on the chain or not. It asks for a chunker that is valid, a start that
  -- fits, and heads that leave room for one block more.
  pub follow_pass_keeps :
      (origin fuel : ℕ) (cur : Cursor) (w : World C) (out : Result Error Cursor × World C)
      → Heads deps
      → IsValid cur.chunker
      → Tiles origin cur.start w.store.db.checkpoints
      → cur.start < word
      → follow_pass deps cfg fuel cur w ≡ some out
      → KeepsFront w.store.db.checkpoints out.1.store.db.checkpoints
  unfolding follow_pass
  follow_pass_keeps origin fuel cur w out heads v t fits h =
      let (tiled, room) = prepare-Tiled deps cfg origin cur w heads t fits in
      carried-KeepsFront fuel w.store.db.checkpoints cur.chunker (prepare deps cfg cur w) out v
        (prepare-KeepsFront origin cur w heads t fits) room h
