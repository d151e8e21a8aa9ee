-- ===== src/Extract/Follow/Resume.antt =====
-- Follow as a whole, and what a restart finds.
use blockchain_data_feeds_po.Prelude.{
  ℕ, zero, suc, ◌+◌, ◌/◌, ◌<◌, ◌≡◌, sym, subst, some, arith, List, inl, inr, word, Option-cases,
  ◌⊎◌,
}
use blockchain_data_feeds_po.Prelude.Exec.{Error, Result, ok, err, Result-cases}
use blockchain_data_feeds_po.Store.Db.{Db, query, CheckpointRow}
use blockchain_data_feeds_po.Store.Checkpoints.{last_checkpoint, scan_checkpoint, greatest_end}
use blockchain_data_feeds_po.Extract.Deps.{Deps, World}
use blockchain_data_feeds_po.Extract.Chunker.Bounds.{IsValid, new_chunker-IsValid}
use blockchain_data_feeds_po.Extract.Records.{wrapped}
use blockchain_data_feeds_po.Extract.Range.Tiles.{Tiles}
use blockchain_data_feeds_po.Extract.Follow.{
  Settings, Cursor, begin, resume_at, follow, follow_pass, follow_passes,
}
use blockchain_data_feeds_po.Extract.Follow.Prepared.{Heads}
use blockchain_data_feeds_po.Extract.Follow.Pass.{Follows, follow_pass-Follows}
use blockchain_data_feeds_po.Reorg.Tail.{Tiles-cases, greatest_end-last}

module _ {C : Type 0} (deps : Deps C) (cfg : Settings) where
  -- The chunk bounds of the configuration leave room for a growth step.
  pub record HasRoom : Type 0 where
    pub min_room : cfg.min_chunk_size + cfg.min_chunk_size / 10 + 3 < word
    pub max_room : cfg.max_chunk_size + cfg.max_chunk_size / 10 + 1 < word

  last_tile :
      (k : ℕ) (cs : List CheckpointRow)
      → Tiles cfg.start_block k cs
      → k < word
      → resume_at deps cfg (scan_checkpoint (greatest_end cs)) ≡ k
  unfolding resume_at scan_checkpoint greatest_end
  last_tile k cs t fits = elim (Tiles-cases cfg.start_block k cs t) [
    | inl (e, f) ↦ rw e f
    | inr l ↦ rw (greatest_end-last cfg.start_block k cs l) (omega (arith, l.stops))
  ]

  -- A start of `Follow` that reads its checkpoint, over checkpoints that tile the blocks from the
  -- configured start block up to `k`, goes on exactly at `k`, changes no table and has a valid
  -- chunker. It asks for chunk bounds that leave room for a growth step.
  pub begin_resumes :
      (k : ℕ) (w : World C) (cur : Cursor)
      → HasRoom
      → Tiles cfg.start_block k w.store.db.checkpoints
      → k < word
      → (begin deps cfg w).0 ≡ ok cur
      → (cur.start ≡ k) × IsValid cur.chunker × ((begin deps cfg w).1.store.db ≡ w.store.db)
  unfolding begin wrapped last_checkpoint query
  begin_resumes k w cur room t fits h =
      let at = last_tile k w.store.db.checkpoints t fits in
      let made =
        new_chunker-IsValid cfg.min_chunk_size cfg.max_chunk_size cfg.chunk_size room.min_room
          room.max_room in
      (ground (arith, h, at), subst IsValid (ground (arith, h)) made, ground (arith, h))

  db-begin : (w : World C) → (begin deps cfg w).1.store.db ≡ w.store.db
  unfolding begin wrapped last_checkpoint query
  db-begin w = ground arith

  passes-Follows :
      (origin n fuel : ℕ) (cur : Cursor) (w : World C) (out : Result Error Cursor × World C)
      → Heads deps
      → IsValid cur.chunker
      → Tiles origin cur.start w.store.db.checkpoints
      → cur.start < word
      → follow_passes deps cfg n fuel cur w ≡ some out
      → Follows deps cfg origin out
  unfolding follow_passes
  passes-Follows origin zero fuel cur w out heads v t fits h =
      let eq : out ≡ (ok cur, w) = ground (arith, h) in
      rw eq (cur.start, t, fits, λ c e. (ground (arith, e), subst IsValid (ground (arith, e)) v))
  passes-Follows origin (suc n) fuel cur w out heads v t fits h =
      elim (Option-cases (follow_pass deps cfg fuel cur w)) [
        | inl e ↦ absurd (ground (arith, e, h))
        | inr (res, e) ↦
            let (k, tiles, fits', next) =
              follow_pass-Follows deps cfg origin fuel cur w res heads v t fits e in
            elim (Result-cases res.0) [
              | inl (cur', f) ↦
                  let (at, valid) = next cur' f in
                  passes-Follows origin n fuel cur' res.1 out heads valid
                    (subst (λ m. Tiles origin m res.1.store.db.checkpoints) (sym at) tiles)
                    (omega arith) (ground (arith, e, f, h))
              | inr (x, f) ↦
                  let eq : out ≡ (err x, res.1) = ground (arith, e, f, h) in
                  rw eq (k, tiles, fits', λ c g. absurd (ground (arith, g)))
            ]
      ]

  follow-resume_at :
      (n fuel k : ℕ) (w : World C) (out : Result Error Cursor × World C)
      → HasRoom
      → Heads deps
      → Tiles cfg.start_block k w.store.db.checkpoints
      → k < word
      → follow deps cfg n fuel w ≡ some out
      → (k' : ℕ) × Tiles cfg.start_block k' out.1.store.db.checkpoints
        × ((cur : Cursor) → (begin deps cfg out.1).0 ≡ ok cur → cur.start ≡ k')
  unfolding follow
  follow-resume_at n fuel k w out room heads t fits h =
      let tiles_now : Tiles cfg.start_block k (begin deps cfg w).1.store.db.checkpoints =
        subst (λ (db : Db). Tiles cfg.start_block k db.checkpoints) (sym (db-begin w)) t in
      elim (Result-cases (begin deps cfg w).0) [
        | inl (cur, e) ↦
            let (at, valid, _) = begin_resumes k w cur room t fits e in
            let (k', tiles, fits', _) =
              passes-Follows cfg.start_block n fuel cur (begin deps cfg w).1 out heads valid
                (subst (λ m. Tiles cfg.start_block m (begin deps cfg w).1.store.db.checkpoints)
                  (sym at) tiles_now)
                (omega arith) (ground (arith, e, h)) in
            (k', tiles, λ cur' g. (begin_resumes k' out.1 cur' room tiles fits' g).0)
        | inr (x, e) ↦
            let eq : out ≡ (err x, (begin deps cfg w).1) = ground (arith, e, h) in
            let tiles : Tiles cfg.start_block k out.1.store.db.checkpoints = rw eq tiles_now in
            (k, tiles, λ cur' g. (begin_resumes k out.1 cur' room tiles fits g).0)
      ]

  -- However a run of `Follow` through so many passes ends, if it does, over checkpoints that tile the blocks from the configured start
  -- block on, they tile them up to some block `k` afterwards; and a new start of `Follow` either
  -- cannot read the checkpoint or goes on at `k`. It asks for chunk bounds that leave room for a
  -- growth step and heads that leave room for one block more.
  pub follow_resumes :
      (n fuel k : ℕ) (w : World C) (out : Result Error Cursor × World C)
      → HasRoom
      → Heads deps
      → Tiles cfg.start_block k w.store.db.checkpoints
      → k < word
      → follow deps cfg n fuel w ≡ some out
      → (k' : ℕ) × Tiles cfg.start_block k' out.1.store.db.checkpoints
        × (((x : Error) × ((begin deps cfg out.1).0 ≡ err x))
            ⊎ ((cur : Cursor) × ((begin deps cfg out.1).0 ≡ ok cur) × (cur.start ≡ k')))
  follow_resumes n fuel k w out room heads t fits h =
      let (k', tiles, next) = follow-resume_at n fuel k w out room heads t fits h in
      elim (Result-cases (begin deps cfg out.1).0) [
        | inl (cur, e) ↦ (k', tiles, inr (cur, e, next cur e))
        | inr (x, e) ↦ (k', tiles, inl (x, e))
      ]
