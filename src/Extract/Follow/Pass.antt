-- ===== src/Extract/Follow/Pass.antt =====
-- The checkpoints over one pass of Follow, internal/extract/follow.go.
use blockchain_data_feeds_po.Prelude.{
  ℕ, ◌+◌, ◌≤◌, ◌<◌, ◌≡◌, refl, sym, subst, some, arith, [], inl, inr, word, Option-cases, ◌⊎◌,
}
use blockchain_data_feeds_po.Prelude.Exec.{Error, Result, ok, err, Result-cases}
use blockchain_data_feeds_po.Extract.Deps.{Deps, World}
use blockchain_data_feeds_po.Extract.Chunker.{Chunker}
use blockchain_data_feeds_po.Extract.Chunker.Bounds.{IsValid}
use blockchain_data_feeds_po.Extract.Range.{process_range_adaptive}
use blockchain_data_feeds_po.Extract.Range.Tiles.{Tiles, Tiles-append}
use blockchain_data_feeds_po.Extract.Range.Complete.{Serves, process_range_adaptive-Ended}
use blockchain_data_feeds_po.Extract.Follow.{
  Settings, Cursor, Plan, wait, index, prepare, after_range, carry_out, follow_pass,
}
use blockchain_data_feeds_po.Extract.Follow.Prepared.{Tiled, plan_start, Heads, prepare-Tiled}

pub no_chain : {C : Type 0} (deps : Deps C) → Serves deps []
no_chain deps = record { complete = λ from to conn logs h l i. absurd i }

module _ {C : Type 0} (deps : Deps C) (cfg : Settings) where
  -- What a pass keeps, however it ends: the checkpoints tile the blocks from `origin` on, and the
  -- next pass, if there is one, starts at the block behind them with a valid chunker.
  abbrev pub Follows : ℕ → Result Error Cursor × World C → Type 0
  Follows origin out =
      (k : ℕ) × Tiles origin k out.1.store.db.checkpoints
      × (k < word)
      × ((cur : Cursor) → out.0 ≡ ok cur → (cur.start ≡ k) × IsValid cur.chunker)

  range-Follows :
      (origin fuel start safe_head : ℕ) (c : Chunker) (w : World C)
      (out : Result Error Chunker × World C)
      → IsValid c
      → Tiles origin start w.store.db.checkpoints
      → start ≤ safe_head
      → safe_head + 1 < word
      → process_range_adaptive deps fuel c start safe_head w ≡ some out
      → Follows origin (after_range deps cfg safe_head out)
  unfolding after_range
  range-Follows origin fuel start safe_head c w (ok c', w') v t le fits h =
      let (stop, p, below, finish) =
        process_range_adaptive-Ended deps [] fuel c start safe_head w (ok c', w') (no_chain deps) v
          (omega arith) fits h in
      let (at_end, valid) = finish c' refl in
      (
        stop,
        subst (Tiles origin stop) (sym p.saved)
            (Tiles-append origin start stop w.store.db.checkpoints p.rows t p.tiles),
        omega arith,
        λ cur e. (ground (arith, e, at_end), subst IsValid (ground (arith, e)) valid),
      )
  range-Follows origin fuel start safe_head c w (err x, w') v t le fits h =
      let (stop, p, below, finish) =
        process_range_adaptive-Ended deps [] fuel c start safe_head w (err x, w') (no_chain deps) v
          (omega arith) fits h in
      (
        stop,
        subst (Tiles origin stop) (sym p.saved)
            (Tiles-append origin start stop w.store.db.checkpoints p.rows t p.tiles),
        omega arith,
        λ cur e. absurd (ground (arith, e)),
      )

  prepared-Follows :
      (origin fuel : ℕ) (c : Chunker) (prepared : Result Error Plan × World C)
      (out : Result Error Cursor × World C)
      → IsValid c
      → Tiled origin plan_start prepared
      → ((start safe_head : ℕ)
          → prepared.0 ≡ ok (index start safe_head)
          → (start ≤ safe_head) × (safe_head + 1 < word))
      → carry_out deps cfg fuel c prepared ≡ some out
      → Follows origin out
  unfolding carry_out
  prepared-Follows origin fuel c (err x, w) out v (k, t, fits, same) room h =
      let eq : out ≡ (err x, w) = ground (arith, h) in
      rw eq (k, t, fits, λ cur e. absurd (ground (arith, e)))
  prepared-Follows origin fuel c (ok (wait start), w) out v (k, t, fits, same) room h =
      let eq : out ≡ (ok (record { chunker = c; start = start }), w) = ground (arith, h) in
      rw eq (
        k,
        t,
        fits,
        λ cur e. (ground (arith, e, same (wait start) refl), subst IsValid (ground (arith, e)) v),
      )
  prepared-Follows origin fuel c (ok (index start safe_head), w) out v (k, t, fits, same) room h =
      let (le, fits') = room start safe_head refl in
      let at : start ≡ k = same (index start safe_head) refl in
      elim (Option-cases (process_range_adaptive deps fuel c start safe_head w)) [
        | inl e ↦ absurd (ground (arith, e, h))
        | inr (res, e) ↦
            let eq : out ≡ after_range deps cfg safe_head res = ground (arith, e, h) in
            rw eq (
              range-Follows origin fuel start safe_head c w res v
                (subst (λ n. Tiles origin n w.store.db.checkpoints) (sym at) t) le fits' e)
      ]

  pub follow_pass-Follows :
      (origin fuel : ℕ) (cur : Cursor) (w : World C) (out : Result Error Cursor × World C)
      → Heads deps
      → IsValid cur.chunker
      → Tiles origin cur.start w.store.db.checkpoints
      → cur.start < word
      → follow_pass deps cfg fuel cur w ≡ some out
      → Follows origin out
  unfolding follow_pass
  follow_pass-Follows origin fuel cur w out heads v t fits h =
      let (tiled, room) = prepare-Tiled deps cfg origin cur w heads t fits in
      prepared-Follows origin fuel cur.chunker (prepare deps cfg cur w) out v tiled room h

  -- `Follows` with the two ways to end written out.
  abbrev pub Passed : ℕ → Result Error Cursor × World C → Type 0
  Passed origin out =
      (k : ℕ) × Tiles origin k out.1.store.db.checkpoints
      × (k < word)
      × (((x : Error) × (out.0 ≡ err x))
          ⊎ ((cur : Cursor) × (out.0 ≡ ok cur) × (cur.start ≡ k) × IsValid cur.chunker))

  -- A pass that comes to an end, and started behind the checkpoints, which tile the blocks from
  -- `origin` on, keeps it so, whether it waits, rolls back, indexes a range or ends with an error
  -- anywhere in between: they tile the blocks up to some `k`, and without an error the next pass
  -- starts at `k` with a valid chunker. It asks for a chunker that is valid, a start that fits, and
  -- heads that leave room for one block more.
  pub follow_pass_lem :
      (origin fuel : ℕ) (cur : Cursor) (w : World C) (out : Result Error Cursor × World C)
      → Heads deps
      → IsValid cur.chunker
      → Tiles origin cur.start w.store.db.checkpoints
      → cur.start < word
      → follow_pass deps cfg fuel cur w ≡ some out
      → Passed origin out
  follow_pass_lem origin fuel cur w out heads v t fits h =
      let (k, tiles, fits', next) = follow_pass-Follows origin fuel cur w out heads v t fits h in
      elim (Result-cases out.0) [
        | inl (cur', e) ↦ (k, tiles, fits', inr (cur', e, (next cur' e).0, (next cur' e).1))
        | inr (x, e) ↦ (k, tiles, fits', inl (x, e))
      ]
