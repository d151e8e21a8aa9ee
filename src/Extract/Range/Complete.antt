-- ===== src/Extract/Range/Complete.antt =====
-- processRangeAdaptive of internal/extract/extract.go as a whole.
use blockchain_data_feeds_po.Prelude.{
  ℕ, suc, zero, ◌+◌, ◌≤◌, ◌<◌, ◌≡◌, subst, sym, ◌∙◌, arith, List, inl, inr, In, word, some, ltb,
  Bool-cases, ◌⊎◌,
}
use blockchain_data_feeds_po.Prelude.Exec.{Error, Result, ok, err, Result-cases}
use blockchain_data_feeds_po.Store.Db.{Db, SqliteStore}
use blockchain_data_feeds_po.Rpc.Interface.{Log}
use blockchain_data_feeds_po.Extract.Deps.{Deps, World}
use blockchain_data_feeds_po.Extract.Chunker.{Chunker}
use blockchain_data_feeds_po.Extract.Chunker.Bounds.{IsValid, on_error-IsValid, on_success-IsValid}
use blockchain_data_feeds_po.Extract.Records.{BlockCache, build_filter}
use blockchain_data_feeds_po.Extract.Range.{
  chunk_end, Round, shrunk, stored, process_chunk, process_range, process_range_adaptive, [],
}
use blockchain_data_feeds_po.Extract.Range.Failed.{process_chunk-Failed}
use blockchain_data_feeds_po.Extract.Range.Chunk.{
  chunk_end_bounds, process_chunk-stored, process_chunk-shrunk,
}
use blockchain_data_feeds_po.Extract.Range.Unroll.{continue, unrolled}
use blockchain_data_feeds_po.Extract.Range.Tiles.{
  Progress, Progress-none, Progress-trans, Progress-chunk,
}

module _ {C : Type 0} (deps : Deps C) (chain : List Log) where
  -- The node: an answer to `eth_getLogs` has every log of the chain in the range that it was
  -- asked for. Refusals and failures are free, and so is what else the answer has.
  pub record Serves : Type 0 where
    pub complete :
        (from to : ℕ) (conn : C) (logs : List Log)
        → (deps.rpc.get_logs (build_filter deps from to) conn).0 ≡ ok logs
        → (l : Log) → In l chain
        → from ≤ l.block_number
        → l.block_number ≤ to
        → In l logs

  -- The end of a run: it stopped before block `stop`, and at the end of the range if it returned
  -- no error.
  abbrev pub Ended : ℕ → ℕ → Db → Result Error Chunker × World C → Type 0
  Ended from to before out =
      (stop : ℕ) × Progress deps.chain_id chain from stop before out.1.store.db
      × (stop ≤ to + 1)
      × ((c : Chunker) → out.0 ≡ ok c → (stop ≡ to + 1) × IsValid c)

  Ended-done :
      (c : Chunker) (current to : ℕ) (w : World C) (out : Result Error Chunker × World C)
      → IsValid c
      → current ≡ to + 1
      → out ≡ (ok c, w)
      → Ended current to w.store.db out
  Ended-done c current to w out v done e = (
    current,
    Progress-none deps.chain_id chain current _ _ (ground (arith, e)) (λ p a. ground (arith, e)),
    omega arith,
    λ c' e'. (done, subst IsValid (ground (arith, e, e')) v),
  )

  Ended-failed :
      (c : Chunker) (cache : BlockCache) (current to : ℕ) (w : World C)
      (out : Result Error Chunker × World C) (x : Error)
      → current ≤ to + 1
      → (process_chunk deps c cache current to w).0 ≡ err x
      → out ≡ (err x, (process_chunk deps c cache current to w).1)
      → Ended current to w.store.db out
  Ended-failed c cache current to w out x le f e =
      let (same, kept) = process_chunk-Failed deps c cache current to w x f in
      (
        current,
        Progress-none deps.chain_id chain current _ _ (ground (arith, e, same))
            (λ p a. ground (arith, e, kept p a)),
        le,
        λ c' e'. absurd (ground (arith, e, e')),
      )

  Ended-shrunk :
      (c c' : Chunker) (cache : BlockCache) (current to : ℕ) (w : World C)
      (out : Result Error Chunker × World C)
      → (process_chunk deps c cache current to w).0 ≡ ok (shrunk c')
      → Ended current to (process_chunk deps c cache current to w).1.store.db out
      → Ended current to w.store.db out
  Ended-shrunk c c' cache current to w out e ended =
      subst (λ (s : SqliteStore). Ended current to s.db out)
        (process_chunk-shrunk deps c c' cache current to w e).2 ended

  Ended-stored :
      (c c' : Chunker) (cache cache' : BlockCache) (current to next : ℕ) (w : World C)
      (out : Result Error Chunker × World C)
      → Serves
      → IsValid c
      → current ≤ to
      → to + 1 < word
      → (process_chunk deps c cache current to w).0 ≡ ok (stored c' cache' next)
      → (next ≤ to + 1 → Ended next to (process_chunk deps c cache current to w).1.store.db out)
      → Ended current to w.store.db out
  Ended-stored c c' cache cache' current to next w out s v le fits e later =
      let (logs, answer, _, next_eq, kept) =
        process_chunk-stored deps c c' cache cache' current to next w e in
      let (built, cp, match, start, stop, saved) = kept in
      let bounds = chunk_end_bounds c current to (omega arith) le fits in
      let end_next : next ≡ chunk_end c current to + 1 = next_eq ∙ omega arith in
      let first =
        Progress-chunk deps.chain_id chain logs current (chunk_end c current to) built cp _ _
          (s.complete current (chunk_end c current to) w.conn logs answer) bounds.0 match start stop
          saved in
      let (reached, rest, below, finish) = later (omega arith) in
      (
        reached,
        Progress-trans deps.chain_id chain current next reached _ _ _
            (subst
              (λ n.
                Progress deps.chain_id chain current n w.store.db
                  (process_chunk deps c cache current to w).1.store.db)
              (sym end_next) first)
            rest,
        below,
        finish,
      )

  -- What holds of every call with this fuel.
  abbrev Holds : ℕ → ℕ → Type 0
  Holds fuel to =
      (c : Chunker) (cache : BlockCache) (current : ℕ) (w : World C)
      (out : Result Error Chunker × World C)
      → IsValid c
      → current ≤ to + 1
      → process_range deps fuel c cache current to w ≡ some out
      → Ended current to w.store.db out

  round-Ended :
      (fuel : ℕ) (c : Chunker) (cache : BlockCache) (current to : ℕ) (w : World C)
      (out : Result Error Chunker × World C) (round : Round)
      → Serves
      → IsValid c
      → current ≤ to
      → to + 1 < word
      → Holds fuel to
      → (process_chunk deps c cache current to w).0 ≡ ok round
      → continue deps fuel current to round cache (process_chunk deps c cache current to w).1
        ≡ some out
      → Ended current to w.store.db out
  round-Ended fuel c cache current to w out (shrunk c') s v le fits ih e h =
      let valid =
        subst IsValid (sym (process_chunk-shrunk deps c c' cache current to w e).0)
          (on_error-IsValid c v) in
      Ended-shrunk c c' cache current to w out e (ih c' cache current _ out valid (omega arith) h)
  round-Ended fuel c cache current to w out (stored c' cache' next) s v le fits ih e h =
      let valid =
        subst IsValid (sym (process_chunk-stored deps c c' cache cache' current to next w e).2)
          (on_success-IsValid c v) in
      Ended-stored c c' cache cache' current to next w out s v le fits e
        (λ le'. ih c' cache' next _ out valid le' h)

  process_range-Ended : (fuel to : ℕ) → Serves → to + 1 < word → Holds fuel to
  unfolding process_range
  process_range-Ended zero to s fits c cache current w out v le h = cc
  process_range-Ended (suc fuel) to s fits c cache current w out v le h =
      let ih = process_range-Ended fuel to s fits in
      elim (Bool-cases (ltb to current)) [
        | inl done ↦ Ended-done c current to w out v (ground arith) (ground (arith, done, h))
        | inr more ↦ elim (Result-cases (process_chunk deps c cache current to w).0) [
          | inl (round, e) ↦
              round-Ended fuel c cache current to w out round s v (ground arith) fits ih e
                (sym (unrolled deps fuel c cache current to w round more e) ∙ h)
          | inr (x, e) ↦ Ended-failed c cache current to w out x le e (ground (arith, more, e, h))
        ]
      ]

  pub process_range_adaptive-Ended :
      (fuel : ℕ) (c : Chunker) (from to : ℕ) (w : World C) (out : Result Error Chunker × World C)
      → Serves
      → IsValid c
      → from ≤ to + 1
      → to + 1 < word
      → process_range_adaptive deps fuel c from to w ≡ some out
      → Ended from to w.store.db out
  unfolding process_range_adaptive
  process_range_adaptive-Ended fuel c from to w out s v le fits h =
      process_range-Ended fuel to s fits c [] from w out v le h

  -- `Ended` with the two ways to end written out.
  abbrev pub Served : ℕ → ℕ → Db → Result Error Chunker × World C → Type 0
  Served from to before out =
      (stop : ℕ) × Progress deps.chain_id chain from stop before out.1.store.db
      × (stop ≤ to + 1)
      × (((x : Error) × (out.0 ≡ err x))
          ⊎ ((c : Chunker) × (out.0 ≡ ok c) × (stop ≡ to + 1) × IsValid c))

  -- If the node's answers are complete, the chunk bounds are valid, and the range ends below the
  -- last `uint64` and starts at most one block behind its end, then a call that comes to an end,
  -- with an error or without, has reached some block `stop`: the checkpoints that it added
  -- tile the blocks from `from` up to `stop`, every log of the chain in those blocks is in the
  -- table, and no row was lost. Without an error `stop` is the block after `to`, and the chunker
  -- that it leaves is valid.
  pub process_range_adaptive_lem :
      (fuel : ℕ) (c : Chunker) (from to : ℕ) (w : World C) (out : Result Error Chunker × World C)
      → Serves
      → IsValid c
      → from ≤ to + 1
      → to + 1 < word
      → process_range_adaptive deps fuel c from to w ≡ some out
      → Served from to w.store.db out
  process_range_adaptive_lem fuel c from to w out s v le fits h =
      let (stop, p, below, finish) =
        process_range_adaptive-Ended fuel c from to w out s v le fits h in
      elim (Result-cases out.0) [
        | inl (c', e) ↦ (stop, p, below, inr (c', e, (finish c' e).0, (finish c' e).1))
        | inr (x, e) ↦ (stop, p, below, inl (x, e))
      ]
