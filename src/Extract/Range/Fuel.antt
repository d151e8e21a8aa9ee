-- ===== src/Extract/Range/Fuel.antt =====
-- The end of the loop in processRangeAdaptive, internal/extract/extract.go.
use blockchain_data_feeds_po.Prelude.{
  false, refl, [], ℕ, suc, ◌+◌, ◌*◌, ◌-◌, ◌≤◌, ◌<◌, ◌≡◌, ◌∙◌, arith, word, some, Bool-cases, ap,
  inl, inr, subst, sym, zero,
}
use blockchain_data_feeds_po.Prelude.Exec.{Error, too_many_results, Result, ok, err, Result-cases}
use blockchain_data_feeds_po.Extract.Deps.{Deps, World}
use blockchain_data_feeds_po.Extract.Chunker.{Chunker, on_success, on_error}
use blockchain_data_feeds_po.Extract.Chunker.Bounds.{
  IsValid, on_success-IsValid, on_error_shrinks, max_on_error, max_on_success, min_on_error,
  on_error-IsValid, min_on_success,
}
use blockchain_data_feeds_po.Extract.Records.{BlockCache, build_filter}
use blockchain_data_feeds_po.Extract.Range.{
  chunk_end, shrunk, stored, process_chunk, process_range, ltb, process_range_adaptive, refused,
  Round, none,
}
use blockchain_data_feeds_po.Extract.Range.Unroll.{continue, unrolled, unrolled_err}
use blockchain_data_feeds_po.Extract.Range.Chunk.{
  chunk_end_bounds, process_chunk-stored, process_chunk-shrunk,
}

-- The number of rounds that can be left.
abbrev pub measure : Chunker → ℕ → ℕ → ℕ
measure c current to = (to + 1 - current) * (c.max + 1) + c.current

falls : (a b m k j : ℕ) → suc a ≤ b → k < m → a * m + k < b * m + j
falls a b m k j h p = grind arith

lt-not : (from to : ℕ) → from ≤ to → ltb to from ≡ false
lt-not from to h = ground arith

module _ {C : Type 0} (deps : Deps C) where
  -- The node refuses as too many only what asks for more than `min` blocks.
  pub record Relents (min : ℕ) : Type 0 where
    pub refuses :
        (from to : ℕ) (conn : C)
        → (deps.rpc.get_logs (build_filter deps from to) conn).0 ≡ err too_many_results
        → from + min ≤ to

  shrunk_falls :
      (c c' : Chunker) (cache : BlockCache) (current to : ℕ) (w : World C)
      → Relents c.min
      → IsValid c
      → current ≤ to
      → to + 1 < word
      → (process_chunk deps c cache current to w).0 ≡ ok (shrunk c')
      → measure c' current to < measure c current to
  shrunk_falls c c' cache current to w r v le fits e =
      let (eq, refused, _) = process_chunk-shrunk deps c c' cache current to w e in
      let bounds = chunk_end_bounds c current to (omega arith) le fits in
      let wide = r.refuses current (chunk_end c current to) w.conn refused in
      let less = on_error_shrinks c v (omega arith) in rw (eq, max_on_error c) (omega arith)

  stored_falls :
      (c c' : Chunker) (cache cache' : BlockCache) (current to next : ℕ) (w : World C)
      → IsValid c
      → current ≤ to
      → to + 1 < word
      → (process_chunk deps c cache current to w).0 ≡ ok (stored c' cache' next)
      → (measure c' next to < measure c current to) × (next ≤ to + 1)
  stored_falls c c' cache cache' current to next w v le fits e =
      let (logs, answer, eq, next_eq, kept) =
        process_chunk-stored deps c c' cache cache' current to next w e in
      let bounds = chunk_end_bounds c current to (omega arith) le fits in
      let end_next : next ≡ chunk_end c current to + 1 = next_eq ∙ omega arith in
      let valid = on_success-IsValid c v in
      (
        rw (eq, max_on_success c)
            (falls (to + 1 - next) (to + 1 - current) (c.max + 1) (on_success c).current c.current
              (omega arith) (omega (arith, max_on_success c))),
        omega arith,
      )

  abbrev Ends : ℕ → Chunker → BlockCache → ℕ → ℕ → World C → Type 0
  Ends fuel c cache current to w =
      (out : Result Error Chunker × World C) × (process_range deps fuel c cache current to w
        ≡ some out)

  abbrev AllEnd : ℕ → ℕ → ℕ → Type 0
  AllEnd fuel min to =
      (c : Chunker) (cache : BlockCache) (current : ℕ) (w : World C)
      → c.min ≡ min
      → IsValid c
      → current ≤ to + 1
      → measure c current to < fuel
      → Ends fuel c cache current to w

  continue-Ends :
      (fuel : ℕ) (c : Chunker) (cache : BlockCache) (current to : ℕ) (w : World C) (round : Round)
      → Relents c.min
      → IsValid c
      → current ≤ to
      → to + 1 < word
      → measure c current to < suc fuel
      → AllEnd fuel c.min to
      → (process_chunk deps c cache current to w).0 ≡ ok round
      → (out : Result Error Chunker × World C) × (continue deps fuel current to round cache
            (process_chunk deps c cache current to w).1
          ≡ some out)
  continue-Ends fuel c cache current to w (shrunk c') r v le fits m ih e =
      let (eq, _, _) = process_chunk-shrunk deps c c' cache current to w e in
      ih c' cache current (process_chunk deps c cache current to w).1
        (ap (λ (d : Chunker). d.min) eq ∙ min_on_error c)
        (subst IsValid (sym eq) (on_error-IsValid c v)) (omega arith)
        (omega (arith, shrunk_falls c c' cache current to w r v le fits e))
  continue-Ends fuel c cache current to w (stored c' cache' next) r v le fits m ih e =
      let eq = (process_chunk-stored deps c c' cache cache' current to next w e).2 in
      let (less, le') = stored_falls c c' cache cache' current to next w v le fits e in
      ih c' cache' next (process_chunk deps c cache current to w).1
        (ap (λ (d : Chunker). d.min) eq ∙ min_on_success c)
        (subst IsValid (sym eq) (on_success-IsValid c v)) le' (omega arith)

  process_range-Ends : (fuel min to : ℕ) → Relents min → to + 1 < word → AllEnd fuel min to
  unfolding process_range
  process_range-Ends zero min to r fits c cache current w same v le m = elim m [ ]
  process_range-Ends (suc fuel) min to r fits c cache current w same v le m =
      elim (Bool-cases (ltb to current)) [
        | inl done ↦ ((ok c, w), rw done)
        | inr more ↦ elim (Result-cases (process_chunk deps c cache current to w).0) [
          | inl (round, e) ↦
              let (out, h) =
                continue-Ends fuel c cache current to w round (subst Relents (sym same) r) v
                  (ground arith) fits m
                  (subst (λ n. AllEnd fuel n to) (sym same) (process_range-Ends fuel min to r fits))
                  e in
              (out, unrolled deps fuel c cache current to w round more e ∙ h)
          | inr (x, e) ↦ (_, unrolled_err deps fuel c cache current to w x more e)
        ]
      ]

  -- If the node refuses as too many only what asks for more than the minimum chunk, the chunk
  -- bounds are valid, and the range ends below the last `uint64` and starts at most one block behind
  -- its end, then the call comes to an end, with an error or without, on any fuel above
  -- (number of blocks) * (maximum chunk + 1) + (current chunk).
  pub process_range_adaptive-Ends :
      (fuel : ℕ) (c : Chunker) (from to : ℕ) (w : World C)
      → Relents c.min
      → IsValid c
      → from ≤ to + 1
      → to + 1 < word
      → measure c from to < fuel
      → (out : Result Error Chunker × World C) × (process_range_adaptive deps fuel c from to w
          ≡ some out)
  unfolding process_range_adaptive
  process_range_adaptive-Ends fuel c from to w r v le fits m =
      process_range-Ends fuel c.min to r fits c [] from w refl v le m

  -- The node refuses as too many whatever range starts at this block.
  abbrev pub AlwaysRefuses : ℕ → Type 0
  AlwaysRefuses from =
      (end : ℕ) (conn : C)
      → (deps.rpc.get_logs (build_filter deps from end) conn).0 ≡ err too_many_results

  process_range_stuck :
      (fuel : ℕ) (c : Chunker) (cache : BlockCache) (from to : ℕ) (w : World C)
      → AlwaysRefuses from
      → from ≤ to
      → process_range deps fuel c cache from to w ≡ none
  unfolding process_range process_chunk refused
  process_range_stuck zero c cache from to w a le = refl
  process_range_stuck (suc fuel) c cache from to w a le =
      let e = a (chunk_end c from to) w.conn in
      rw (lt-not from to le, e) (process_range_stuck fuel (on_error c) cache from to _ a le)

  -- If the node refuses as too many every range that starts at `from`, as for a block whose logs
  -- alone are too many, then the call on a range that is not empty never comes to an end.
  pub process_range_adaptive_stuck :
      (fuel : ℕ) (c : Chunker) (from to : ℕ) (w : World C)
      → AlwaysRefuses from
      → from ≤ to
      → process_range_adaptive deps fuel c from to w ≡ none
  unfolding process_range_adaptive
  process_range_adaptive_stuck fuel c from to w a le = process_range_stuck fuel c [] from to w a le
