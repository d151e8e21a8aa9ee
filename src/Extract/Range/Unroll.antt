-- ===== src/Extract/Range/Unroll.antt =====
-- One turn of the loop of processRangeAdaptive.
use blockchain_data_feeds_po.Prelude.{ℕ, suc, ◌≡◌, false, some, Option, ltb}
use blockchain_data_feeds_po.Prelude.Exec.{Error, Result, ok, err}
use blockchain_data_feeds_po.Extract.Deps.{Deps, World}
use blockchain_data_feeds_po.Extract.Chunker.{Chunker}
use blockchain_data_feeds_po.Extract.Records.{BlockCache}
use blockchain_data_feeds_po.Extract.Range.{Round, shrunk, stored, process_chunk, process_range}

module _ {C : Type 0} (deps : Deps C) where
  -- The rest of the loop after a round that did not fail.
  abbrev pub continue :
      ℕ → ℕ → ℕ → Round → BlockCache → World C → Option (Result Error Chunker × World C)
  continue fuel current to (shrunk c) cache w = process_range deps fuel c cache current to w
  continue fuel current to (stored c cache' next) cache w =
      process_range deps fuel c cache' next to w

  pub unrolled :
      (fuel : ℕ) (c : Chunker) (cache : BlockCache) (current to : ℕ) (w : World C) (round : Round)
      → ltb to current ≡ false
      → (process_chunk deps c cache current to w).0 ≡ ok round
      → process_range deps (suc fuel) c cache current to w
        ≡ continue fuel current to round cache (process_chunk deps c cache current to w).1
  unfolding process_range
  unrolled fuel c cache current to w (shrunk c') more e = rw (more, e)
  unrolled fuel c cache current to w (stored c' cache' next) more e = rw (more, e)

  pub unrolled_err :
      (fuel : ℕ) (c : Chunker) (cache : BlockCache) (current to : ℕ) (w : World C) (x : Error)
      → ltb to current ≡ false
      → (process_chunk deps c cache current to w).0 ≡ err x
      → process_range deps (suc fuel) c cache current to w
        ≡ some (err x, (process_chunk deps c cache current to w).1)
  unfolding process_range
  unrolled_err fuel c cache current to w x more e = rw (more, e)
