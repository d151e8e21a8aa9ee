-- ===== src/Extract/Range/Tests.antt =====
-- processRangeAdaptive on the sample node.
use blockchain_data_feeds_po.Prelude.{◌≡◌, refl, some, none, [], ◌∷◌, arith}
use blockchain_data_feeds_po.Prelude.Exec.{Error, Result, err, too_many_results}
use blockchain_data_feeds_po.Extract.Deps.{World, Deps}
use blockchain_data_feeds_po.Extract.Chunker.{Chunker}
use blockchain_data_feeds_po.Extract.Chunker.Bounds.{IsValid}
use blockchain_data_feeds_po.Extract.Example.{sample, fresh, one_log, node}
use blockchain_data_feeds_po.Extract.Range.{process_range_adaptive}
use blockchain_data_feeds_po.Extract.Range.Complete.{Serves, Served, process_range_adaptive_lem}
use blockchain_data_feeds_po.Extract.Range.Fuel.{
  Relents, process_range_adaptive-Ends, process_range_adaptive_stuck,
}

abbrev small : Chunker
small = record { min = 1; max = 8; current = 4 }

small-IsValid : IsValid small
small-IsValid = record {
  positive = omega arith;
  above = omega arith;
  below = omega arith;
  no_wrap = omega arith;
}

sample-Serves : Serves sample (one_log ∷ [])
sample-Serves = record { complete = λ from to conn logs h l i a b. ground (arith, h, i) }

sample-Relents : Relents sample 1
sample-Relents = record { refuses = λ from to conn h. absurd (ground (arith, h)) }

process_range_adaptive-Ends_example :
    (out : Result Error Chunker × World (Unit {0})) × (process_range_adaptive sample 100 small 1 9
        fresh
      ≡ some out)
process_range_adaptive-Ends_example =
    process_range_adaptive-Ends sample 100 small 1 9 fresh sample-Relents small-IsValid
      (omega arith) (omega arith) (omega arith)

abbrev outcome : Result Error Chunker × World (Unit {0})
outcome =
    (process_range_adaptive-Ends sample 100 small 1 9 fresh sample-Relents small-IsValid
      (omega arith) (omega arith) (omega arith)).0

reached : process_range_adaptive sample 100 small 1 9 fresh ≡ some outcome
reached =
    (process_range_adaptive-Ends sample 100 small 1 9 fresh sample-Relents small-IsValid
      (omega arith) (omega arith) (omega arith)).1

process_range_adaptive_lem_example : Served sample (one_log ∷ []) 1 9 fresh.store.db outcome
process_range_adaptive_lem_example =
    process_range_adaptive_lem sample (one_log ∷ []) 100 small 1 9 fresh outcome sample-Serves
      small-IsValid (omega arith) (omega arith) reached

-- A node that refuses every range.
abbrev stubborn : Deps (Unit {0})
stubborn = record sample { rpc = record node { get_logs = λ f c. (err too_many_results, c) } }

process_range_adaptive_stuck_example : process_range_adaptive stubborn 50 small 1 9 fresh ≡ none
process_range_adaptive_stuck_example =
    process_range_adaptive_stuck stubborn 50 small 1 9 fresh (λ end conn. refl) (omega arith)
