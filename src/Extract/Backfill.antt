-- ===== src/Extract/Backfill.antt =====
-- Backfill of internal/extract/backfill.go: its bounds and the ranges that it hands to the workers.
pub mod Cover
pub mod Pool
mod Tests
use blockchain_data_feeds_po.Prelude.{
  ℕ, zero, suc, Bool, lit, Option, none, some, List, [], ◌∷◌, leb, ltb, if◌then◌else◌, add64, sub64,
}
use blockchain_data_feeds_po.Prelude.Exec.{Error, failed, pure, raise, ◌>>=◌}
use blockchain_data_feeds_po.Extract.Deps.{Deps, Run, with_rpc}
use blockchain_data_feeds_po.Extract.Records.{wrapped}
use blockchain_data_feeds_po.Extract.Follow.{Settings}

-- `Range` of internal/extract/extract.go.
pub record Range : Type 0 where
  pub from : ℕ
  pub to : ℕ

-- The end of the next range.
unfoldable pub range_end : ℕ → ℕ → ℕ → ℕ
range_end chunk_size cur end =
    let r_end = sub64 (add64 cur chunk_size) 1 in if ltb end r_end then end else r_end

-- The loop that sends the jobs, on fuel: `none` means that the fuel ran out.
unfoldable pub produce : ℕ → ℕ → ℕ → ℕ → Option (List Range)
produce zero chunk_size cur end = none
produce (suc fuel) chunk_size cur end =
    let r_end = range_end chunk_size cur end in
    let rest = produce fuel chunk_size (add64 r_end 1) end in
    if ltb end cur
    then some []
    else elim rest [ none ↦ none | some ranges ↦ some (record { from = cur; to = r_end } ∷ ranges) ]

abbrev or_default : Option ℕ → ℕ → ℕ
or_default none d = d
or_default (some n) d = n

module _ {C : Type 0} (deps : Deps C) (cfg : Settings) where
  -- The last block: the override, or the head less the confirmations.
  end_of_chain : Run C ℕ
  end_of_chain = do
    head ← wrapped (lit "get head") [] (with_rpc deps.rpc.get_block_number)
    if leb head cfg.confirmations
        then raise (failed (lit "head too low for confirmations"))
        else pure (sub64 head cfg.confirmations)

  choose_end : Option ℕ → Run C ℕ
  unfolding end_of_chain
  choose_end none = end_of_chain
  choose_end (some to) = pure to

  -- The blocks to index, first and last. They are out of order where there is nothing to do.
  unfoldable pub backfill_bounds : Option ℕ → Option ℕ → Run C Range
  unfolding choose_end
  backfill_bounds from_override to_override = do
    end ← choose_end to_override
    pure (record { from = or_default from_override cfg.start_block; to = end })
