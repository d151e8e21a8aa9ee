-- ===== src/Extract/Follow.antt =====
-- Follow of internal/extract/follow.go: one pass of its loop, and passes in a row.
pub mod Prepared
pub mod Pass
pub mod Resume
pub mod Front
mod Tests
use blockchain_data_feeds_po.Prelude.{
  ℕ, zero, suc, Bool, true, false, lit, Option, none, some, [], leb, ltb, if◌then◌else◌, add64,
  sub64,
}
use blockchain_data_feeds_po.Prelude.Exec.{Error, Result, ok, err, pure, attempt, ◌>>=◌, ◌>>◌}
use blockchain_data_feeds_po.Store.Types.{Checkpoint}
use blockchain_data_feeds_po.Store.Checkpoints.{last_checkpoint}
use blockchain_data_feeds_po.Metrics.{add_rpc_errors, set_lag}
use blockchain_data_feeds_po.Extract.Deps.{Deps, World, Run, with_rpc, with_store, count}
use blockchain_data_feeds_po.Extract.Chunker.{Chunker, new_chunker}
use blockchain_data_feeds_po.Extract.Records.{wrapped}
use blockchain_data_feeds_po.Extract.Range.{process_range_adaptive}
use blockchain_data_feeds_po.Reorg.{detect, rollback}

-- The fields of `config.IndexerConfig` that the extractor reads.
pub record Settings : Type 0 where
  pub start_block : ℕ
  pub confirmations : ℕ
  pub chunk_size : ℕ
  pub min_chunk_size : ℕ
  pub max_chunk_size : ℕ
  pub concurrency : ℕ

-- The variables of the loop.
pub record Cursor : Type 0 where
  pub chunker : Chunker
  pub start : ℕ

-- What a pass does after its checks: sleep, or index a range.
pub data Plan : Type 0 where
  wait : ℕ → Plan
  index : ℕ → ℕ → Plan

module _ {C : Type 0} (deps : Deps C) (cfg : Settings) where
  unfoldable pub resume_at : Option Checkpoint → ℕ
  resume_at none = cfg.start_block
  resume_at (some cp) = add64 cp.end_block 1

  -- The part before the loop.
  unfoldable pub begin : Run C Cursor
  begin = do
    cp ← wrapped (lit "load checkpoint") [] (with_store (last_checkpoint deps.store))
    pure (record {
      chunker = new_chunker cfg.min_chunk_size cfg.max_chunk_size cfg.chunk_size;
      start = resume_at cp;
    })

  -- The check for a reorganisation: the block to go on from.
  unfoldable pub check_reorg : ℕ → Run C ℕ
  check_reorg start = do
    found ← detect deps
    if found.1 then (do rollback deps found.0; pure found.0) else pure start

  unfoldable pub plan_for : ℕ → ℕ → Run C Plan
  plan_for start head =
      if leb head cfg.confirmations
      then pure (wait start)
      else (let safe_head = sub64 head cfg.confirmations in
          if ltb safe_head start
          then (do count (set_lag 0); pure (wait start))
          else (do count (set_lag (sub64 safe_head start)); pure (index start safe_head)))

  -- The head, and what to do with it. A failed request for the head waits.
  unfoldable pub plan : ℕ → Run C Plan
  plan start = do
    answer ← attempt (with_rpc deps.rpc.get_block_number)
    elim answer [
      | ok head ↦ plan_for start head
      | err e ↦ do count (add_rpc_errors 1); pure (wait start)
    ]

  unfoldable pub prepare : Cursor → Run C Plan
  prepare cur = do start ← check_reorg cur.start; plan start

  -- How a pass ends: with an error, which ends `Follow`, or with the variables of the next pass.
  unfoldable pub after_range : ℕ → Result Error Chunker × World C → Result Error Cursor × World C
  after_range safe_head (ok c, w) = (ok (record { chunker = c; start = add64 safe_head 1 }), w)
  after_range safe_head (err e, w) = (err e, w)

  unfoldable pub carry_out :
      ℕ → Chunker → Result Error Plan × World C → Option (Result Error Cursor × World C)
  carry_out fuel c (err e, w) = some (err e, w)
  carry_out fuel c (ok (wait start), w) = some (ok (record { chunker = c; start = start }), w)
  carry_out fuel c (ok (index start safe_head), w) =
      elim (process_range_adaptive deps fuel c start safe_head w) [
        | none ↦ none
        | some out ↦ some (after_range safe_head out)
      ]

  -- One pass of the loop, `fuel` bounding the rounds of its range.
  unfoldable pub follow_pass : ℕ → Cursor → World C → Option (Result Error Cursor × World C)
  follow_pass fuel cur w = carry_out fuel cur.chunker (prepare cur w)

  -- `n` passes, or fewer if one ends with an error; then the context is done.
  unfoldable pub follow_passes : ℕ → ℕ → Cursor → World C → Option (Result Error Cursor × World C)
  follow_passes zero fuel cur w = some (ok cur, w)
  follow_passes (suc n) fuel cur w = elim (follow_pass fuel cur w) [
    | none ↦ none
    | some out ↦
        (let (r, w') = out in
          elim r [ err e ↦ some (err e, w') | ok cur' ↦ follow_passes n fuel cur' w' ])
  ]

  -- `Follow`: the start, and then the passes until the context is done.
  unfoldable pub follow : ℕ → ℕ → World C → Option (Result Error Cursor × World C)
  follow n fuel w =
      let (r, w') = begin w in
      elim r [ err e ↦ some (err e, w') | ok cur ↦ follow_passes n fuel cur w' ]
