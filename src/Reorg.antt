-- ===== src/Reorg.antt =====
-- internal/reorg/reorg.go: the check of the last checkpoint against the chain, and the rollback.
pub mod Found
pub mod Tail
mod Tests
use blockchain_data_feeds_po.Prelude.{
  ℕ, Bool, true, false, lit, none, some, [], text_eq, if◌then◌else◌, add64, Option,
}
use blockchain_data_feeds_po.Prelude.Exec.{pure, ◌>>=◌}
use blockchain_data_feeds_po.Store.Types.{Checkpoint}
use blockchain_data_feeds_po.Store.Checkpoints.{last_checkpoint, checkpoint_before, rollback_from}
use blockchain_data_feeds_po.Extract.Deps.{Deps, Run, with_rpc, with_store}
use blockchain_data_feeds_po.Extract.Records.{wrapped}

-- The block to roll back from: behind the previous checkpoint, or the start of this one.
unfoldable pub rollback_block : Checkpoint → Option Checkpoint → ℕ
rollback_block cp none = cp.start_block
rollback_block cp (some prev) = add64 prev.end_block 1

module _ {C : Type 0} (deps : Deps C) where
  -- The case of a hash that does not fit.
  unfoldable pub mismatch : Checkpoint → Run C (ℕ × Bool)
  mismatch cp = do
    prev ←
        wrapped (lit "load previous checkpoint") []
          (with_store (checkpoint_before deps.store cp.start_block))
    pure (rollback_block cp prev, true)

  -- The last checkpoint against the hash that the node has for its end.
  unfoldable pub compare_hash : Checkpoint → Run C (ℕ × Bool)
  compare_hash cp = do
    header ←
        wrapped (lit "fetch block hash") [] (with_rpc (deps.rpc.get_block_by_number cp.end_block))
    if text_eq header.hash cp.block_hash then pure (0, false) else mismatch cp

  unfoldable pub detect : Run C (ℕ × Bool)
  detect = do
    last ← wrapped (lit "load checkpoint") [] (with_store (last_checkpoint deps.store))
    elim last [ none ↦ pure (0, false) | some cp ↦ compare_hash cp ]

  unfoldable pub rollback : ℕ → Run C (Unit {0})
  rollback from_block = with_store (rollback_from deps.store from_block)
