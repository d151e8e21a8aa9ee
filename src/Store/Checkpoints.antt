-- ===== src/Store/Checkpoints.antt =====
-- SaveRangeCheckpoint, LastCheckpoint, CheckpointBefore and RollbackFrom of
-- internal/store/sqlite.go, and scanCheckpoint of internal/store/store.go.
pub mod Order
pub mod Rollback
mod Tests
use blockchain_data_feeds_po.Prelude.{
  ℕ, ◌+◌, Option, none, some, List, [], ◌∷◌, ◌++◌, ltb, leb, not, if◌then◌else◌, keep,
}
use blockchain_data_feeds_po.Prelude.Exec.{◌>>=◌, ◌>>◌}
use blockchain_data_feeds_po.Store.Types.{Checkpoint, unix, from_unix}
use blockchain_data_feeds_po.Store.Db.{Db, CheckpointRow, Database, Action, exec, query}

-- INSERT INTO checkpoints; the key is AUTOINCREMENT.
unfoldable pub add_checkpoint : Checkpoint → Db → Db
add_checkpoint cp db =
    let row : CheckpointRow = record {
      id = db.next_id;
      start_block = cp.start_block;
      end_block = cp.end_block;
      block_hash = cp.block_hash;
      inserted_at = unix cp.inserted_at;
    } in
    record db { checkpoints = db.checkpoints ++ row ∷ []; next_id = db.next_id + 1 }

unfoldable pub save_range_checkpoint : Database → Checkpoint → Action (Unit {0})
save_range_checkpoint d cp = exec d (add_checkpoint cp)

-- ORDER BY end_block DESC LIMIT 1: the index on end_block is walked backwards, so that of rows
-- with one end_block the last inserted comes first.
unfoldable pub greatest_end : List CheckpointRow → Option CheckpointRow
greatest_end [] = none
greatest_end (c ∷ cs) = elim (greatest_end cs) [
  | none ↦ some c
  | some b ↦ some (if ltb b.end_block c.end_block then c else b)
]

unfoldable pub scan_checkpoint : Option CheckpointRow → Option Checkpoint
scan_checkpoint none = none
scan_checkpoint (some r) = some (record {
  id = r.id;
  start_block = r.start_block;
  end_block = r.end_block;
  block_hash = r.block_hash;
  inserted_at = from_unix r.inserted_at;
})

unfoldable pub last_checkpoint : Database → Action (Option Checkpoint)
last_checkpoint d = query d (λ db. scan_checkpoint (greatest_end db.checkpoints))

-- WHERE end_block < ?
unfoldable pub checkpoint_before : Database → ℕ → Action (Option Checkpoint)
checkpoint_before d block =
    query d λ db. scan_checkpoint (greatest_end (keep (λ c. ltb c.end_block block) db.checkpoints))

-- DELETE FROM logs WHERE block_number >= ?
unfoldable pub delete_logs : ℕ → Db → Db
delete_logs block db = record db { logs = keep (λ r. not (leb block r.block_number)) db.logs }

-- DELETE FROM checkpoints WHERE start_block >= ?
unfoldable pub delete_checkpoints : ℕ → Db → Db
delete_checkpoints block db = record db {
  checkpoints = keep (λ c. not (leb block c.start_block)) db.checkpoints;
}

-- The two statements are not one transaction.
unfoldable pub rollback_from : Database → ℕ → Action (Unit {0})
rollback_from d block = do exec d (delete_logs block); exec d (delete_checkpoints block)
