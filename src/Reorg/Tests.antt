-- ===== src/Reorg/Tests.antt =====
-- Detect on the sample node, over two checkpoints of which the node has another hash for the last.
use blockchain_data_feeds_po.Prelude.{
  ◌+◌, ◌≤◌, ◌<◌, ◌≡◌, ◌≢◌, ◌⊎◌, refl, true, lit, [], ◌∷◌, arith, All, In, length, text_eq,
}
use blockchain_data_feeds_po.Prelude.Exec.{ok}
use blockchain_data_feeds_po.Store.Db.{CheckpointRow, query}
use blockchain_data_feeds_po.Store.Checkpoints.{
  last_checkpoint, checkpoint_before, scan_checkpoint, greatest_end,
}
use blockchain_data_feeds_po.Store.Checkpoints.Rollback.{rolled_back}
use blockchain_data_feeds_po.Rpc.Interface.{BlockHeader}
use blockchain_data_feeds_po.Extract.Deps.{World}
use blockchain_data_feeds_po.Extract.Records.{wrapped}
use blockchain_data_feeds_po.Extract.Range.Tiles.{Tiles}
use blockchain_data_feeds_po.Extract.Example.{sample, fresh, empty_db}
use blockchain_data_feeds_po.Reorg.{detect, compare_hash, mismatch, rollback_block}
use blockchain_data_feeds_po.Reorg.Found.{detect_exact}
use blockchain_data_feeds_po.Reorg.Tail.{detect-Tiles}

abbrev kept_row : CheckpointRow
kept_row = record {
  id = 1;
  start_block = 1;
  end_block = 4;
  block_hash = lit "0xb";
  inserted_at = 0;
}

abbrev stale : CheckpointRow
stale = record { id = 2; start_block = 5; end_block = 9; block_hash = lit "0xold"; inserted_at = 0 }

abbrev forked : World (Unit {0})
forked = record fresh {
  store = record { db = record empty_db { checkpoints = kept_row ∷ stale ∷ [] }; calls = 0 };
}

found : (detect sample forked).0 ≡ ok (5, true)
unfolding detect compare_hash mismatch wrapped last_checkpoint checkpoint_before query
    scan_checkpoint greatest_end rollback_block text_eq
found = refl

detect-Tiles_example :
    Tiles 1 5 (rolled_back 5 forked.store.db).checkpoints
    × (5 < 10)
    × (length (rolled_back 5 forked.store.db).checkpoints + 1 ≡ length forked.store.db.checkpoints)
detect-Tiles_example =
    detect-Tiles sample 1 10 forked 5 (refl, omega arith, (refl, omega arith, refl)) (omega arith)
      found

detect_exact_example :
    (c : CheckpointRow) × In c forked.store.db.checkpoints
    × All (λ r. r.end_block ≤ c.end_block) forked.store.db.checkpoints
    × ((header : BlockHeader) × ((sample.rpc.get_block_by_number c.end_block forked.conn).0
          ≡ ok header)
        × (header.hash ≢ c.block_hash))
    × (5 ≤ c.start_block)
    × All (λ r. (c.start_block ≤ r.end_block) ⊎ (r.end_block < 5)) forked.store.db.checkpoints
detect_exact_example = detect_exact sample forked 5 (omega arith, (omega arith, tt)) found
