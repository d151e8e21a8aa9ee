-- ===== src/Store/Checkpoints/Tests.antt =====
-- Rollbacks on a table with two checkpoints, by a database whose second statement fails.
use blockchain_data_feeds_po.Prelude.{◌==◌, if◌then◌else◌, none, some, lit, [], ◌∷◌}
use blockchain_data_feeds_po.Prelude.Exec.{failed}
use blockchain_data_feeds_po.Store.Db.{CheckpointRow, Database, SqliteStore}

abbrev flaky : Database
flaky = record { fails = λ n. if n == 1 then some (failed (lit "disk")) else none; now = λ n. n }

abbrev first : CheckpointRow
first = record { id = 1; start_block = 1; end_block = 4; block_hash = lit "0xb4"; inserted_at = 0 }

abbrev second_row : CheckpointRow
second_row = record {
  id = 2;
  start_block = 5;
  end_block = 9;
  block_hash = lit "0xb9";
  inserted_at = 0;
}

abbrev two : SqliteStore
two = record {
  db = record { logs = []; checkpoints = first ∷ second_row ∷ []; next_id = 3; mempool = [] };
  calls = 0;
}
