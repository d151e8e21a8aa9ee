-- ===== src/Extract/Follow/Tests.antt =====
-- Follow and its passes on the sample node.
use blockchain_data_feeds_po.Extract.Follow.Front.{KeepsFront, follow_pass_keeps}
use blockchain_data_feeds_po.Prelude.{map, ℕ, Text, ◌∷◌}
use blockchain_data_feeds_po.Store.Db.{CheckpointRow}
use blockchain_data_feeds_po.Extract.Example.{empty_db}
use blockchain_data_feeds_po.Reorg.{detect, mismatch, rollback_block, rollback}
use blockchain_data_feeds_po.Store.Checkpoints.{
  checkpoint_before, rollback_from, delete_logs, delete_checkpoints,
}
use blockchain_data_feeds_po.Prelude.{ℕ, ◌≡◌, ◌⊎◌, text_eq, refl, Option, some, none, arith}
use blockchain_data_feeds_po.Prelude.Exec.{Error, Result, ok, err}
use blockchain_data_feeds_po.Metrics.{add_blocks, add_logs, set_lag}
use blockchain_data_feeds_po.Store.Db.{exec, query}
use blockchain_data_feeds_po.Store.Logs.{insert_logs, insert_all, insert_row, log_row}
use blockchain_data_feeds_po.Store.Checkpoints.{
  add_checkpoint, save_range_checkpoint, last_checkpoint, scan_checkpoint, greatest_end,
}
use blockchain_data_feeds_po.Reorg.{detect, compare_hash}
use blockchain_data_feeds_po.Extract.Deps.{World}
use blockchain_data_feeds_po.Extract.Chunker.{new_chunker, on_success}
use blockchain_data_feeds_po.Extract.Records.{
  wrapped, build_records, build_record, get_header, cached, build_filter,
}
use blockchain_data_feeds_po.Extract.Example.{sample, fresh}
use blockchain_data_feeds_po.Extract.Range.{
  chunk_end, chunk_size, process_range_adaptive, process_range, process_chunk, store_chunk,
  insert_chunk, finish_chunk, save_chunk,
}
use blockchain_data_feeds_po.Extract.Range.Tiles.{Tiles}
use blockchain_data_feeds_po.Extract.Follow.{
  Settings, Cursor, resume_at, begin, check_reorg, plan_for, plan, prepare, after_range, carry_out,
  follow_pass, follow_passes, follow, lit, [], false,
}
use blockchain_data_feeds_po.Extract.Follow.Prepared.{Heads}
use blockchain_data_feeds_po.Extract.Follow.Pass.{Passed, follow_pass_lem}
use blockchain_data_feeds_po.Extract.Follow.Resume.{HasRoom, follow_resumes}

abbrev settings : Settings
settings = record {
  start_block = 1;
  confirmations = 2;
  chunk_size = 4;
  min_chunk_size = 1;
  max_chunk_size = 8;
  concurrency = 2;
}

sample-HasRoom : HasRoom sample settings
sample-HasRoom = record { min_room = omega arith; max_room = omega arith }

sample-Heads : Heads sample
sample-Heads = record { room = λ c head h. ground (arith, h) }

abbrev begun : Cursor
begun = record { chunker = record { min = 1; max = 8; current = 4 }; start = 1 }

abbrev out_of_fuel : Result Error Cursor × World (Unit {0})
out_of_fuel = (ok begun, fresh)

abbrev get_or : {A : Type 0} → A → Option A → A
get_or a none = a
get_or a (some b) = b

abbrev passed : Result Error Cursor × World (Unit {0})
passed = get_or out_of_fuel (follow_pass sample settings 10 begun fresh)

follow_pass_runs : follow_pass sample settings 10 begun fresh ≡ some passed
unfolding follow_pass carry_out after_range prepare check_reorg detect compare_hash wrapped
    last_checkpoint query scan_checkpoint greatest_end plan plan_for process_range_adaptive
    process_range process_chunk store_chunk insert_chunk finish_chunk save_chunk build_records
    build_record get_header cached build_filter chunk_end chunk_size insert_logs insert_all
    insert_row log_row exec save_range_checkpoint add_checkpoint on_success add_blocks add_logs
    set_lag
follow_pass_runs = refl

follow_pass_lem_example : Passed sample settings 1 passed
follow_pass_lem_example =
    follow_pass_lem sample settings 1 10 begun fresh passed sample-Heads
      (record {
        positive = omega arith;
        above = omega arith;
        below = omega arith;
        no_wrap = omega arith;
      })
      refl (omega arith) follow_pass_runs

abbrev followed : Result Error Cursor × World (Unit {0})
followed = get_or out_of_fuel (follow sample settings 2 10 fresh)

follow_runs : follow sample settings 2 10 fresh ≡ some followed
unfolding follow follow_passes begin resume_at new_chunker follow_pass carry_out after_range prepare
    check_reorg detect compare_hash wrapped last_checkpoint query scan_checkpoint greatest_end plan
    plan_for process_range_adaptive process_range process_chunk store_chunk insert_chunk
    finish_chunk save_chunk build_records build_record get_header cached build_filter chunk_end
    chunk_size insert_logs insert_all insert_row log_row exec save_range_checkpoint add_checkpoint
    on_success add_blocks add_logs set_lag text_eq
follow_runs = refl

follow_resumes_example :
    (k : ℕ) × Tiles 1 k followed.1.store.db.checkpoints
    × (((x : Error) × ((begin sample settings followed.1).0 ≡ err x))
        ⊎ ((cur : Cursor) × ((begin sample settings followed.1).0 ≡ ok cur) × (cur.start ≡ k)))
follow_resumes_example =
    follow_resumes sample settings 2 10 1 fresh followed sample-HasRoom sample-Heads refl
      (omega arith) follow_runs

-- A reorganisation of two checkpoints: `0xa` and `0xo` are hashes that the node has no more. The
-- first pass takes off the last one and indexes its blocks again; after it no pass reports
-- anything, and the other one stays.
abbrev stale : Text → ℕ → ℕ → CheckpointRow
stale hash from to = record {
  id = 0;
  start_block = from;
  end_block = to;
  block_hash = hash;
  inserted_at = 0;
}

abbrev forked : World (Unit {0})
forked = record fresh {
  store = record {
    db = record empty_db { checkpoints = stale (lit "0xa") 1 4 ∷ stale (lit "0xo") 5 8 ∷ [] };
    calls = 0;
  };
}

abbrev recovered : Result Error Cursor × World (Unit {0})
recovered = get_or out_of_fuel (follow sample settings 2 10 forked)

deep_reorg_missed :
    (map (λ (r : CheckpointRow). r.block_hash) recovered.1.store.db.checkpoints
      ≡ lit "0xa" ∷ lit "0xb" ∷ lit "0xb" ∷ [])
    × ((detect sample recovered.1).0 ≡ ok (0, false))
unfolding follow follow_passes begin resume_at new_chunker follow_pass carry_out after_range prepare
    check_reorg detect compare_hash wrapped last_checkpoint query scan_checkpoint greatest_end plan
    plan_for process_range_adaptive process_range process_chunk store_chunk insert_chunk
    finish_chunk save_chunk build_records build_record get_header cached build_filter chunk_end
    chunk_size insert_logs insert_all insert_row log_row exec save_range_checkpoint add_checkpoint
    on_success add_blocks add_logs set_lag text_eq mismatch rollback_block checkpoint_before
    rollback rollback_from delete_logs delete_checkpoints
deep_reorg_missed = (refl, refl)

abbrev behind : Cursor
behind = record begun { start = 9 }

abbrev once : Result Error Cursor × World (Unit {0})
once = get_or out_of_fuel (follow_pass sample settings 10 behind forked)

once_runs : follow_pass sample settings 10 behind forked ≡ some once
unfolding follow_pass carry_out after_range prepare check_reorg detect compare_hash wrapped
    last_checkpoint query scan_checkpoint greatest_end plan plan_for process_range_adaptive
    process_range process_chunk store_chunk insert_chunk finish_chunk save_chunk build_records
    build_record get_header cached build_filter chunk_end chunk_size insert_logs insert_all
    insert_row log_row exec save_range_checkpoint add_checkpoint on_success add_blocks add_logs
    set_lag text_eq mismatch rollback_block checkpoint_before rollback rollback_from delete_logs
    delete_checkpoints
once_runs = refl

follow_pass_keeps_example : KeepsFront forked.store.db.checkpoints once.1.store.db.checkpoints
follow_pass_keeps_example =
    follow_pass_keeps sample settings 1 10 behind forked once sample-Heads
      (record {
        positive = omega arith;
        above = omega arith;
        below = omega arith;
        no_wrap = omega arith;
      })
      (refl, omega arith, (refl, omega arith, refl)) (omega arith) once_runs
