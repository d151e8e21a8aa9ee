-- ===== src/Extract/Backfill/Pool/Gap.antt =====
-- A run of the worker pool, internal/extract/backfill.go, that fails in its first range and stores
-- its second, and the start of Follow, internal/extract/follow.go, on what it leaves.
use blockchain_data_feeds_po.Prelude.{
  ◌≡◌, refl, lit, [], ◌∷◌, none, some, false, arith, if◌then◌else◌, text_eq,
}
use blockchain_data_feeds_po.Prelude.Exec.{Error, ok, err, failed, wrap}
use blockchain_data_feeds_po.Metrics.{add_blocks, add_logs, add_rpc_errors}
use blockchain_data_feeds_po.Store.Db.{exec, query}
use blockchain_data_feeds_po.Store.Logs.{insert_logs}
use blockchain_data_feeds_po.Store.Checkpoints.{
  add_checkpoint, save_range_checkpoint, last_checkpoint, scan_checkpoint, greatest_end,
}
use blockchain_data_feeds_po.Extract.Deps.{Deps}
use blockchain_data_feeds_po.Extract.Chunker.{Chunker, new_chunker, on_success}
use blockchain_data_feeds_po.Extract.Records.{wrapped, build_records, build_filter, BlockCache}
use blockchain_data_feeds_po.Extract.Example.{sample, fresh, node}
use blockchain_data_feeds_po.Extract.Range.{
  chunk_end, chunk_size, process_chunk, store_chunk, insert_chunk, finish_chunk, save_chunk,
  refused,
}
use blockchain_data_feeds_po.Extract.Follow.{Settings, begin, resume_at}
use blockchain_data_feeds_po.Extract.Backfill.{Range, produce, range_end}
use blockchain_data_feeds_po.Extract.Backfill.Pool.{
  Pool, ready, sending, idle, busy, advance, after_round, noted, report, start_pool, open_pool,
  Reach, here, next, offer, take, round, pool_result,
}

abbrev two_workers : Settings
two_workers = record {
  start_block = 3;
  confirmations = 2;
  chunk_size = 1;
  min_chunk_size = 1;
  max_chunk_size = 1;
  concurrency = 2;
}

-- The node does not give the logs of block 3, which has one.
abbrev reason : Error
reason = failed (lit "down")

abbrev half_down : Deps (Unit {0})
half_down = record sample {
  rpc = record node {
    get_logs = λ f c. if text_eq f.from_block (3 ∷ []) then (err reason, c) else (ok [], c);
  };
}

abbrev both : Range
both = record { from = 3; to = 4 }

abbrev third : Range
third = record { from = 3; to = 3 }

abbrev fourth : Range
fourth = record { from = 4; to = 4 }

abbrev one : Chunker
one = record { min = 1; max = 1; current = 1 }

abbrev g0 : Pool (Unit {0})
g0 = record {
  producer = ready (third ∷ fourth ∷ []);
  workers = idle one ∷ idle one ∷ [];
  slot = none;
  canceled = false;
  world = fresh;
}

abbrev g1 : Pool (Unit {0})
g1 = record g0 { producer = sending third (fourth ∷ []) }

abbrev g2 : Pool (Unit {0})
g2 = record g0 { producer = ready (fourth ∷ []); workers = busy one [] 3 3 ∷ idle one ∷ [] }

abbrev g3 : Pool (Unit {0})
g3 = record g2 { producer = sending fourth [] }

abbrev g4 : Pool (Unit {0})
g4 = record g2 { producer = ready []; workers = busy one [] 3 3 ∷ busy one [] 4 4 ∷ [] }

-- The second worker stores block 4, and then the first one fails on block 3.
abbrev g5 : Pool (Unit {0})
g5 = advance half_down two_workers (busy one [] 3 3 ∷ []) [] one [] 4 4 g4

abbrev cache_four : BlockCache
cache_four = []

g5_workers : g5.workers ≡ busy one [] 3 3 ∷ busy one cache_four 5 4 ∷ []
unfolding advance after_round process_chunk store_chunk insert_chunk finish_chunk save_chunk
    build_records build_filter chunk_end chunk_size insert_logs exec save_range_checkpoint
    add_checkpoint on_success add_blocks add_logs wrapped query text_eq
g5_workers = refl

abbrev g6 : Pool (Unit {0})
g6 = advance half_down two_workers [] (busy one cache_four 5 4 ∷ []) one [] 3 3 g5

g0_opened : open_pool half_down two_workers 3 both fresh ≡ some g0
unfolding open_pool start_pool produce range_end new_chunker
g0_opened = refl

g6_reached : Reach half_down two_workers g0 g6
g6_reached =
    next
      (next
        (next
          (next
            (next (next here (offer third (fourth ∷ []) refl refl refl))
              (take third (fourth ∷ []) [] (idle one ∷ []) one refl refl refl))
            (offer fourth [] refl refl refl))
          (take fourth [] (busy one [] 3 3 ∷ []) [] one refl refl refl))
        (round (busy one [] 3 3 ∷ []) [] one [] 4 4 refl (omega arith) refl))
      (round [] (busy one cache_four 5 4 ∷ []) one [] 3 3 g5_workers (omega arith) refl)

-- Backfill returns an error, the log of block 3 is not in the table, and Follow goes on at block 5.
g6_gap :
    (pool_result g6 ≡ err (wrap (lit "getLogs") (3 ∷ 3 ∷ []) reason))
    × (g6.world.store.db.logs ≡ [])
    × ((begin half_down two_workers g6.world).0 ≡ ok (record { chunker = one; start = 5 }))
unfolding advance after_round process_chunk store_chunk insert_chunk finish_chunk save_chunk
    build_records build_filter chunk_end chunk_size insert_logs exec save_range_checkpoint
    add_checkpoint on_success add_blocks add_logs wrapped query text_eq pool_result noted report
    refused add_rpc_errors begin last_checkpoint scan_checkpoint greatest_end resume_at new_chunker
g6_gap = (refl, refl, refl)
