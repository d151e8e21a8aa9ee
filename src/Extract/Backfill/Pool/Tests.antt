-- ===== src/Extract/Backfill/Pool/Tests.antt =====
-- Runs of the worker pool, internal/extract/backfill.go, with one worker and block 3 as its range.
use blockchain_data_feeds_po.Prelude.{
  [], ◌∷◌, lit, some, none, true, false, refl, arith, ◌≡◌, inl, List,
}
use blockchain_data_feeds_po.Prelude.Exec.{ok, err, wrap, failed, Error}
use blockchain_data_feeds_po.Metrics.{add_blocks, add_logs}
use blockchain_data_feeds_po.Store.Db.{exec, query}
use blockchain_data_feeds_po.Store.Logs.{insert_logs, insert_all, insert_row, log_row}
use blockchain_data_feeds_po.Store.Checkpoints.{add_checkpoint, save_range_checkpoint}
use blockchain_data_feeds_po.Extract.Deps.{Deps}
use blockchain_data_feeds_po.Extract.Chunker.{Chunker, new_chunker, on_success}
use blockchain_data_feeds_po.Extract.Records.{
  wrapped, build_records, BlockCache, build_record, get_header, cached, build_filter,
}
use blockchain_data_feeds_po.Extract.Example.{sample, fresh, one_log, node}
use blockchain_data_feeds_po.Extract.Range.{
  chunk_end, chunk_size, process_chunk, store_chunk, insert_chunk, finish_chunk, save_chunk,
  refused,
}
use blockchain_data_feeds_po.Extract.Range.Tiles.{Indexed}
use blockchain_data_feeds_po.Extract.Range.Complete.{Serves}
use blockchain_data_feeds_po.Extract.Follow.{Settings}
use blockchain_data_feeds_po.Extract.Follow.Resume.{HasRoom}
use blockchain_data_feeds_po.Extract.Backfill.{Range, produce, range_end}
use blockchain_data_feeds_po.Extract.Backfill.Pool.{
  Pool, ready, sending, closed, idle, busy, gone, advance, after_round, noted, report, start_pool,
  open_pool, Reach, here, next, offer, take, round, finish, close, leave, cancel, is_gone,
  pool_result, AllGone, stop,
}
use blockchain_data_feeds_po.Extract.Backfill.Pool.Complete.{backfill_complete}
use blockchain_data_feeds_po.Extract.Backfill.Pool.Outcomes.{first_error, producer_leaks}

abbrev one_worker : Settings
one_worker = record {
  start_block = 1;
  confirmations = 2;
  chunk_size = 4;
  min_chunk_size = 1;
  max_chunk_size = 8;
  concurrency = 1;
}

abbrev block_three : Range
block_three = record { from = 3; to = 3 }

abbrev four : Chunker
four = record { min = 1; max = 8; current = 4 }

abbrev five : Chunker
five = record { min = 1; max = 8; current = 5 }

abbrev p0 : Pool (Unit {0})
p0 = record {
  producer = ready (block_three ∷ []);
  workers = idle four ∷ [];
  slot = none;
  canceled = false;
  world = fresh;
}

abbrev p1 : Pool (Unit {0})
p1 = record p0 { producer = sending block_three [] }

abbrev p2 : Pool (Unit {0})
p2 = record p0 { producer = ready []; workers = busy four [] 3 3 ∷ [] }

abbrev p3 : Pool (Unit {0})
p3 = advance sample one_worker [] [] four [] 3 3 p2

abbrev cache_three : BlockCache
cache_three = (3, record { number = 3; hash = lit "0xb"; timestamp = 0 }) ∷ []

p3_workers : p3.workers ≡ busy five cache_three 4 3 ∷ []
unfolding advance after_round process_chunk store_chunk insert_chunk finish_chunk save_chunk
    build_records build_record get_header cached build_filter chunk_end chunk_size insert_logs
    insert_all insert_row log_row exec save_range_checkpoint add_checkpoint on_success add_blocks
    add_logs wrapped query
p3_workers = refl

abbrev p4 : Pool (Unit {0})
p4 = record p3 { workers = idle five ∷ [] }

abbrev p5 : Pool (Unit {0})
p5 = record p4 { producer = closed }

abbrev p6 : Pool (Unit {0})
p6 = record p5 { workers = gone ∷ [] }

p3_running : (p3.producer ≡ ready []) × (p3.canceled ≡ false)
unfolding advance after_round process_chunk store_chunk insert_chunk finish_chunk save_chunk
    build_records build_record get_header cached build_filter chunk_end chunk_size insert_logs
    insert_all insert_row log_row exec save_range_checkpoint add_checkpoint on_success add_blocks
    add_logs wrapped noted query
p3_running = (refl, refl)

p6_reached : Reach sample one_worker p0 p6
p6_reached =
    next
      (next
        (next
          (next
            (next (next here (offer block_three [] refl refl refl))
              (take block_three [] [] [] four refl refl refl))
            (round [] [] four [] 3 3 refl (omega arith) refl))
          (finish [] [] five cache_three 4 3 p3_workers (omega arith) refl))
        (close p3_running.0 refl))
      (leave [] [] five refl refl refl)

p0_opened : open_pool sample one_worker 2 block_three fresh ≡ some p0
unfolding open_pool start_pool produce range_end new_chunker
p0_opened = refl

one_worker-HasRoom : HasRoom sample one_worker
one_worker-HasRoom = record { min_room = omega arith; max_room = omega arith }

sample-Serves : Serves sample (one_log ∷ [])
sample-Serves = record { complete = λ from to conn logs h l i a b. ground (arith, h, i) }

all_gone : AllGone p6.workers
unfolding is_gone
all_gone = (refl, tt)

backfill_complete_example : Indexed sample.chain_id one_log p6.world.store.db.logs
backfill_complete_example =
    backfill_complete sample one_worker (one_log ∷ []) one_log 2 block_three fresh p0 p6
      sample-Serves one_worker-HasRoom (omega arith) (omega arith) (omega arith) (omega arith)
      p0_opened p6_reached all_gone p3_running.1 (inl refl) (omega arith) (omega arith)

-- A context that the caller cancels before the first range is sent: all workers return, the range
-- is not indexed, and Backfill returns no error.
abbrev c1 : Pool (Unit {0})
c1 = record p0 { canceled = true }

abbrev c2 : Pool (Unit {0})
c2 = record c1 { producer = closed }

abbrev c3 : Pool (Unit {0})
c3 = record c2 { workers = gone ∷ [] }

c3_reached : Reach sample one_worker p0 c3
c3_reached =
    next (next (next here (cancel refl)) (stop (block_three ∷ []) refl refl refl))
      (leave [] [] four refl refl refl)

c3_silent : (pool_result c3 ≡ ok tt) × (c3.world.store.db.logs ≡ [])
unfolding pool_result
c3_silent = (refl, refl)

-- A node that fails, while a second range stands at the send.
abbrev down : Error
down = failed (lit "down")

abbrev broken : Deps (Unit {0})
broken = record sample { rpc = record node { get_logs = λ f c. (err down, c) } }

abbrev reason : Error
reason = wrap (lit "getLogs") (3 ∷ 3 ∷ []) down

abbrev block_four : Range
block_four = record { from = 4; to = 4 }

abbrev q0 : Pool (Unit {0})
q0 = record p2 { producer = sending block_four [] }

abbrev q1 : Pool (Unit {0})
q1 = advance broken one_worker [] [] four [] 3 3 q0

abbrev q2 : Pool (Unit {0})
q2 = record q1 { canceled = true }

q0_fails : (process_chunk broken four [] 3 3 q0.world).0 ≡ err reason
unfolding process_chunk refused chunk_end chunk_size build_filter
q0_fails = refl

first_error_example : (pool_result q2 ≡ err reason) × (q1.canceled ≡ true)
first_error_example =
    first_error broken one_worker q0 q2 [] [] four [] 3 3 reason refl q0_fails
      (next here (cancel refl))

q1_gone : AllGone q1.workers
unfolding advance after_round is_gone process_chunk refused chunk_end chunk_size build_filter
q1_gone = (refl, tt)

q1_sending : q1.producer ≡ sending block_four []
unfolding advance noted report process_chunk refused chunk_end chunk_size build_filter
q1_sending = refl

producer_leaks_example :
    AllGone q2.workers × ((k : Range) × (ks : List Range) × (q2.producer ≡ sending k ks))
producer_leaks_example =
    producer_leaks broken one_worker q1 q2 block_four [] q1_gone q1_sending
      (next here (cancel refl))
