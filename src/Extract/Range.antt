-- ===== src/Extract/Range.antt =====
-- processRangeAdaptive of internal/extract/extract.go.
pub mod Chunk
pub mod Failed
pub mod Unroll
pub mod Tiles
pub mod Complete
pub mod Fuel
mod Tests
use blockchain_data_feeds_po.Prelude.{
  ℕ, zero, suc, ◌+◌, Bool, true, false, Text, lit, Option, none, some, List, [], ◌∷◌, ltb,
  if◌then◌else◌, add64, sub64, length,
}
use blockchain_data_feeds_po.Prelude.Exec.{
  Error, too_many_results, wrap, Result, ok, err, pure, raise, attempt, ◌>>=◌, ◌>>◌,
}
use blockchain_data_feeds_po.Store.Types.{Checkpoint, LogRecord}
use blockchain_data_feeds_po.Store.Logs.{insert_logs}
use blockchain_data_feeds_po.Store.Checkpoints.{save_range_checkpoint}
use blockchain_data_feeds_po.Metrics.{add_blocks, add_logs, add_rpc_errors}
use blockchain_data_feeds_po.Rpc.Interface.{Log, BlockHeader}
use blockchain_data_feeds_po.Extract.Deps.{Deps, World, Run, with_rpc, with_store, count, now}
use blockchain_data_feeds_po.Extract.Chunker.{Chunker, on_error, on_success}
use blockchain_data_feeds_po.Extract.Records.{BlockCache, wrapped, build_filter, build_records}

-- `err == rpc.ErrTooManyResults`
abbrev pub is_too_many : Error → Bool
is_too_many too_many_results = true
is_too_many _ = false

-- The last block of the next chunk: at most `current_size` blocks, and not past `to`.
unfoldable pub chunk_size : Chunker → ℕ → ℕ → ℕ
chunk_size c current to =
    let remaining = add64 (sub64 to current) 1 in
    if ltb remaining c.current then remaining else c.current

unfoldable pub chunk_end : Chunker → ℕ → ℕ → ℕ
unfolding chunk_size
chunk_end c current to = sub64 (add64 current (chunk_size c current to)) 1

-- How a round of the loop goes on: with a smaller chunk, or past a stored one.
pub data Round : Type 0 where
  shrunk : Chunker → Round
  stored : Chunker → BlockCache → ℕ → Round

module _ {C : Type 0} (deps : Deps C) where
  -- The checkpoint of a chunk, with the time at which it is made.
  abbrev pub chunk_checkpoint : ℕ → ℕ → BlockHeader → World C → Checkpoint
  chunk_checkpoint current end header w = record {
    id = 0;
    start_block = current;
    end_block = end;
    block_hash = header.hash;
    inserted_at = now deps w;
  }

  unfoldable pub save_chunk : ℕ → ℕ → BlockHeader → Run C (Unit {0})
  save_chunk current end header w =
      with_store (save_range_checkpoint deps.store (chunk_checkpoint current end header w)) w

  -- The end of a round: the block hash, the checkpoint, the counters and the chunker. `n` is the
  -- number of records.
  unfoldable pub finish_chunk : Chunker → BlockCache → ℕ → ℕ → ℕ → ℕ → Run C Round
  finish_chunk c cache current end size n = do
    header ← wrapped (lit "fetch block hash") [] (with_rpc (deps.rpc.get_block_by_number end))
    wrapped (lit "save checkpoint") [] (save_chunk current end header)
    count (add_blocks size)
    count (add_logs n)
    pure (stored (on_success c) cache (add64 end 1))

  -- The middle of a round: the records go into the table.
  unfoldable pub insert_chunk : Chunker → BlockCache → ℕ → ℕ → ℕ → List LogRecord → Run C Round
  insert_chunk c cache current end size records = do
    wrapped (lit "insert logs") [] (with_store (insert_logs deps.store records))
    finish_chunk c cache current end size (length records)

  -- The rest of a round, once the logs are there.
  unfoldable pub store_chunk : Chunker → BlockCache → ℕ → ℕ → ℕ → List Log → Run C Round
  store_chunk c cache current end size logs = do
    built ← build_records deps cache logs
    insert_chunk c built.1 current end size built.0

  -- An error of `GetLogs`.
  unfoldable pub refused : Chunker → ℕ → ℕ → Error → Run C Round
  refused c current end e = do
    count (add_rpc_errors 1)
    if is_too_many e
        then pure (shrunk (on_error c))
        else raise (wrap (lit "getLogs") (current ∷ end ∷ []) e)

  -- One round of the loop.
  unfoldable pub process_chunk : Chunker → BlockCache → ℕ → ℕ → Run C Round
  process_chunk c cache current to = do
    let end = chunk_end c current to
    answer ← attempt (with_rpc (deps.rpc.get_logs (build_filter deps current end)))
    elim answer [
      | ok logs ↦ store_chunk c cache current end (chunk_size c current to) logs
      | err e ↦ refused c current end e
    ]

  -- The loop, on fuel: `none` means that the fuel ran out. The result is the chunker as the loop
  -- leaves it.
  unfoldable pub process_range :
      ℕ → Chunker → BlockCache → ℕ → ℕ → World C → Option (Result Error Chunker × World C)
  process_range zero c cache current to w = none
  process_range (suc fuel) c cache current to w =
      if ltb to current
      then some (ok c, w)
      else (let (r, w') = process_chunk c cache current to w in
          elim r [
            | err e ↦ some (err e, w')
            | ok round ↦ elim round [
              | shrunk c' ↦ process_range fuel c' cache current to w'
              | stored c' cache' next ↦ process_range fuel c' cache' next to w'
            ]
          ])

  -- The function as it is called: the cache starts empty.
  unfoldable pub process_range_adaptive :
      ℕ → Chunker → ℕ → ℕ → World C → Option (Result Error Chunker × World C)
  process_range_adaptive fuel c from to w = process_range fuel c [] from to w
