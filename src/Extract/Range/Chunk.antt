-- ===== src/Extract/Range/Chunk.antt =====
-- One round of processRangeAdaptive: what it asks for, and what it leaves in the tables.
use blockchain_data_feeds_po.Prelude.{
  ℕ, ◌+◌, ◌≤◌, ◌<◌, ◌≡◌, refl, arith, word, add64, List, Text, inl, inr, length,
}
use blockchain_data_feeds_po.Prelude.Exec.{Error, ok, err, Exec, Result-cases}
use blockchain_data_feeds_po.Store.Types.{LogRecord, Checkpoint}
use blockchain_data_feeds_po.Store.Db.{SqliteStore, Database, exec}
use blockchain_data_feeds_po.Store.Logs.{insert_logs}
use blockchain_data_feeds_po.Store.Logs.Merge.{merge}
use blockchain_data_feeds_po.Store.Logs.Atomic.{insert_logs_atomic}
use blockchain_data_feeds_po.Store.Checkpoints.{add_checkpoint, save_range_checkpoint}
use blockchain_data_feeds_po.Rpc.Interface.{Log}
use blockchain_data_feeds_po.Extract.Deps.{Deps, World}
use blockchain_data_feeds_po.Extract.Chunker.{Chunker, on_success, on_error}
use blockchain_data_feeds_po.Extract.Records.{BlockCache, wrapped, build_records, build_filter}
use blockchain_data_feeds_po.Extract.Records.Match.{Match, store-build_records, build_records-Match}
use blockchain_data_feeds_po.Extract.Range.{
  chunk_size, chunk_end, Round, shrunk, stored, store_chunk, process_chunk, refused, insert_chunk,
  finish_chunk, save_chunk, chunk_checkpoint, too_many_results,
}

-- With a positive chunk size and `to` below the last `uint64`, the chunk from `current` on, in a
-- range that is not empty, is not empty, ends at or before `to`, has at most the chunker's size,
-- and ends where its size says without wrapping.
pub chunk_end_bounds :
    (c : Chunker) (current to : ℕ)
    → 0 < c.current
    → current ≤ to
    → to + 1 < word
    → (current ≤ chunk_end c current to)
      × (chunk_end c current to ≤ to)
      × (chunk_end c current to + 1 ≡ current + chunk_size c current to)
      × (0 < chunk_size c current to)
      × (chunk_size c current to ≤ c.current)
unfolding chunk_size chunk_end
chunk_end_bounds c current to h p q = ground arith

module _ {S A : Type 0} (text : Text) (numbers : List ℕ) (m : Exec S Error A) (s : S) where
  pub wrapped_state : (wrapped text numbers m s).1 ≡ (m s).1
  unfolding wrapped
  wrapped_state = ground arith

  pub wrapped-eq-ok : (a : A) → (wrapped text numbers m s).0 ≡ ok a → (m s).0 ≡ ok a
  unfolding wrapped
  wrapped-eq-ok a h = ground arith

-- What a stored chunk leaves in the tables: the records of its logs, and one checkpoint.
abbrev pub Stored : ℕ → ℕ → ℕ → List Log → SqliteStore → SqliteStore → Type 0
Stored chain_id current end logs before after =
    (built : List LogRecord) × (cp : Checkpoint) × Match chain_id logs built
    × (cp.start_block ≡ current)
    × (cp.end_block ≡ end)
    × (after.db ≡ add_checkpoint cp (record (before.db) { logs = merge built before.db.logs }))

pub insert_logs_ok :
    (d : Database) (ls : List LogRecord) (s : SqliteStore)
    → (insert_logs d ls s).0 ≡ ok tt
    → (insert_logs d ls s).1.db ≡ record (s.db) { logs = merge ls s.db.logs }
insert_logs_ok d ls s h = ground (arith, insert_logs_atomic d ls s)

save_ok :
    (d : Database) (cp : Checkpoint) (s : SqliteStore)
    → (save_range_checkpoint d cp s).0 ≡ ok tt
    → (save_range_checkpoint d cp s).1.db ≡ add_checkpoint cp s.db
unfolding save_range_checkpoint exec
save_ok d cp s h = ground arith

module _ {C : Type 0} (deps : Deps C) where
  -- What the end of a round leaves: one more checkpoint.
  abbrev Finished : ℕ → ℕ → SqliteStore → SqliteStore → Type 0
  Finished current end before after =
      (cp : Checkpoint) × (cp.start_block ≡ current)
      × (cp.end_block ≡ end)
      × (after.db ≡ add_checkpoint cp before.db)

  finish_chunk-Finished :
      (c : Chunker) (cache : BlockCache) (current end size n : ℕ) (w : World C) (round : Round)
      → (finish_chunk deps c cache current end size n w).0 ≡ ok round
      → (round ≡ stored (on_success c) cache (add64 end 1))
        × Finished current end w.store (finish_chunk deps c cache current end size n w).1.store
  unfolding finish_chunk wrapped save_chunk save_range_checkpoint exec
  finish_chunk-Finished c cache current end size n w round h =
      elim (Result-cases (deps.rpc.get_block_by_number end w.conn).0) [
        | inl (header, e) ↦ (
          ground (arith, e),
          (chunk_checkpoint deps current end header w, refl, refl, ground (arith, e)),
        )
        | inr (x, e) ↦ absurd (ground (arith, e))
      ]

  insert_chunk-Stored :
      (c : Chunker) (cache : BlockCache) (current end size : ℕ) (built : List LogRecord)
      (w : World C) (round : Round)
      → (insert_chunk deps c cache current end size built w).0 ≡ ok round
      → (round ≡ stored (on_success c) cache (add64 end 1))
        × (cp : Checkpoint) × (cp.start_block ≡ current)
        × (cp.end_block ≡ end)
        × ((insert_chunk deps c cache current end size built w).1.store.db
            ≡ add_checkpoint cp (record (w.store.db) { logs = merge built w.store.db.logs }))
  unfolding insert_chunk wrapped
  insert_chunk-Stored c cache current end size built w round h =
      elim (Result-cases (insert_logs deps.store built w.store).0) [
        | inl (u, e) ↦
            let w1 : World C = record w { store = (insert_logs deps.store built w.store).1 } in
            let (shape, finished) =
              finish_chunk-Finished c cache current end size (length built) w1 round
                (ground (arith, e)) in
            let (cp, start, stop, saved) = finished in
            (
              shape,
              cp,
              start,
              stop,
              ground (arith, e, saved, insert_logs_ok deps.store built w.store e),
            )
        | inr (x, e) ↦ absurd (ground (arith, e))
      ]

  store_chunk-Stored :
      (c : Chunker) (cache : BlockCache) (current end size : ℕ) (logs : List Log) (w : World C)
      (round : Round)
      → (store_chunk deps c cache current end size logs w).0 ≡ ok round
      → ((cache' : BlockCache) × (round ≡ stored (on_success c) cache' (add64 end 1)))
        × Stored deps.chain_id current end logs w.store
            (store_chunk deps c cache current end size logs w).1.store
  unfolding store_chunk
  store_chunk-Stored c cache current end size logs w round h =
      elim (Result-cases (build_records deps cache logs w).0) [
        | inl (built, e) ↦
            let w1 = (build_records deps cache logs w).1 in
            let (shape, cp, start, stop, saved) =
              insert_chunk-Stored c built.1 current end size built.0 w1 round (ground (arith, e)) in
            (
              (built.1, shape),
              (
                built.0,
                cp,
                build_records-Match deps cache logs w built e,
                start,
                stop,
                ground (arith, e, saved, store-build_records deps cache logs w),
              ),
            )
        | inr (x, e) ↦ absurd (ground (arith, e))
      ]

  -- A round that stored its chunk had the logs from the node, and left their records and one
  -- checkpoint for the chunk; the next chunk starts behind it.
  pub process_chunk-stored :
      (c c' : Chunker) (cache cache' : BlockCache) (current to next : ℕ) (w : World C)
      → (process_chunk deps c cache current to w).0 ≡ ok (stored c' cache' next)
      → (logs : List Log) × ((deps.rpc.get_logs
            (build_filter deps current (chunk_end c current to))
            w.conn).0
          ≡ ok logs)
        × (c' ≡ on_success c)
        × (next ≡ add64 (chunk_end c current to) 1)
        × Stored deps.chain_id current
            (chunk_end c current to)
            logs
            w.store
            (process_chunk deps c cache current to w).1.store
  unfolding process_chunk refused
  process_chunk-stored c c' cache cache' current to next w h =
      elim (Result-cases
        (deps.rpc.get_logs (build_filter deps current (chunk_end c current to)) w.conn).0) [
          | inl (logs, e) ↦
              let w1 : World C = record w {
                conn =
                    (deps.rpc.get_logs (build_filter deps current (chunk_end c current to))
                      w.conn).1;
              } in
              let (shape, rest) =
                store_chunk-Stored c cache current (chunk_end c current to)
                  (chunk_size c current to) logs w1 (stored c' cache' next) (ground (arith, e)) in
              let (built, cp, match, start, stop, saved) = rest in
              (
                logs,
                e,
                ground (arith, shape.1),
                ground (arith, shape.1),
                (built, cp, match, start, stop, ground (arith, e, saved)),
              )
          | inr (x, e) ↦ absurd (ground (arith, e))
        ]

  -- A round that shrank the chunk had the node refuse the logs as too many, and left the tables.
  pub process_chunk-shrunk :
      (c c' : Chunker) (cache : BlockCache) (current to : ℕ) (w : World C)
      → (process_chunk deps c cache current to w).0 ≡ ok (shrunk c')
      → (c' ≡ on_error c)
        × ((deps.rpc.get_logs (build_filter deps current (chunk_end c current to)) w.conn).0
            ≡ err too_many_results)
        × ((process_chunk deps c cache current to w).1.store ≡ w.store)
  unfolding process_chunk refused
  process_chunk-shrunk c c' cache current to w h =
      elim (Result-cases
        (deps.rpc.get_logs (build_filter deps current (chunk_end c current to)) w.conn).0) [
          | inl (logs, e) ↦
              let w1 : World C = record w {
                conn =
                    (deps.rpc.get_logs (build_filter deps current (chunk_end c current to))
                      w.conn).1;
              } in
              let (shape, rest) =
                store_chunk-Stored c cache current (chunk_end c current to)
                  (chunk_size c current to) logs w1 (shrunk c') (ground (arith, e)) in
              absurd (ground (arith, shape.1))
          | inr (x, e) ↦ ground (arith, e)
        ]
