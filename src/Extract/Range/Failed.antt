-- ===== src/Extract/Range/Failed.antt =====
-- A round of processRangeAdaptive that failed, internal/extract/extract.go.
use blockchain_data_feeds_po.Prelude.{ℕ, ◌≡◌, arith, List, inl, inr, length, any}
use blockchain_data_feeds_po.Prelude.Exec.{Error, err, Result-cases}
use blockchain_data_feeds_po.Store.Types.{LogRecord}
use blockchain_data_feeds_po.Store.Db.{SqliteStore, Database, exec, LogRow}
use blockchain_data_feeds_po.Store.Logs.{insert_logs}
use blockchain_data_feeds_po.Store.Logs.Merge.{merge-any}
use blockchain_data_feeds_po.Store.Logs.Atomic.{insert_logs_atomic}
use blockchain_data_feeds_po.Store.Checkpoints.{save_range_checkpoint}
use blockchain_data_feeds_po.Rpc.Interface.{Log}
use blockchain_data_feeds_po.Extract.Deps.{Deps, World}
use blockchain_data_feeds_po.Extract.Chunker.{Chunker}
use blockchain_data_feeds_po.Extract.Records.{BlockCache, wrapped, build_records, build_filter}
use blockchain_data_feeds_po.Extract.Records.Match.{store-build_records}
use blockchain_data_feeds_po.Extract.Range.{
  chunk_size, chunk_end, store_chunk, process_chunk, refused, insert_chunk, finish_chunk,
  save_chunk, Bool, true,
}
use blockchain_data_feeds_po.Extract.Range.Chunk.{insert_logs_ok}

insert_logs_err :
    (d : Database) (ls : List LogRecord) (s : SqliteStore) (x : Error)
    → (insert_logs d ls s).0 ≡ err x
    → (insert_logs d ls s).1.db ≡ s.db
insert_logs_err d ls s x h = ground (arith, insert_logs_atomic d ls s)

module _ {C : Type 0} (deps : Deps C) where
  -- What a failed round may have done: records may be there, a checkpoint is not.
  abbrev pub Failed : SqliteStore → SqliteStore → Type 0
  Failed before after =
      (after.db.checkpoints ≡ before.db.checkpoints)
      × ((p : LogRow → Bool) → any p before.db.logs ≡ true → any p after.db.logs ≡ true)

  finish_chunk-Failed :
      (c : Chunker) (cache : BlockCache) (current end size n : ℕ) (w : World C) (x : Error)
      → (finish_chunk deps c cache current end size n w).0 ≡ err x
      → (finish_chunk deps c cache current end size n w).1.store.db ≡ w.store.db
  unfolding finish_chunk wrapped save_chunk save_range_checkpoint exec
  finish_chunk-Failed c cache current end size n w x h =
      elim (Result-cases (deps.rpc.get_block_by_number end w.conn).0) [
        | inl (header, e) ↦ ground (arith, e)
        | inr (y, e) ↦ ground (arith, e)
      ]

  insert_chunk-Failed :
      (c : Chunker) (cache : BlockCache) (current end size : ℕ) (built : List LogRecord)
      (w : World C) (x : Error)
      → (insert_chunk deps c cache current end size built w).0 ≡ err x
      → Failed w.store (insert_chunk deps c cache current end size built w).1.store
  unfolding insert_chunk wrapped
  insert_chunk-Failed c cache current end size built w x h =
      elim (Result-cases (insert_logs deps.store built w.store).0) [
        | inl (u, e) ↦
            let w1 : World C = record w { store = (insert_logs deps.store built w.store).1 } in
            let rest =
              finish_chunk-Failed c cache current end size (length built) w1 x
                (ground (arith, e)) in
            let done = insert_logs_ok deps.store built w.store e in
            (
              ground (arith, e, rest, done),
              λ p a. ground (arith, e, rest, done, merge-any p built w.store.db.logs a),
            )
        | inr (y, e) ↦
            let none_done = insert_logs_err deps.store built w.store y e in
            (ground (arith, e, none_done), λ p a. ground (arith, e, none_done))
      ]

  store_chunk-Failed :
      (c : Chunker) (cache : BlockCache) (current end size : ℕ) (logs : List Log) (w : World C)
      (x : Error)
      → (store_chunk deps c cache current end size logs w).0 ≡ err x
      → Failed w.store (store_chunk deps c cache current end size logs w).1.store
  unfolding store_chunk
  store_chunk-Failed c cache current end size logs w x h =
      let same = store-build_records deps cache logs w in
      elim (Result-cases (build_records deps cache logs w).0) [
        | inl (built, e) ↦
            let w1 = (build_records deps cache logs w).1 in
            let f =
              insert_chunk-Failed c built.1 current end size built.0 w1 x (ground (arith, e)) in
            (
              ground (arith, e, same, f.0),
              λ p a. ground (arith, e, same, f.1 p (ground (arith, same))),
            )
        | inr (y, e) ↦ (ground (arith, e, same), λ p a. ground (arith, e, same))
      ]

  -- A round that failed saved no checkpoint and lost no row.
  pub process_chunk-Failed :
      (c : Chunker) (cache : BlockCache) (current to : ℕ) (w : World C) (x : Error)
      → (process_chunk deps c cache current to w).0 ≡ err x
      → Failed w.store (process_chunk deps c cache current to w).1.store
  unfolding process_chunk refused
  process_chunk-Failed c cache current to w x h =
      let filter = build_filter deps current (chunk_end c current to) in
      elim (Result-cases (deps.rpc.get_logs filter w.conn).0) [
        | inl (logs, e) ↦
            let w1 : World C = record w { conn = (deps.rpc.get_logs filter w.conn).1 } in
            let f =
              store_chunk-Failed c cache current (chunk_end c current to) (chunk_size c current to)
                logs w1 x (ground (arith, e)) in
            (ground (arith, e, f.0), λ p a. ground (arith, e, f.1 p a))
        | inr (y, e) ↦ (ground (arith, e), λ p a. ground (arith, e))
      ]
