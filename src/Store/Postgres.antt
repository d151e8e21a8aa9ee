-- ===== src/Store/Postgres.antt =====
-- internal/store/postgres.go: the same tables and statements, except that the mempool table keeps
-- whole times where that of sqlite.go keeps seconds: the time columns of a `MempoolRow` hold times
-- here. `kept` is what a TIMESTAMPTZ column keeps of a time.
pub mod Refines
mod Tests
use blockchain_data_feeds_po.Prelude.{
  ℕ, Bool, true, ◌||◌, ◌==◌, Text, lit, text_eq, is_empty, Option, List, [], ◌∷◌, leb,
  if◌then◌else◌, map, take, keep,
}
use blockchain_data_feeds_po.Prelude.Exec.{Error, failed, raise, ◌>>=◌, ◌>>◌}
use blockchain_data_feeds_po.Store.Types.{Time, LogRecord, Checkpoint, MempoolTx, MinedInfo}
use blockchain_data_feeds_po.Store.Db.{Db, MempoolRow, Database, SqliteStore, Action, exec, query}
use blockchain_data_feeds_po.Store.Logs.{insert_logs, list_logs}
use blockchain_data_feeds_po.Store.Checkpoints.{
  save_range_checkpoint, last_checkpoint, checkpoint_before, rollback_from,
}
use blockchain_data_feeds_po.Store.Mempool.{
  mempool_row, upsert_row, status_allowed, set_mined, set_replaced, set_dropped, update_hash,
  scan_mempool, latest_first,
}

-- The tables and the number of statements so far.
abbrev pub PostgresStore : Type 0
PostgresStore = SqliteStore

-- The operations on logs and checkpoints send the statements of sqlite.go.
abbrev pub pg_insert_logs : Database → List LogRecord → Action (Unit {0})
pg_insert_logs d logs = insert_logs d logs

abbrev pub pg_list_logs : Database → ℕ → Action (List LogRecord)
pg_list_logs d limit = list_logs d limit

abbrev pub pg_save_range_checkpoint : Database → Checkpoint → Action (Unit {0})
pg_save_range_checkpoint d cp = save_range_checkpoint d cp

abbrev pub pg_last_checkpoint : Database → Action (Option Checkpoint)
pg_last_checkpoint d = last_checkpoint d

abbrev pub pg_checkpoint_before : Database → ℕ → Action (Option Checkpoint)
pg_checkpoint_before d block = checkpoint_before d block

abbrev pub pg_rollback_from : Database → ℕ → Action (Unit {0})
pg_rollback_from d block = rollback_from d block

module _ (d : Database) (kept : Time → Time) where
  -- The arguments of the INSERT.
  unfoldable pub pg_mempool_row : MempoolTx → MempoolRow
  pg_mempool_row tx = record (mempool_row tx) {
    first_seen_at = kept tx.first_seen_at;
    last_seen_at = kept tx.last_seen_at;
    inserted_at = kept tx.inserted_at;
  }

  unfoldable pub pg_upsert_mempool_tx : MempoolTx → Action (Unit {0})
  pg_upsert_mempool_tx tx =
      if status_allowed tx.status
      then exec d (λ db. record db { mempool = upsert_row (pg_mempool_row tx) db.mempool })
      else (do query d (λ _. tt); raise (failed (lit "CHECK constraint failed")))

  unfoldable pub pg_update : Text → (ℕ → MempoolRow → MempoolRow) → Action (Unit {0})
  pg_update hash change s =
      exec d
        (λ db. record db { mempool = update_hash hash (change (kept (d.now s.calls))) db.mempool })
        s

  unfoldable pub pg_mark_mempool_mined : Text → MinedInfo → Action (Unit {0})
  pg_mark_mempool_mined hash info = pg_update hash (set_mined info)

  unfoldable pub pg_mark_mempool_replaced : Text → Text → Action (Unit {0})
  pg_mark_mempool_replaced hash by = pg_update hash (set_replaced by)

  unfoldable pub pg_mark_mempool_dropped : Text → Action (Unit {0})
  pg_mark_mempool_dropped hash = pg_update hash set_dropped

  unfoldable pub pg_scan_mempool : MempoolRow → MempoolTx
  pg_scan_mempool r = record (scan_mempool r) {
    first_seen_at = r.first_seen_at;
    last_seen_at = r.last_seen_at;
    inserted_at = r.inserted_at;
  }

  -- A limit that is not positive is 0 here; both mean 100.
  unfoldable pub pg_list_mempool : Text → ℕ → Action (List MempoolTx)
  pg_list_mempool status limit =
      let n = if limit == 0 then 100 else limit in
      let wanted = λ (r : MempoolRow).
        if is_empty status || text_eq status (lit "all") then true else text_eq r.status status in
      query d (λ db. map pg_scan_mempool (take n (latest_first (keep wanted db.mempool))))
