-- ===== src/Store/Logs/Atomic.antt =====
-- InsertLogs of internal/store/sqlite.go as a whole.
use blockchain_data_feeds_po.Prelude.{◌+◌, ◌≡◌, refl, List, [], ◌∷◌, arith, ◌⊎◌, inl}
use blockchain_data_feeds_po.Prelude.Exec.{Error, ok, err}
use blockchain_data_feeds_po.Store.Types.{LogRecord}
use blockchain_data_feeds_po.Store.Db.{LogRow, Database, SqliteStore, exec, query}
use blockchain_data_feeds_po.Store.Logs.{log_row, insert_row, insert_all, insert_logs}
use blockchain_data_feeds_po.Store.Logs.Merge.{merge, merge_idem}

-- The loop yields the merged view or an error, and leaves the tables alone.
insert_all_cases :
    (d : Database) (ls : List LogRecord) (view : List LogRow) (s : SqliteStore)
    → ((insert_all d ls view s).1.db ≡ s.db)
      × (((insert_all d ls view s).0 ≡ ok (merge ls view))
          ⊎ ((e : Error) × ((insert_all d ls view s).0 ≡ err e)))
unfolding insert_all merge query
insert_all_cases d [] view s = (refl, inl refl)
insert_all_cases d (l ∷ ls) view s =
    ground (
      arith,
      insert_all_cases d ls (insert_row (log_row l) view) (record s { calls = s.calls + 1 }),
    )

abbrev pub Merged : Database → List LogRecord → SqliteStore → Type 0
Merged d ls s =
    ((insert_logs d ls s).0 ≡ ok tt)
    × ((insert_logs d ls s).1.db ≡ record (s.db) { logs = merge ls s.db.logs })

abbrev pub Untouched : Database → List LogRecord → SqliteStore → Type 0
Untouched d ls s =
    (e : Error) × ((insert_logs d ls s).0 ≡ err e) × ((insert_logs d ls s).1.db ≡ s.db)

-- Whatever statements fail, `InsertLogs` either returns no error and has merged the whole batch
-- into the table, leaving the other tables, or returns an error and has changed no table.
pub insert_logs_atomic :
    (d : Database) (ls : List LogRecord) (s : SqliteStore) → Merged d ls s ⊎ Untouched d ls s
unfolding insert_logs exec query merge
insert_logs_atomic d [] s = inl (refl, refl)
insert_logs_atomic d (l ∷ ls) s =
    ground (arith, insert_all_cases d (l ∷ ls) s.db.logs (record s { calls = s.calls + 1 + 1 }))

-- A batch that was inserted without an error may be inserted again, with whatever failures on the
-- way: the tables are as after the first time.
pub insert_logs_again :
    (d d' : Database) (ls : List LogRecord) (s : SqliteStore)
    → (insert_logs d ls s).0 ≡ ok tt
    → (insert_logs d' ls (insert_logs d ls s).1).1.db ≡ (insert_logs d ls s).1.db
insert_logs_again d d' ls s h = ground (
  arith,
  insert_logs_atomic d ls s,
  insert_logs_atomic d' ls (insert_logs d ls s).1,
  merge_idem ls s.db.logs,
)
