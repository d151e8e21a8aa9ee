-- ===== src/Store/Postgres/Refines.antt =====
-- The mempool table of internal/store/postgres.go is that of sqlite.go with finer times.
use blockchain_data_feeds_po.Prelude.{
  ℕ, ◌≡◌, refl, ap, Text, text_eq, List, [], ◌∷◌, ◌++◌, map, any, arith, Bool-cases, inl, inr,
}
use blockchain_data_feeds_po.Prelude.Exec.{Error, Result}
use blockchain_data_feeds_po.Store.Types.{Time, MempoolTx, MinedInfo, unix}
use blockchain_data_feeds_po.Store.Db.{MempoolRow, Database, SqliteStore, exec, query}
use blockchain_data_feeds_po.Store.Mempool.{
  mempool_row, refresh, update_hash, upsert_row, upsert_mempool_tx, set_mined, set_replaced,
  set_dropped, update, mark_mempool_mined, mark_mempool_replaced, mark_mempool_dropped,
}
use blockchain_data_feeds_po.Store.Postgres.{
  pg_mempool_row, pg_upsert_mempool_tx, pg_update, pg_mark_mempool_mined, pg_mark_mempool_replaced,
  pg_mark_mempool_dropped,
}

-- A row, a table and a store with their times in seconds.
unfoldable pub in_seconds : MempoolRow → MempoolRow
in_seconds r = record r {
  first_seen_at = unix r.first_seen_at;
  last_seen_at = unix r.last_seen_at;
  inserted_at = unix r.inserted_at;
}

abbrev pub seconds_store : SqliteStore → SqliteStore
seconds_store s = record s { db = record (s.db) { mempool = map in_seconds s.db.mempool } }

map-update_hash :
    (hash : Text) (f g : MempoolRow → MempoolRow) (rows : List MempoolRow)
    → ((r : MempoolRow) → in_seconds (f r) ≡ g (in_seconds r))
    → map in_seconds (update_hash hash f rows) ≡ update_hash hash g (map in_seconds rows)
unfolding update_hash in_seconds
map-update_hash hash f g [] h = refl
map-update_hash hash f g (r ∷ rows) h = ground (arith, h r, map-update_hash hash f g rows h)

any-map :
    (hash : Text) (rows : List MempoolRow)
    → any (λ r. text_eq r.tx_hash hash) (map in_seconds rows)
      ≡ any (λ r. text_eq r.tx_hash hash) rows
unfolding in_seconds
any-map hash [] = refl
any-map hash (r ∷ rows) = ground (arith, any-map hash rows)

map-append :
    (rows : List MempoolRow) (new : MempoolRow)
    → map in_seconds (rows ++ new ∷ []) ≡ map in_seconds rows ++ in_seconds new ∷ []
map-append [] new = refl
map-append (r ∷ rows) new = ap (λ (rs : List MempoolRow). in_seconds r ∷ rs) (map-append rows new)

map-upsert_row :
    (new : MempoolRow) (rows : List MempoolRow)
    → map in_seconds (upsert_row new rows) ≡ upsert_row (in_seconds new) (map in_seconds rows)
unfolding upsert_row in_seconds refresh
map-upsert_row new rows = elim (Bool-cases (any (λ r. text_eq r.tx_hash new.tx_hash) rows)) [
  | inl old ↦ ground (
    arith,
    old,
    any-map new.tx_hash rows,
    map-update_hash new.tx_hash (refresh new) (refresh (in_seconds new)) rows (λ r. refl),
  )
  | inr fresh ↦ ground (arith, fresh, any-map new.tx_hash rows, map-append rows new)
]

module _ (d : Database) (kept : Time → Time) where
  -- The result is the same, and so are the tables once times are seconds.
  abbrev pub Refined :
      Result Error (Unit {0}) × SqliteStore → Result Error (Unit {0}) × SqliteStore → Type 0
  Refined out out' = (out.0 ≡ out'.0) × (seconds_store out.1 ≡ out'.1)

  update-Refined :
      (hash : Text) (change : ℕ → MempoolRow → MempoolRow) (s : SqliteStore)
      → ((t : Time) (r : MempoolRow)
          → in_seconds (change (kept t) r) ≡ change (unix t) (in_seconds r))
      → Refined (pg_update d kept hash change s) (update d hash change (seconds_store s))
  unfolding pg_update update exec
  update-Refined hash change s h =
      let now = d.now s.calls in
      ground
        (arith, map-update_hash hash (change (kept now)) (change (unix now)) s.db.mempool (h now))

  upsert-Refined :
      (tx : MempoolTx) (s : SqliteStore)
      → ((t : Time) → unix (kept t) ≡ unix t)
      → Refined (pg_upsert_mempool_tx d kept tx s) (upsert_mempool_tx d tx (seconds_store s))
  unfolding pg_upsert_mempool_tx upsert_mempool_tx exec query pg_mempool_row mempool_row in_seconds
  upsert-Refined tx s h = ground (
    arith,
    map-upsert_row (pg_mempool_row d kept tx) s.db.mempool,
    h tx.first_seen_at,
    h tx.last_seen_at,
    h tx.inserted_at,
  )

  -- If a TIMESTAMPTZ column keeps the second of a time, then each operation of PostgreSQL on the
  -- mempool table, an upsert or one of the three marks, refines that of SQLite: from the same
  -- tables, times taken as seconds, it returns the same result and leaves the same tables, whatever
  -- statements fail.
  pub pg_mempool-Refined :
      (tx : MempoolTx) (hash by : Text) (info : MinedInfo) (s : SqliteStore)
      → ((t : Time) → unix (kept t) ≡ unix t)
      → Refined (pg_upsert_mempool_tx d kept tx s) (upsert_mempool_tx d tx (seconds_store s))
        × Refined
            (pg_mark_mempool_mined d kept hash info s)
            (mark_mempool_mined d hash info (seconds_store s))
        × Refined
            (pg_mark_mempool_replaced d kept hash by s)
            (mark_mempool_replaced d hash by (seconds_store s))
        × Refined
            (pg_mark_mempool_dropped d kept hash s)
            (mark_mempool_dropped d hash (seconds_store s))
  unfolding pg_mark_mempool_mined pg_mark_mempool_replaced pg_mark_mempool_dropped
      mark_mempool_mined mark_mempool_replaced mark_mempool_dropped set_mined set_replaced
      set_dropped in_seconds
  pg_mempool-Refined tx hash by info s h = (
    upsert-Refined tx s h,
    update-Refined hash (set_mined info) s (λ t r. ground (arith, h t)),
    update-Refined hash (set_replaced by) s (λ t r. ground (arith, h t)),
    update-Refined hash set_dropped s (λ t r. ground (arith, h t)),
  )
