-- ===== src/Store/Mempool/Status.antt =====
-- The row of a transaction under the statements of the mempool table.
use blockchain_data_feeds_po.Prelude.{
  ℕ, ◌≡◌, refl, true, false, Option, none, some, List, [], ◌∷◌, ◌++◌, arith, Text, lit, text_eq,
  text_eq_iff, if◌then◌else◌, any, Bool-cases, ◌⊎◌, inl, inr,
}
use blockchain_data_feeds_po.Store.Types.{MempoolTx, MinedInfo, unix}
use blockchain_data_feeds_po.Store.Db.{MempoolRow, Database, SqliteStore, exec, query}
use blockchain_data_feeds_po.Prelude.Exec.{Error, Result, ok, err}
use blockchain_data_feeds_po.Store.Mempool.{
  mempool_row, refresh, update_hash, upsert_row, upsert_mempool_tx, set_mined, set_replaced,
  set_dropped, update, mark_mempool_mined, mark_mempool_replaced, mark_mempool_dropped,
}

-- The row of a hash: the abstract view of the table.
unfoldable pub find_tx : Text → List MempoolRow → Option MempoolRow
find_tx hash [] = none
find_tx hash (r ∷ rows) = if text_eq r.tx_hash hash then some r else find_tx hash rows

abbrev pub change_found : (MempoolRow → MempoolRow) → Option MempoolRow → Option MempoolRow
change_found change none = none
change_found change (some r) = some (change r)

-- An update touches the row of its hash and no other.
pub find_tx-update_hash :
    (k j : Text) (change : MempoolRow → MempoolRow) (rows : List MempoolRow)
    → ((r : MempoolRow) → (change r).tx_hash ≡ r.tx_hash)
    → find_tx j (update_hash k change rows)
      ≡ (if text_eq k j then change_found change (find_tx j rows) else find_tx j rows)
unfolding find_tx update_hash
find_tx-update_hash k j change [] h = ground arith
find_tx-update_hash k j change (r ∷ rows) h = ground (
  arith,
  h r,
  text_eq_iff r.tx_hash k,
  text_eq_iff r.tx_hash j,
  text_eq_iff k j,
  find_tx-update_hash k j change rows h,
)

-- The upsert, as the view sees it: a new row, or the old one refreshed.
abbrev pub upserted : MempoolRow → Option MempoolRow → MempoolRow
upserted new none = new
upserted new (some old) = refresh new old

find_tx-absent :
    (k : Text) (rows : List MempoolRow)
    → any (λ r. text_eq r.tx_hash k) rows ≡ false
    → find_tx k rows ≡ none
unfolding find_tx
find_tx-absent k [] h = refl
find_tx-absent k (r ∷ rows) h = ground (arith, find_tx-absent k rows)

find_tx-present :
    (k : Text) (rows : List MempoolRow)
    → any (λ r. text_eq r.tx_hash k) rows ≡ true
    → (r : MempoolRow) × (find_tx k rows ≡ some r)
unfolding find_tx
find_tx-present k [] h = cc
find_tx-present k (r ∷ rows) h = elim (Bool-cases (text_eq r.tx_hash k)) [
  | inl e ↦ (r, ground arith)
  | inr e ↦ let (q, f) = find_tx-present k rows (ground arith) in (q, ground arith)
]

find_tx-append :
    (j : Text) (new : MempoolRow) (rows : List MempoolRow)
    → any (λ r. text_eq r.tx_hash new.tx_hash) rows ≡ false
    → find_tx j (rows ++ new ∷ []) ≡ (if text_eq new.tx_hash j then some new else find_tx j rows)
unfolding find_tx
find_tx-append j new [] h = refl
find_tx-append j new (r ∷ rows) h = ground (
  arith,
  text_eq_iff r.tx_hash j,
  text_eq_iff new.tx_hash j,
  text_eq_iff r.tx_hash new.tx_hash,
  find_tx-append j new rows,
)

pub find_tx-upsert_row :
    (j : Text) (new : MempoolRow) (rows : List MempoolRow)
    → find_tx j (upsert_row new rows)
      ≡ (if text_eq new.tx_hash j then some (upserted new (find_tx j rows)) else find_tx j rows)
unfolding upsert_row refresh
find_tx-upsert_row j new rows = elim (Bool-cases (any (λ r. text_eq r.tx_hash new.tx_hash) rows)) [
  | inl old ↦ rw old (
      ground (
        arith,
        text_eq_iff new.tx_hash j,
        find_tx-present new.tx_hash rows old,
        find_tx-update_hash new.tx_hash j (refresh new) rows (λ r. refl),
      ))
  | inr fresh ↦ rw fresh (
      ground (
        arith,
        text_eq_iff new.tx_hash j,
        find_tx-absent new.tx_hash rows fresh,
        find_tx-append j new rows fresh,
      ))
]

-- The columns that a row has after each of the three marks, at the time `now`.
abbrev pub in_block : MinedInfo → ℕ → MempoolRow → MempoolRow
in_block info now r = record r {
  status = lit "mined";
  mined_block_number = some info.block_number;
  mined_block_hash = some info.block_hash;
  mined_tx_index = some info.tx_index;
  last_seen_at = now;
}

abbrev pub replaced_with : Text → ℕ → MempoolRow → MempoolRow
replaced_with by now r = record r {
  status = lit "replaced";
  replaced_by_tx_hash = some by;
  last_seen_at = now;
}

abbrev pub given_up : ℕ → MempoolRow → MempoolRow
given_up now r = record r { status = lit "dropped"; last_seen_at = now }

module _ (d : Database) (s : SqliteStore) (j : Text) where
  -- A transaction that is stored without an error is then in the table as a new row, or as the old
  -- row with its refreshed columns; the row of any other hash is as it was. With an error no row
  -- changes.
  pub upsert_mempool_tx-view :
      (tx : MempoolTx)
      → (((upsert_mempool_tx d tx s).0 ≡ ok tt)
          × (find_tx j (upsert_mempool_tx d tx s).1.db.mempool ≡ (
              if text_eq tx.hash j
              then some (upserted (mempool_row tx) (find_tx j s.db.mempool))
              else find_tx j s.db.mempool)))
        ⊎ ((e : Error) × ((upsert_mempool_tx d tx s).0 ≡ err e)
            × ((upsert_mempool_tx d tx s).1.db ≡ s.db))
  unfolding upsert_mempool_tx exec query mempool_row
  upsert_mempool_tx-view tx = ground (arith, find_tx-upsert_row j (mempool_row tx) s.db.mempool)

  -- How a change of the row of `hash` shows in the row of `j`, without and with an error.
  abbrev pub Marks :
      Text → (ℕ → MempoolRow → MempoolRow) → Result Error (Unit {0}) × SqliteStore → Type 0
  Marks hash change out =
      ((out.0 ≡ ok tt)
        × (find_tx j out.1.db.mempool ≡ (
            if text_eq hash j
            then change_found (change (unix (d.now s.calls))) (find_tx j s.db.mempool)
            else find_tx j s.db.mempool)))
      ⊎ ((e : Error) × (out.0 ≡ err e) × (out.1.db ≡ s.db))

  update-Marks :
      (hash : Text) (change : ℕ → MempoolRow → MempoolRow)
      → ((n : ℕ) (r : MempoolRow) → (change n r).tx_hash ≡ r.tx_hash)
      → Marks hash change (update d hash change s)
  unfolding update exec
  update-Marks hash change h = ground (
    arith,
    find_tx-update_hash hash j (change (unix (d.now s.calls))) s.db.mempool
        (h (unix (d.now s.calls))),
  )

  -- Each of the three marks changes the row of its hash, if there is one, and no other row, or it
  -- returns an error and no table has changed. `mined` comes with the number and the hash of the
  -- block and the place in it, `replaced` with the hash of the new transaction, `dropped` alone; all
  -- three set the time of the statement as the time last seen, and leave the other columns alone.
  pub mark_mempool-Marks :
      (hash by : Text) (info : MinedInfo)
      → Marks hash (in_block info) (mark_mempool_mined d hash info s)
        × Marks hash (replaced_with by) (mark_mempool_replaced d hash by s)
        × Marks hash given_up (mark_mempool_dropped d hash s)
  unfolding mark_mempool_mined mark_mempool_replaced mark_mempool_dropped set_mined set_replaced
      set_dropped
  mark_mempool-Marks hash by info = (
    update-Marks hash (in_block info) (λ n r. refl),
    update-Marks hash (replaced_with by) (λ n r. refl),
    update-Marks hash given_up (λ n r. refl),
  )
