-- ===== src/Mempool/Handlers/Lost.antt =====
-- A transaction that internal/mempool/tracker.go had given up and that is seen again.
use blockchain_data_feeds_po.Prelude.{
  ◌≡◌, refl, false, Text, Option, none, some, arith, text_eq, text_eq_refl, Dict, lookup,
  lookup-put, Bool-cases, Option-cases, inl, inr, is_empty, sym,
}
use blockchain_data_feeds_po.Prelude.Exec.{◌>>◌, Exec, Error, ok}
use blockchain_data_feeds_po.Store.Types.{MempoolTx}
use blockchain_data_feeds_po.Store.Db.{Database, MempoolRow}
use blockchain_data_feeds_po.Store.Mempool.{
  pending, replaced, dropped, upsert_mempool_tx, refresh, mempool_row,
}
use blockchain_data_feeds_po.Store.Mempool.Status.{find_tx, upserted, upsert_mempool_tx-view}
use blockchain_data_feeds_po.Rpc.Interface.{Rpc}
use blockchain_data_feeds_po.Mempool.Key.{from_nonce_key}
use blockchain_data_feeds_po.Mempool.Tracker.{
  enqueue_receipt, Tracker, TrackedTx, set_status, note_tx, seen, stamped, replaced_hash,
}
use blockchain_data_feeds_po.Mempool.Handlers.{
  on_store, on_tracker, Feed, handle_tx, handle_tx_at, replace_tx,
}

pub lookup-set_status :
    (k j s : Text) (txs : Dict TrackedTx)
    → text_eq k j ≡ false
    → lookup j (set_status k s txs) ≡ lookup j txs
unfolding set_status
lookup-set_status k j s txs n = elim (Option-cases (lookup k txs)) [
  | inl e ↦ ground (arith, e)
  | inr (tx, e) ↦ ground (arith, e, n, lookup-put k j (record tx { status = s }) txs)
]

pub replaced_hash-other :
    (current : Option Text) (h : Text)
    → is_empty (replaced_hash current h) ≡ false
    → text_eq (replaced_hash current h) h ≡ false
unfolding replaced_hash
replaced_hash-other none h n = cc
replaced_hash-other (some x) h n = ground arith

module _ {C : Type 0} (rpc : Rpc C) (d : Database) where
  replace_tx-lookup :
      (old hash : Text) (f : Feed C)
      → (is_empty old ≡ false → text_eq old hash ≡ false)
      → ((replace_tx rpc d old hash f).0 ≡ ok tt)
        × (lookup hash (replace_tx rpc d old hash f).1.tracker.txs ≡ lookup hash f.tracker.txs)
  unfolding replace_tx
  replace_tx-lookup old hash f n = elim (Bool-cases (is_empty old)) [
    | inl e ↦ rw e (refl, refl)
    | inr e ↦ rw e (refl, lookup-set_status old hash replaced f.tracker.txs (n e))
  ]

  pub enqueue_receipt-txs : (h : Text) (t : Tracker) → (enqueue_receipt h t).txs ≡ t.txs
  unfolding enqueue_receipt
  enqueue_receipt-txs h t = ground arith

  upserted-status :
      (t : MempoolTx) (old : Option MempoolRow) → (upserted (mempool_row t) old).status ≡ t.status
  unfolding mempool_row refresh
  upserted-status t none = refl
  upserted-status t (some r) = refl

  -- The last two statements of HandleTx.
  abbrev pub finish : MempoolTx → Exec (Feed C) Error (Unit {0})
  finish t = on_store {C = C} (upsert_mempool_tx d t) >> on_tracker {C = C} (enqueue_receipt t.hash)

  pub finish-row :
      (t : MempoolTx) (g : Feed C)
      → (finish t g).0 ≡ ok tt
      → (lookup t.hash (finish t g).1.tracker.txs ≡ lookup t.hash g.tracker.txs)
        × ((r : MempoolRow) × (find_tx t.hash (finish t g).1.store.db.mempool ≡ some r)
            × (r.status ≡ t.status))
  finish-row t g h = elim (upsert_mempool_tx-view d g.store t.hash t) [
    | inl (e, v) ↦ (
      rw (e, enqueue_receipt-txs t.hash g.tracker) refl,
      (
        upserted (mempool_row t) (find_tx t.hash g.store.db.mempool),
        rw e (ground (arith, v, text_eq_refl t.hash)),
        upserted-status t (find_tx t.hash g.store.db.mempool),
      ),
    )
    | inr (x, e, v) ↦ absurd (ground (arith, e))
  ]

  handle_tx-finish :
      (tx : MempoolTx) (f : Feed C)
      → (g : Feed C) × (handle_tx rpc d tx f ≡ finish (stamped tx (d.now f.store.calls)) g)
        × (lookup tx.hash g.tracker.txs
            ≡ some (
                seen
                  (stamped tx (d.now f.store.calls))
                  (d.now f.store.calls)
                  (lookup tx.hash f.tracker.txs)))
  unfolding handle_tx handle_tx_at stamped note_tx
  handle_tx-finish tx f =
      let t = stamped tx (d.now f.store.calls) in
      let old =
        replaced_hash (lookup (from_nonce_key t.from_addr t.nonce) f.tracker.from_nonce) t.hash in
      let f' : Feed C = record f { tracker = note_tx t (d.now f.store.calls) f.tracker } in
      let (a, b) = replace_tx-lookup old t.hash f' (replaced_hash-other _ t.hash) in
      (
        (replace_tx rpc d old t.hash f').1,
        rw a refl,
        ground (
          arith,
          b,
          text_eq_refl t.hash,
          lookup-put t.hash t.hash (seen t (d.now f.store.calls) (lookup t.hash f.tracker.txs))
              f.tracker.txs,
        ),
      )

  -- HandleTx of a transaction that was dropped and is seen again stores it as pending, if it
  -- returns no error, and leaves its entry in the tracker dropped.
  pub handle_tx_lost :
      (tx : MempoolTx) (f : Feed C) (cur : TrackedTx)
      → lookup tx.hash f.tracker.txs ≡ some cur
      → cur.status ≡ dropped
      → (handle_tx rpc d tx f).0 ≡ ok tt
      → ((now : TrackedTx) × (lookup tx.hash (handle_tx rpc d tx f).1.tracker.txs ≡ some now)
          × (now.status ≡ dropped))
        × ((r : MempoolRow) × (find_tx tx.hash (handle_tx rpc d tx f).1.store.db.mempool ≡ some r)
            × (r.status ≡ pending))
  unfolding stamped seen
  handle_tx_lost tx f cur e c h =
      let t = stamped tx (d.now f.store.calls) in
      let (g, eq, s) = handle_tx-finish tx f in
      let (a, (r, b, p)) = finish-row t g (rw (sym eq) h) in
      (
        (record cur { last_seen = d.now f.store.calls }, ground (arith, eq, a, s, e), c),
        (r, rw eq b, p),
      )
