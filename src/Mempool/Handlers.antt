-- ===== src/Mempool/Handlers.antt =====
-- internal/mempool/tracker.go: HandleTx, handleReceipt, the receipt workers and dropExpired.
pub mod Sound
pub mod Lost
pub mod Ticks
mod Tests
use blockchain_data_feeds_po.Prelude.{
  ℕ, zero, suc, ◌+◌, ◌-◌, Bool, true, false, ◌&&◌, not, Text, Option, none, some, List, [], ◌∷◌,
  ◌++◌, text_eq, is_empty, ltb, leb, ◌==◌, if◌then◌else◌, any, keep, length, Dict, lookup, put,
  remove, ◌*◌,
}
use blockchain_data_feeds_po.Prelude.Exec.{Error, Result, ok, err, Exec, pure, attempt, ◌>>=◌, ◌>>◌}
use blockchain_data_feeds_po.Store.Types.{Time, second, is_zero, MempoolTx, MinedInfo}
use blockchain_data_feeds_po.Store.Db.{Database, SqliteStore, Action}
use blockchain_data_feeds_po.Store.Mempool.{
  pending, replaced, dropped, upsert_mempool_tx, mark_mempool_mined, mark_mempool_replaced,
  mark_mempool_dropped,
}
use blockchain_data_feeds_po.Rpc.Interface.{Rpc, RpcReceipt}
use blockchain_data_feeds_po.Mempool.Key.{from_nonce_key}
use blockchain_data_feeds_po.Mempool.Tracker.{
  TrackedTx, Tracker, new_tracker, leave, enqueue_receipt, hashes_where, is_pending, set_status,
  replaced_hash, note_tx, stamped, mined_info, forget, is_expired, expire, on_head,
}

-- What the tracker answers to: a transaction from HandleTx's caller, a new head, a hash in the
-- channel, and the tick of the sweep.
pub data Event : Type 0 where
  saw : MempoolTx → Event
  head : ℕ → Event
  receipt_due : Event
  sweep : Event

pub record Feed (C : Type 0) : Type 0 where
  pub conn : C
  pub store : SqliteStore
  pub tracker : Tracker

module _ {C : Type 0} where
  abbrev pub on_store : {A : Type 0} → Action A → Exec (Feed C) Error A
  on_store m f = let (r, s) = m f.store in (r, record f { store = s })

  abbrev pub on_tracker : (Tracker → Tracker) → Exec (Feed C) Error (Unit {0})
  on_tracker change f = (ok tt, record f { tracker = change f.tracker })

module _ {C : Type 0} (rpc : Rpc C) (d : Database) where
  -- The replaced transaction: its row, whatever comes of that, and its entry.
  unfoldable pub replace_tx : Text → Text → Exec (Feed C) Error (Unit {0})
  replace_tx old hash = if is_empty old then pure tt else (do
    attempt (on_store (mark_mempool_replaced d old hash))
    on_tracker (λ t. record t { txs = set_status old replaced t.txs }))

  -- HandleTx, at the time `now`.
  unfoldable pub handle_tx_at : Time → MempoolTx → Exec (Feed C) Error (Unit {0})
  handle_tx_at now given f =
      let tx = stamped given now in
      let old =
        replaced_hash (lookup (from_nonce_key tx.from_addr tx.nonce) f.tracker.from_nonce)
          tx.hash in
      (do
        on_tracker (note_tx tx now)
        replace_tx old tx.hash
        on_store (upsert_mempool_tx d tx)
        on_tracker (enqueue_receipt tx.hash))
        f

  unfoldable pub handle_tx : MempoolTx → Exec (Feed C) Error (Unit {0})
  handle_tx tx f = handle_tx_at (d.now f.store.calls) tx f

  unfoldable pub settle : Text → Option MinedInfo → Exec (Feed C) Error (Unit {0})
  settle hash none = pure tt
  settle hash (some info) = do on_store (mark_mempool_mined d hash info); on_tracker (forget hash)

  -- The body of handleReceipt, up to its first return.
  unfoldable pub check_receipt : Text → Exec (Feed C) Error (Unit {0})
  check_receipt hash = do
    receipt ←
        λ f. let (r, c) = rpc.get_transaction_receipt hash f.conn in (r, record f { conn = c })
    settle hash (mined_info receipt)

  -- handleReceipt: errors are logged, and the deferred delete comes last on every path.
  unfoldable pub handle_receipt : Text → Exec (Feed C) Error (Unit {0})
  handle_receipt hash = do
    attempt (check_receipt hash)
    on_tracker (λ t. record t { inflight = leave hash t.inflight })

  -- A worker takes the oldest hash of the channel and handles it.
  unfoldable pub receipt_worker : Exec (Feed C) Error (Unit {0})
  receipt_worker f = elim f.tracker.receipt_c [
    | [] ↦ (ok tt, f)
    | hash ∷ rest ↦
        handle_receipt hash (record f { tracker = record (f.tracker) { receipt_c = rest } })
  ]

  unfoldable pub mark_all_dropped : List Text → Exec (Feed C) Error (Unit {0})
  mark_all_dropped [] = pure tt
  mark_all_dropped (h ∷ hs) = do attempt (on_store (mark_mempool_dropped d h)); mark_all_dropped hs

  -- dropExpired. A time before year 1 as a cutoff expires nothing, as 0 does.
  unfoldable pub drop_expired : Exec (Feed C) Error (Unit {0})
  drop_expired f =
      let cutoff = d.now f.store.calls - f.tracker.dropped_ttl in
      let expired = hashes_where (is_expired cutoff) f.tracker.txs in
      (do on_tracker (λ t. record t { txs = expire cutoff t.txs }); mark_all_dropped expired) f

  -- The handlers log their errors or hand them to a caller that logs them.
  unfoldable pub step : Event → Feed C → Feed C
  step (saw tx) f = (handle_tx tx f).1
  step (head number) f = record f { tracker = on_head number f.tracker }
  step receipt_due f = (receipt_worker f).1
  step sweep f = (drop_expired f).1

  unfoldable pub run : List Event → Feed C → Feed C
  run [] f = f
  run (e ∷ events) f = run events (step e f)
