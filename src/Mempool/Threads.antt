-- ===== src/Mempool/Threads.antt =====
-- internal/mempool/tracker.go as goroutines at once: a step is one locked part, one statement of
-- the store or one call of the node, of any goroutine.
pub mod Count
pub mod Held
pub mod Invariant
pub mod Queue
pub mod Turns
pub mod Alone
pub mod Races
mod Tests
use blockchain_data_feeds_po.Prelude.{
  ℕ, ◌-◌, ◌≡◌, Text, Option, none, some, List, [], ◌∷◌, ◌++◌, if◌then◌else◌, any, length, leb, ltb,
  is_empty, lookup, text_eq, replicate,
}
use blockchain_data_feeds_po.Prelude.Exec.{Error, Result, ok, err}
use blockchain_data_feeds_po.Store.Types.{Time, MempoolTx, MinedInfo}
use blockchain_data_feeds_po.Store.Db.{Database, SqliteStore}
use blockchain_data_feeds_po.Store.Mempool.{
  replaced, upsert_mempool_tx, mark_mempool_mined, mark_mempool_replaced, mark_mempool_dropped,
}
use blockchain_data_feeds_po.Rpc.Interface.{Rpc, RpcReceipt}
use blockchain_data_feeds_po.Mempool.Key.{from_nonce_key}
use blockchain_data_feeds_po.Mempool.Tracker.{
  Tracker, new_tracker, leave, hashes_where, is_pending, set_status, replaced_hash, note_tx,
  stamped, mined_info, forget, is_expired, expire,
}
use blockchain_data_feeds_po.Mempool.Handlers.{Feed}

-- Where enqueueReceipt returns to: HandleTx, which ends, or the loop of scheduleReceipts.
pub data Continuation : Type 0 where
  back : Continuation
  rest : List Text → Continuation

-- The place of a goroutine: a caller of HandleTx, the loop that calls OnHead, a receipt worker, or
-- the sweep. `caller`, `heads`, `worker` and `sweeper` are between two calls, hashes or ticks.
pub data Task : Type 0 where
  caller : Task
  noting : Time → MempoolTx → Task
  replacing : Text → MempoolTx → Task
  marking : Text → MempoolTx → Task
  upserting : MempoolTx → Task
  entering : Text → Continuation → Task
  sending : Text → Continuation → Task
  giving_up : Text → Continuation → Task
  heads : Task
  listing : Task
  worker : Task
  asking : Text → Task
  storing : Text → MinedInfo → Task
  forgetting : Text → Task
  leaving : Text → Task
  sweeper : Task
  expiring : Time → Task
  dropping : List Text → Task

pub record System (C : Type 0) : Type 0 where
  pub tasks : List Task
  pub feed : Feed C

unfoldable pub resume : Continuation → Task
resume back = caller
resume (rest []) = heads
resume (rest (h ∷ hs)) = entering h (rest hs)

-- The first locked part of enqueueReceipt: `none` is a return.
unfoldable pub enter_receipt : Text → Tracker → Option Tracker
enter_receipt hash t =
    if any (λ h. text_eq h hash) t.inflight
    then none
    else if leb t.max_inflight (length t.inflight)
    then none
    else some (record t { inflight = t.inflight ++ hash ∷ [] })

-- `t.receiptC <- hash`, or `none` where the channel is full.
unfoldable pub send_receipt : Text → Tracker → Option Tracker
send_receipt hash t =
    if ltb (length t.receipt_c) t.max_inflight
    then some (record t { receipt_c = t.receipt_c ++ hash ∷ [] })
    else none

-- The locked `delete(t.inflight, hash)`.
unfoldable pub release_receipt : Text → Tracker → Tracker
release_receipt hash t = record t { inflight = leave hash t.inflight }

-- Where handleReceipt goes on with the answer of the node.
unfoldable pub answered : Text → Result Error (Option RpcReceipt) → Task
answered hash (err e) = leaving hash
answered hash (ok receipt) = elim (mined_info receipt) [
  | none ↦ leaving hash
  | some info ↦ storing hash info
]

-- Where HandleTx goes on behind its last statement of the store.
unfoldable pub after_upsert : Text → Result Error (Unit {0}) → Task
after_upsert hash (err e) = caller
after_upsert hash (ok u) = entering hash back

-- Where handleReceipt goes on behind its statement of the store.
unfoldable pub after_mined : Text → Result Error (Unit {0}) → Task
after_mined hash (err e) = leaving hash
after_mined hash (ok u) = forgetting hash

module _ {C : Type 0} where
  abbrev pub with_tracker : Tracker → Feed C → Feed C
  with_tracker t f = record f { tracker = t }

  abbrev pub with_store : SqliteStore → Feed C → Feed C
  with_store s f = record f { store = s }

module _ {C : Type 0} (rpc : Rpc C) (d : Database) where
  -- One step of a goroutine on the shared state. One that waits stays where it is.
  unfoldable pub advance : Task → Feed C → Task × Feed C
  advance (noting now tx) f =
      let old =
        replaced_hash (lookup (from_nonce_key tx.from_addr tx.nonce) f.tracker.from_nonce)
          tx.hash in
      (
        if is_empty old then upserting tx else replacing old tx,
        with_tracker (note_tx tx now f.tracker) f,
      )
  advance (replacing old tx) f =
      (marking old tx, with_store (mark_mempool_replaced d old tx.hash f.store).1 f)
  advance (marking old tx) f = (
    upserting tx,
    with_tracker (record (f.tracker) { txs = set_status old replaced f.tracker.txs }) f,
  )
  advance (upserting tx) f =
      let (r, s) = upsert_mempool_tx d tx f.store in (after_upsert tx.hash r, with_store s f)
  advance (entering h k) f = elim (enter_receipt h f.tracker) [
    | none ↦ (resume k, f)
    | some t ↦ (sending h k, with_tracker t f)
  ]
  advance (sending h k) f = elim (send_receipt h f.tracker) [
    | none ↦ (giving_up h k, f)
    | some t ↦ (resume k, with_tracker t f)
  ]
  advance (giving_up h k) f = (resume k, with_tracker (release_receipt h f.tracker) f)
  advance listing f = (resume (rest (hashes_where is_pending f.tracker.txs)), f)
  advance worker f = elim f.tracker.receipt_c [
    | [] ↦ (worker, f)
    | h ∷ hs ↦ (asking h, with_tracker (record (f.tracker) { receipt_c = hs }) f)
  ]
  advance (asking h) f =
      let (r, c) = rpc.get_transaction_receipt h f.conn in (answered h r, record f { conn = c })
  advance (storing h info) f =
      let (r, s) = mark_mempool_mined d h info f.store in (after_mined h r, with_store s f)
  advance (forgetting h) f = (leaving h, with_tracker (forget h f.tracker) f)
  advance (leaving h) f = (worker, with_tracker (release_receipt h f.tracker) f)
  advance (expiring cutoff) f = (
    dropping (hashes_where (is_expired cutoff) f.tracker.txs),
    with_tracker (record (f.tracker) { txs = expire cutoff f.tracker.txs }) f,
  )
  advance (dropping []) f = (sweeper, f)
  advance (dropping (h ∷ hs)) f = (dropping hs, with_store (mark_mempool_dropped d h f.store).1 f)
  advance caller f = (caller, f)
  advance heads f = (heads, f)
  advance sweeper f = (sweeper, f)

  -- What may come next: a transaction for a caller, at the time that it reads; a head; a tick, at
  -- its time; or one step of the goroutine between `front` and `behind`.
  pub data Step (s t : System C) : Type 0 where
    call :
        (front behind : List Task) (now : Time) (given : MempoolTx)
        → s.tasks ≡ front ++ caller ∷ behind
        → t ≡ record s { tasks = front ++ noting now (stamped given now) ∷ behind }
        → Step s t
    head :
        (front behind : List Task)
        → s.tasks ≡ front ++ heads ∷ behind
        → t ≡ record s { tasks = front ++ listing ∷ behind }
        → Step s t
    tick :
        (front behind : List Task) (now : Time)
        → s.tasks ≡ front ++ sweeper ∷ behind
        → t ≡ record s { tasks = front ++ expiring (now - s.feed.tracker.dropped_ttl) ∷ behind }
        → Step s t
    turn :
        (front behind : List Task) (x : Task)
        → s.tasks ≡ front ++ x ∷ behind
        → t ≡ record { tasks = front ++ (advance x s.feed).0 ∷ behind; feed = (advance x s.feed).1 }
        → Step s t

  pub data Reach (s : System C) : System C → Type 0 where
    here : Reach s s
    next : {t u : System C} → Reach s t → Step t u → Reach s u

-- NewTracker and Start: the workers and the sweep, beside the loop that calls OnHead and the
-- callers of HandleTx.
unfoldable pub start_system : {C : Type 0} → Time → ℕ → ℕ → ℕ → C → SqliteStore → System C
start_system dropped_ttl receipt_workers max_inflight callers conn store =
    let t = new_tracker dropped_ttl receipt_workers max_inflight in
    record {
      tasks = heads ∷ sweeper ∷ (replicate t.receipt_workers worker ++ replicate callers caller);
      feed = record { conn = conn; store = store; tracker = t };
    }
