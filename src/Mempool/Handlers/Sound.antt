-- ===== src/Mempool/Handlers/Sound.antt =====
-- The receipt queue under the handlers of internal/mempool/tracker.go.
use blockchain_data_feeds_po.Prelude.{
  ◌≡◌, refl, Text, List, [], ◌∷◌, Option, none, some, arith, Bool-cases, inl, inr, Option-cases,
  ◌≤◌,
}
use blockchain_data_feeds_po.Prelude.Exec.{◌>>◌, ◌>>=◌, Result, ok, err, go_on}
use blockchain_data_feeds_po.Store.Types.{MempoolTx}
use blockchain_data_feeds_po.Store.Db.{Database}
use blockchain_data_feeds_po.Rpc.Interface.{Rpc}
use blockchain_data_feeds_po.Mempool.Tracker.{Tracker, enqueue_receipt, note_tx, forget}
use blockchain_data_feeds_po.Mempool.Tracker.Queue.{
  IsSound, enqueue_receipt-IsSound, Distinct-leave, length-leave, length-leave-le, Distinct,
  on_head-IsSound,
}
use blockchain_data_feeds_po.Mempool.Handlers.{
  sweep, receipt_due, Feed, handle_tx, handle_tx_at, replace_tx, handle_receipt, receipt_worker,
  settle, drop_expired, mark_all_dropped, Exec, MinedInfo, Error, is_empty, Dict, set_status,
  TrackedTx, replaced, lookup, length, suc, on_store, stamped, mark_mempool_mined, replaced_hash,
  from_nonce_key, on_tracker, upsert_mempool_tx, check_receipt, RpcReceipt, mined_info, step, run,
  Event, saw, head,
}

module _ {C : Type 0} (P : Tracker → Type 0) where
  -- An action that keeps a predicate of the tracker, whatever it returns.
  abbrev pub Keeps : {A : Type 0} → Exec (Feed C) Error A → Type 0
  Keeps m = (f : Feed C) → P f.tracker → P (m f).1.tracker

  go_on-Keeps :
      {A B : Type 0} (r : Result Error A) (f : Feed C) (k : A → Exec (Feed C) Error B)
      → ((a : A) → Keeps (k a))
      → P f.tracker
      → P (go_on r f k).1.tracker
  go_on-Keeps (ok a) f k hk h = hk a f h
  go_on-Keeps (err e) f k hk h = h

  >>=-Keeps :
      {A B : Type 0} (m : Exec (Feed C) Error A) (k : A → Exec (Feed C) Error B)
      → Keeps m
      → ((a : A) → Keeps (k a))
      → Keeps (m >>= k)
  >>=-Keeps m k hm hk f h = go_on-Keeps (m f).0 (m f).1 k hk (hm f h)

module _ {C : Type 0} (rpc : Rpc C) (d : Database) where
  replace_tx-Keeps :
      (P : Tracker → Type 0)
      → ((h s : Text) (t : Tracker) → P t → P (record t { txs = set_status h s t.txs }))
      → (old hash : Text) → Keeps {C = C} P (replace_tx rpc d old hash)
  unfolding replace_tx
  replace_tx-Keeps P hp old hash f h = elim (Bool-cases (is_empty old)) [
    | inl e ↦ rw e h
    | inr e ↦ rw e (hp old replaced f.tracker h)
  ]

  pub handle_tx-IsSound : (tx : MempoolTx) → Keeps {C = C} IsSound (handle_tx rpc d tx)
  unfolding handle_tx handle_tx_at note_tx IsSound
  handle_tx-IsSound tx f h =
      let now = d.now f.store.calls in
      let t = stamped tx now in
      let old =
        replaced_hash (lookup (from_nonce_key t.from_addr t.nonce) f.tracker.from_nonce) t.hash in
      let upsert = on_store {C = C} (upsert_mempool_tx d t) in
      let enqueue = on_tracker {C = C} (enqueue_receipt t.hash) in
      >>=-Keeps IsSound (replace_tx rpc d old t.hash) (λ _. upsert >> enqueue)
        (replace_tx-Keeps IsSound (λ j s t k. k) old t.hash)
        (λ _.
          >>=-Keeps IsSound upsert (λ _. enqueue) (λ g k. k)
            (λ _ g k. enqueue_receipt-IsSound t.hash g.tracker k))
        (record f { tracker = note_tx t now f.tracker }) h

  mark_all_dropped-Keeps :
      (P : Tracker → Type 0) (hs : List Text) → Keeps {C = C} P (mark_all_dropped rpc d hs)
  unfolding mark_all_dropped
  mark_all_dropped-Keeps P [] f h = h
  mark_all_dropped-Keeps P (x ∷ hs) f h = mark_all_dropped-Keeps P hs _ h

  pub drop_expired-IsSound : Keeps {C = C} IsSound (drop_expired rpc d)
  unfolding drop_expired IsSound
  drop_expired-IsSound f h = mark_all_dropped-Keeps IsSound _ _ h

  pub forget-Keeps :
      (P : Tracker → Type 0)
      → ((x : Dict TrackedTx) (n : Dict Text) (t : Tracker)
          → P t
          → P (record t { txs = x; from_nonce = n }))
      → (hash : Text) (t : Tracker) → P t
      → P (forget hash t)
  unfolding forget
  forget-Keeps P hp hash t h = elim (Option-cases (lookup hash t.txs)) [
    | inl e ↦ rw (forget, e) h
    | inr (a, e) ↦ rw (forget, e) (hp _ _ t h)
  ]

  settle-Keeps :
      (P : Tracker → Type 0)
      → ((h : Text) (t : Tracker) → P t → P (forget h t))
      → (hash : Text) (info : Option MinedInfo) → Keeps {C = C} P (settle rpc d hash info)
  unfolding settle
  settle-Keeps P hp hash none f h = h
  settle-Keeps P hp hash (some info) f h =
      >>=-Keeps P (on_store {C = C} (mark_mempool_mined d hash info))
        (λ _. on_tracker {C = C} (forget hash)) (λ g k. k) (λ _ g k. hp hash g.tracker k) f h

  check_receipt-Keeps :
      (P : Tracker → Type 0)
      → ((h : Text) (t : Tracker) → P t → P (forget h t))
      → (hash : Text) → Keeps {C = C} P (check_receipt rpc d hash)
  unfolding check_receipt
  check_receipt-Keeps P hp hash f h =
      let ask : Exec (Feed C) Error (Option RpcReceipt) =
        λ g. let (r, c) = rpc.get_transaction_receipt hash g.conn in (r, record g { conn = c }) in
      >>=-Keeps P ask (λ receipt. settle rpc d hash (mined_info receipt)) (λ g k. k)
        (λ receipt. settle-Keeps P hp hash (mined_info receipt)) f h

  -- A hash was taken from the channel and is still in the set.
  abbrev IsTaken : Tracker → Type 0
  IsTaken t =
      Distinct t.inflight
      × (suc (length t.receipt_c) ≤ length t.inflight)
      × (length t.inflight ≤ t.max_inflight)

  handle_receipt-IsSound :
      (hash : Text) (f : Feed C)
      → IsTaken f.tracker
      → IsSound (handle_receipt rpc d hash f).1.tracker
  unfolding handle_receipt IsSound
  handle_receipt-IsSound hash f h =
      let g = (check_receipt rpc d hash f).1 in
      let (e, c, m) = check_receipt-Keeps IsTaken (forget-Keeps IsTaken (λ x n t k. k)) hash f h in
      (
        Distinct-leave hash g.tracker.inflight e,
        ground (arith, length-leave hash g.tracker.inflight e),
        ground (arith, length-leave-le hash g.tracker.inflight),
      )

  pub receipt_worker-IsSound : Keeps {C = C} IsSound (receipt_worker rpc d)
  unfolding receipt_worker IsSound
  receipt_worker-IsSound f h = go f.tracker.receipt_c refl
    where
      go : (c : List Text) → f.tracker.receipt_c ≡ c → IsSound (receipt_worker rpc d f).1.tracker
      go [] e = rw (receipt_worker, e) h
      go (x ∷ rest) e =
          rw (receipt_worker, e)
            (handle_receipt-IsSound x
              (record f { tracker = record (f.tracker) { receipt_c = rest } })
              (h.0, ground arith, h.2))

  step-IsSound : (e : Event) (f : Feed C) → IsSound f.tracker → IsSound (step rpc d e f).tracker
  unfolding step
  step-IsSound (saw tx) f h = handle_tx-IsSound tx f h
  step-IsSound (head number) f h = on_head-IsSound number f.tracker h
  step-IsSound receipt_due f h = receipt_worker-IsSound f h
  step-IsSound sweep f h = drop_expired-IsSound f h

  -- Whatever transactions, heads, receipts and sweeps come, in whatever order and with whatever
  -- errors, a sound receipt queue stays sound: no hash is in flight twice, the channel holds no more
  -- hashes than are in flight, and no more than `max_inflight` are.
  pub run-IsSound :
      (events : List Event) (f : Feed C) → IsSound f.tracker → IsSound (run rpc d events f).tracker
  unfolding run
  run-IsSound [] f h = h
  run-IsSound (e ∷ events) f h = run-IsSound events (step rpc d e f) (step-IsSound e f h)
