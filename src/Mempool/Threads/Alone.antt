-- ===== src/Mempool/Threads/Alone.antt =====
-- The handlers of internal/mempool/tracker.go as whole steps, inside the runs of its goroutines.
use blockchain_data_feeds_po.Prelude.{
  ◌-◌, ◌≡◌, refl, sym, subst, false, Text, some, List, [], ◌∷◌, arith, Bool-cases, List-cases,
  Option-cases, inl, inr, is_empty, lookup, In, In-append,
}
use blockchain_data_feeds_po.Prelude.Exec.{Result-cases}
use blockchain_data_feeds_po.Store.Types.{MempoolTx, MinedInfo}
use blockchain_data_feeds_po.Store.Db.{Database}
use blockchain_data_feeds_po.Store.Mempool.{upsert_mempool_tx, mark_mempool_mined}
use blockchain_data_feeds_po.Rpc.Interface.{Rpc}
use blockchain_data_feeds_po.Mempool.Key.{from_nonce_key}
use blockchain_data_feeds_po.Mempool.Tracker.{
  hashes_where, is_pending, replaced_hash, note_tx, stamped, mined_info, on_head, schedule_receipts,
}
use blockchain_data_feeds_po.Mempool.Handlers.{
  Feed, Event, saw, head, receipt_due, sweep, handle_tx, handle_tx_at, replace_tx, settle,
  check_receipt, handle_receipt, receipt_worker, mark_all_dropped, drop_expired, step, run,
}
use blockchain_data_feeds_po.Mempool.Handlers.Lost.{finish}
use blockchain_data_feeds_po.Mempool.Threads.{
  back, rest, Task, caller, noting, replacing, marking, upserting, entering, heads, listing, worker,
  asking, storing, forgetting, leaving, sweeper, expiring, dropping, resume, after_upsert,
  after_mined, release_receipt, answered, advance, Step, call, tick, Reach, here, next,
  mark_mempool_replaced, set_status, forget, mark_mempool_dropped, is_expired, expire, replaced,
}
use blockchain_data_feeds_po.Mempool.Threads.Turns.{
  Alone, Reach-trans, Alone-trans, Alone-turn, Alone-then, entering-Alone, enqueue_all-Alone,
}

module _ {C : Type 0} (rpc : Rpc C) (d : Database) where
  pub upserting-Alone :
      (t : MempoolTx) (f : Feed C) → Alone rpc d (upserting t) f caller (finish rpc d t f).1
  unfolding advance after_upsert resume
  upserting-Alone t f =
      let s = (upsert_mempool_tx d t f.store).1 in
      let g : Feed C = record f { store = s } in
      elim (Result-cases (upsert_mempool_tx d t f.store).0) [
        | inl (u, e) ↦
            Alone-then rpc d (upserting t) (entering t.hash back) caller f g (finish rpc d t f).1
              (rw (advance, e, after_upsert) refl) (rw e (entering-Alone rpc d t.hash back g))
        | inr (x, e) ↦
            Alone-turn rpc d (upserting t) caller f (finish rpc d t f).1
              (rw (advance, e, after_upsert) refl)
      ]

  pub replacing-Alone :
      (old : Text) (t : MempoolTx) (f : Feed C)
      → is_empty old ≡ false
      → Alone rpc d (replacing old t) f (upserting t) (replace_tx rpc d old t.hash f).1
  unfolding advance replace_tx
  replacing-Alone old t f n =
      let g : Feed C = record f { store = (mark_mempool_replaced d old t.hash f.store).1 } in
      Alone-then rpc d (replacing old t) (marking old t) (upserting t) f g
        (replace_tx rpc d old t.hash f).1 refl
        (Alone-turn rpc d (marking old t) (upserting t) g (replace_tx rpc d old t.hash f).1
          (rw (replace_tx, n) refl))

  pub handle_tx-Alone :
      (given : MempoolTx) (f : Feed C)
      → Alone rpc d
          (noting (d.now f.store.calls) (stamped given (d.now f.store.calls)))
          f
          caller
          (handle_tx rpc d given f).1
  unfolding advance handle_tx handle_tx_at replace_tx
  handle_tx-Alone given f =
      let now = d.now f.store.calls in
      let t = stamped given now in
      let old =
        replaced_hash (lookup (from_nonce_key t.from_addr t.nonce) f.tracker.from_nonce) t.hash in
      let g : Feed C = record f { tracker = note_tx t now f.tracker } in
      elim (Bool-cases (is_empty old)) [
        | inl none_old ↦
            Alone-then rpc d (noting now t) (upserting t) caller f g (handle_tx rpc d given f).1
              (rw none_old refl) (rw none_old (upserting-Alone t g))
        | inr some_old ↦
            let k : Feed C = (replace_tx rpc d old t.hash g).1 in
            Alone-then rpc d (noting now t) (replacing old t) caller f g (handle_tx rpc d given f).1
              (rw some_old refl)
              (Alone-trans rpc d (replacing old t) (upserting t) caller g k
                (handle_tx rpc d given f).1 (replacing-Alone old t g some_old)
                (rw some_old (
                  upserting-Alone t (record g {
                    store = (mark_mempool_replaced d old t.hash g.store).1;
                    tracker = record (g.tracker) { txs = set_status old replaced g.tracker.txs };
                  }))))
      ]

  pub leaving-Alone :
      (h : Text) (f : Feed C)
      → Alone rpc d (leaving h) f worker (record f { tracker = release_receipt h f.tracker })
  unfolding advance
  leaving-Alone h f =
      Alone-turn rpc d (leaving h) worker f (record f { tracker = release_receipt h f.tracker })
        refl

  -- handleReceipt behind the answer of the node.
  storing-Alone :
      (h : Text) (info : MinedInfo) (f : Feed C)
      → Alone rpc d (storing h info) f worker (
          let g = (settle rpc d h (some info) f).1 in
          record g { tracker = release_receipt h g.tracker })
  unfolding advance after_mined settle
  storing-Alone h info f =
      let g : Feed C = record f { store = (mark_mempool_mined d h info f.store).1 } in
      let end =
        (let k = (settle rpc d h (some info) f).1 in
          record k { tracker = release_receipt h k.tracker }) in
      elim (Result-cases (mark_mempool_mined d h info f.store).0) [
        | inl (u, e) ↦
            let k : Feed C = record g { tracker = forget h g.tracker } in
            Alone-then rpc d (storing h info) (forgetting h) worker f g end
              (rw (advance, e, after_mined) refl)
              (Alone-then rpc d (forgetting h) (leaving h) worker g k end refl
                (rw e (leaving-Alone h k)))
        | inr (x, e) ↦
            Alone-then rpc d (storing h info) (leaving h) worker f g end
              (rw (advance, e, after_mined) refl) (rw e (leaving-Alone h g))
      ]

  asking-Alone :
      (h : Text) (f : Feed C) → Alone rpc d (asking h) f worker (handle_receipt rpc d h f).1
  unfolding advance answered handle_receipt check_receipt release_receipt settle
  asking-Alone h f =
      let g : Feed C = record f { conn = (rpc.get_transaction_receipt h f.conn).1 } in
      let end = (handle_receipt rpc d h f).1 in
      elim (Result-cases (rpc.get_transaction_receipt h f.conn).0) [
        | inr (x, e) ↦
            Alone-then rpc d (asking h) (leaving h) worker f g end (rw (advance, e, answered) refl)
              (rw e (leaving-Alone h g))
        | inl (receipt, e) ↦ elim (Option-cases (mined_info receipt)) [
          | inl open_yet ↦
              Alone-then rpc d (asking h) (leaving h) worker f g end
                (rw (advance, e, answered, open_yet) refl) (rw (e, open_yet) (leaving-Alone h g))
          | inr (info, mined) ↦
              Alone-then rpc d (asking h) (storing h info) worker f g end
                (rw (advance, e, answered, mined) refl) (rw (e, mined) (storing-Alone h info g))
        ]
      ]

  worker-Alone : (f : Feed C) → Alone rpc d worker f worker (receipt_worker rpc d f).1
  unfolding advance receipt_worker
  worker-Alone f = elim (List-cases f.tracker.receipt_c) [
    | inl e ↦ Alone-turn rpc d worker worker f (receipt_worker rpc d f).1 (ground (arith, e))
    | inr (h, hs, e) ↦
        let g : Feed C = record f { tracker = record (f.tracker) { receipt_c = hs } } in
        let same : (handle_receipt rpc d h g).1 ≡ (receipt_worker rpc d f).1 = ground (arith, e) in
        Alone-then rpc d worker (asking h) worker f g (receipt_worker rpc d f).1 (ground (arith, e))
          (subst (λ (k : Feed C). Alone rpc d (asking h) g worker k) same (asking-Alone h g))
  ]

  dropping-Alone :
      (hs : List Text) (f : Feed C)
      → Alone rpc d (dropping hs) f sweeper (mark_all_dropped rpc d hs f).1
  unfolding advance mark_all_dropped
  dropping-Alone [] f = Alone-turn rpc d (dropping []) sweeper f f refl
  dropping-Alone (h ∷ hs) f =
      let g : Feed C = record f { store = (mark_mempool_dropped d h f.store).1 } in
      Alone-then rpc d (dropping (h ∷ hs)) (dropping hs) sweeper f g
        (mark_all_dropped rpc d (h ∷ hs) f).1 refl (dropping-Alone hs g)

  -- One event, handled by the goroutine that it is for.
  idle_for : Event → Task
  idle_for (saw tx) = caller
  idle_for (head number) = heads
  idle_for receipt_due = worker
  idle_for sweep = sweeper

  step-Alone : (e : Event) (f : Feed C) → Alone rpc d (idle_for e) f (idle_for e) (step rpc d e f)
  unfolding idle_for step on_head schedule_receipts drop_expired advance
  step-Alone (saw tx) f = λ front behind.
      Reach-trans rpc d (next here (call front behind (d.now f.store.calls) tx refl refl))
        (handle_tx-Alone tx f front behind)
  step-Alone (head number) f = λ front behind.
      Reach-trans rpc d (next here (Step.head front behind refl refl)) (
        Alone-then rpc d listing (resume (rest (hashes_where is_pending f.tracker.txs))) heads f f
          (step rpc d (head number) f) refl
          (enqueue_all-Alone rpc d (hashes_where is_pending f.tracker.txs) f) front behind)
  step-Alone receipt_due f = worker-Alone f
  step-Alone sweep f = λ front behind.
      let cutoff = d.now f.store.calls - f.tracker.dropped_ttl in
      let expired = hashes_where (is_expired cutoff) f.tracker.txs in
      let g : Feed C = record f {
        tracker = record (f.tracker) { txs = expire cutoff f.tracker.txs };
      } in
      Reach-trans rpc d (next here (tick front behind (d.now f.store.calls) refl refl)) (
        Alone-then rpc d (expiring cutoff) (dropping expired) sweeper f g (step rpc d sweep f) refl
          (dropping-Alone expired g) front behind)

  Alone-In :
      (x : Task) (ts : List Task) (f g : Feed C)
      → In x ts
      → Alone rpc d x f x g
      → Reach rpc d (record { tasks = ts; feed = f }) (record { tasks = ts; feed = g })
  Alone-In x ts f g i p =
      let (front, behind, e) = In-append x ts i in
      subst
        (λ (k : List Task).
          Reach rpc d (record { tasks = k; feed = f }) (record { tasks = k; feed = g }))
        (sym e) (p front behind)

  -- A run of the handlers, each of them as one whole, is a run of the goroutines of any system that
  -- has one for each handler: with the same transactions, heads, receipts and sweeps, from the same
  -- state to the same state, and each goroutine comes back to where it waits.
  pub run_lem :
      (ts : List Task) (events : List Event) (f : Feed C)
      → In caller ts
      → In heads ts
      → In worker ts
      → In sweeper ts
      → Reach rpc d
          (record { tasks = ts; feed = f })
          (record { tasks = ts; feed = run rpc d events f })
  unfolding run idle_for
  run_lem ts [] f c h w s = here
  run_lem ts (e ∷ events) f c h w s =
      Reach-trans rpc d (Alone-In (idle_for e) ts f (step rpc d e f) (present e) (step-Alone e f))
        (run_lem ts events (step rpc d e f) c h w s)
    where
      present : (e : Event) → In (idle_for e) ts
      present (saw tx) = c
      present (head number) = h
      present receipt_due = w
      present sweep = s
