-- ===== src/Mempool/Threads/Races.antt =====
-- What goroutines of internal/mempool/tracker.go do to each other between their locked parts.
use blockchain_data_feeds_po.Prelude.{
  ◌≡◌, refl, ap, false, Text, Option, none, some, List, [], ◌∷◌, arith, any, text_eq, text_eq_refl,
  lookup, lookup-remove, Option-cases, inl, inr, ℕ, ◌∙◌, lookup-put, text_eq_iff,
}
use blockchain_data_feeds_po.Prelude.Exec.{ok, Result-cases}
use blockchain_data_feeds_po.Store.Types.{Time, MempoolTx, MinedInfo}
use blockchain_data_feeds_po.Store.Db.{Database, MempoolRow, exec}
use blockchain_data_feeds_po.Store.Mempool.{pending, upsert_mempool_tx, mark_mempool_mined, update}
use blockchain_data_feeds_po.Store.Mempool.Status.{find_tx}
use blockchain_data_feeds_po.Rpc.Interface.{Rpc, RpcReceipt}
use blockchain_data_feeds_po.Mempool.Key.{from_nonce_key}
use blockchain_data_feeds_po.Mempool.Tracker.{
  Tracker, leave, replaced_hash, note_tx, stamped, mined_info, forget, set_status, TrackedTx, seen,
}
use blockchain_data_feeds_po.Mempool.Handlers.{Feed, handle_tx, handle_tx_at, replace_tx}
use blockchain_data_feeds_po.Mempool.Handlers.Lost.{finish, finish-row, enqueue_receipt-txs}
use blockchain_data_feeds_po.Mempool.Threads.{
  Task, caller, noting, upserting, worker, asking, storing, forgetting, leaving, answered,
  after_mined, release_receipt, advance, call, Reach, here, next, set_status, is_empty, replaced,
  mark_mempool_replaced,
}
use blockchain_data_feeds_po.Mempool.Threads.Turns.{Alone, Reach-trans, Alone-turn, Alone-then}
use blockchain_data_feeds_po.Mempool.Threads.Alone.{upserting-Alone, leaving-Alone, handle_tx-Alone}

lookup-forget : (h : Text) (t : Tracker) → lookup h (forget h t).txs ≡ none
unfolding forget
lookup-forget h t = elim (Option-cases (lookup h t.txs)) [
  | inl e ↦ ground (arith, e)
  | inr (tx, e) ↦ ground (arith, e, lookup-remove h h t.txs, text_eq_refl h)
]

any-leave : (h : Text) (xs : List Text) → any (λ x. text_eq x h) (leave h xs) ≡ false
unfolding leave
any-leave h [] = refl
any-leave h (x ∷ xs) = ground (arith, any-leave h xs)

module _ {C : Type 0} (rpc : Rpc C) (d : Database) (fine : (n : ℕ) → d.fails n ≡ none) where
  mark_mempool_mined-ok :
      (h : Text) (info : MinedInfo) (f : Feed C) → (mark_mempool_mined d h info f.store).0 ≡ ok tt
  unfolding mark_mempool_mined update exec
  mark_mempool_mined-ok h info f = rw (exec, fine f.store.calls) refl

  finish-ok : (t : MempoolTx) (f : Feed C) → t.status ≡ pending → (finish rpc d t f).0 ≡ ok tt
  unfolding upsert_mempool_tx exec text_eq
  finish-ok t f e = ground (arith, e, fine f.store.calls, text_eq_refl pending)

  -- A receipt worker up to its second locked part.
  worker-forgetting :
      (h : Text) (hs : List Text) (receipt : Option RpcReceipt) (info : MinedInfo) (f : Feed C)
      → f.tracker.receipt_c ≡ h ∷ hs
      → (rpc.get_transaction_receipt h f.conn).0 ≡ ok receipt
      → mined_info receipt ≡ some info
      → (g : Feed C) × Alone rpc d worker f (forgetting h) g
        × (g.tracker ≡ record (f.tracker) { receipt_c = hs })
  unfolding advance answered after_mined
  worker-forgetting h hs receipt info f e a m =
      let f1 : Feed C = record f { tracker = record (f.tracker) { receipt_c = hs } } in
      let f2 : Feed C = record f1 { conn = (rpc.get_transaction_receipt h f.conn).1 } in
      let f3 : Feed C = record f2 { store = (mark_mempool_mined d h info f.store).1 } in
      (
        f3,
        Alone-then rpc d worker (asking h) (forgetting h) f f1 f3 (ground (arith, e)) (
            Alone-then rpc d (asking h) (storing h info) (forgetting h) f1 f2 f3
              (rw (advance, a, answered, m) refl)
              (Alone-turn rpc d (storing h info) (forgetting h) f2 f3
                (rw (advance, mark_mempool_mined-ok h info f, after_mined) refl))),
        refl,
      )

  -- A receipt worker and a caller of HandleTx on one hash: the worker takes the hash, whose receipt
  -- says that it is mined, and stores that; before it forgets the hash the caller, which has the
  -- same transaction again, stores it. No statement fails. Then there is an order of the steps after
  -- which both wait again, the row of the hash is pending, and the tracker has no entry for it and no
  -- request in flight.
  pub mined_overwritten :
      (given : MempoolTx) (now : Time) (hs : List Text) (receipt : Option RpcReceipt)
      (info : MinedInfo) (f : Feed C) (others : List Task)
      → f.tracker.receipt_c ≡ given.hash ∷ hs
      → (rpc.get_transaction_receipt given.hash f.conn).0 ≡ ok receipt
      → mined_info receipt ≡ some info
      → replaced_hash
          (lookup (from_nonce_key given.from_addr given.nonce) f.tracker.from_nonce)
          given.hash
        ≡ []
      → (g : Feed C) × Reach rpc d
          (record { tasks = worker ∷ caller ∷ others; feed = f })
          (record { tasks = worker ∷ caller ∷ others; feed = g })
        × ((r : MempoolRow) × (find_tx given.hash g.store.db.mempool ≡ some r)
            × (r.status ≡ pending))
        × (lookup given.hash g.tracker.txs ≡ none)
        × (any (λ x. text_eq x given.hash) g.tracker.inflight ≡ false)
  unfolding advance stamped release_receipt
  mined_overwritten given now hs receipt info f others e a m n =
      let h = given.hash in
      let t = stamped given now in
      let (f3, first, same) = worker-forgetting h hs receipt info f e a m in
      let f4 : Feed C = record f3 { tracker = note_tx t now f3.tracker } in
      let f5 : Feed C = (finish rpc d t f4).1 in
      let f6 : Feed C = record f5 { tracker = forget h f5.tracker } in
      let g : Feed C = record f6 { tracker = release_receipt h f6.tracker } in
      let old =
        ap
          (λ (k : Tracker).
            replaced_hash (lookup (from_nonce_key given.from_addr given.nonce) k.from_nonce) h)
          same in
      let (kept, row) = finish-row rpc d t f4 (finish-ok t f4 refl) in
      (
        g,
        Reach-trans rpc d (first [] (caller ∷ others)) (
            Reach-trans rpc d (next here (call (forgetting h ∷ []) others now given refl refl)) (
              Reach-trans rpc d
                (Alone-then rpc d (noting now t) (upserting t) caller f3 f4 f5
                  (rw (advance, old ∙ n) refl) (upserting-Alone rpc d t f4) (forgetting h ∷ [])
                  others)
                (Alone-then rpc d (forgetting h) (leaving h) worker f5 f6 g refl
                  (leaving-Alone rpc d h f6) [] (caller ∷ others)))),
        row,
        lookup-forget h f5.tracker,
        any-leave h f6.tracker.inflight,
      )

module _ {C : Type 0} (rpc : Rpc C) (d : Database) where
  finish-txs : (t : MempoolTx) (f : Feed C) → (finish rpc d t f).1.tracker.txs ≡ f.tracker.txs
  finish-txs t f = elim (Result-cases (upsert_mempool_tx d t f.store).0) [
    | inl (u, e) ↦ rw (e, enqueue_receipt-txs rpc d t.hash f.tracker) refl
    | inr (x, e) ↦ rw e refl
  ]

  -- HandleTx of a transaction that takes the place of `old` leaves the entry of `old` replaced.
  handle_tx-replaced :
      (old : Text) (given : MempoolTx) (f : Feed C) (entry : TrackedTx)
      → lookup old f.tracker.txs ≡ some entry
      → lookup (from_nonce_key given.from_addr given.nonce) f.tracker.from_nonce ≡ some old
      → text_eq old given.hash ≡ false
      → is_empty old ≡ false
      → (tx : TrackedTx) × (lookup old (handle_tx rpc d given f).1.tracker.txs ≡ some tx)
        × (tx.status ≡ replaced)
  unfolding handle_tx handle_tx_at replace_tx stamped note_tx replaced_hash set_status
  handle_tx-replaced old given f entry e k n m =
      let now = d.now f.store.calls in
      let t = stamped given now in
      let noted : Tracker = note_tx t now f.tracker in
      let kept : lookup old noted.txs ≡ some entry = ground (
        arith,
        e,
        n,
        text_eq_iff old given.hash,
        text_eq_iff given.hash old,
        lookup-put given.hash old (seen t now (lookup given.hash f.tracker.txs)) f.tracker.txs,
      ) in
      let g : Feed C = record f {
        store = (mark_mempool_replaced d old given.hash f.store).1;
        tracker = record noted { txs = set_status old replaced noted.txs };
      } in
      let shown : lookup old g.tracker.txs ≡ some (record entry { status = replaced }) =
        rw (set_status, kept)
          (ground (
            arith,
            text_eq_refl old,
            lookup-put old old (record entry { status = replaced }) noted.txs,
          )) in
      (record entry { status = replaced }, rw (k, n, m) (rw (finish-txs t g) shown), refl)

module _ {C : Type 0} (rpc : Rpc C) (d : Database) (fine : (n : ℕ) → d.fails n ≡ none) where
  -- Two callers of HandleTx with transactions of one sender and nonce: the second notes its own
  -- behind the first, and runs to its end before the first has stored anything. No statement fails.
  -- Then there is an order of the steps after which both wait again, the row of the first
  -- transaction is pending, and its entry in the tracker is replaced.
  pub replaced_overwritten :
      (first second : MempoolTx) (f : Feed C) (others : List Task)
      → text_eq first.hash second.hash ≡ false
      → is_empty first.hash ≡ false
      → from_nonce_key second.from_addr second.nonce ≡ from_nonce_key first.from_addr first.nonce
      → replaced_hash
          (lookup (from_nonce_key first.from_addr first.nonce) f.tracker.from_nonce)
          first.hash
        ≡ []
      → (g : Feed C) × Reach rpc d
          (record { tasks = caller ∷ caller ∷ others; feed = f })
          (record { tasks = caller ∷ caller ∷ others; feed = g })
        × ((r : MempoolRow) × (find_tx first.hash g.store.db.mempool ≡ some r)
            × (r.status ≡ pending))
        × ((tx : TrackedTx) × (lookup first.hash g.tracker.txs ≡ some tx) × (tx.status ≡ replaced))
  unfolding advance stamped note_tx
  replaced_overwritten first second f others n m key free =
      let now = d.now f.store.calls in
      let t = stamped first now in
      let f1 : Feed C = record f { tracker = note_tx t now f.tracker } in
      let f2 : Feed C = (handle_tx rpc d second f1).1 in
      let g : Feed C = (finish rpc d t f2).1 in
      let entry : TrackedTx = seen t now (lookup first.hash f.tracker.txs) in
      let (kept, row) = finish-row rpc d t f2 (finish-ok rpc d fine t f2 refl) in
      let (tx, there, status) =
        handle_tx-replaced rpc d first.hash second f1 entry
          (ground
            (arith, text_eq_refl first.hash, lookup-put first.hash first.hash entry f.tracker.txs))
          (rw key (
            ground (
              arith,
              text_eq_refl (from_nonce_key first.from_addr first.nonce),
              lookup-put (from_nonce_key first.from_addr first.nonce)
                  (from_nonce_key first.from_addr first.nonce) first.hash f.tracker.from_nonce,
            )))
          n m in
      (
        g,
        Reach-trans rpc d (next here (call [] (caller ∷ others) now first refl refl)) (
            Reach-trans rpc d
              (Alone-turn rpc d (noting now t) (upserting t) f f1 (rw (advance, free) refl) []
                (caller ∷ others))
              (Reach-trans rpc d (next here (call (upserting t ∷ []) others now second refl refl)) (
                Reach-trans rpc d (handle_tx-Alone rpc d second f1 (upserting t ∷ []) others)
                  (upserting-Alone rpc d t f2 [] (caller ∷ others))))),
        row,
        (tx, kept ∙ there, status),
      )
