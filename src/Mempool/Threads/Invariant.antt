-- ===== src/Mempool/Threads/Invariant.antt =====
-- What every step of the goroutines of internal/mempool/tracker.go keeps.
use blockchain_data_feeds_po.Prelude.{
  ◌≡◌, refl, sym, subst, Bool, true, false, Text, Option, List, [], ◌∷◌, Bool-cases, List-cases,
  Option-cases, inl, inr, is_empty, lookup,
}
use blockchain_data_feeds_po.Prelude.Exec.{Error, Result, ok, err}
use blockchain_data_feeds_po.Store.Db.{Database}
use blockchain_data_feeds_po.Rpc.Interface.{Rpc, RpcReceipt}
use blockchain_data_feeds_po.Mempool.Key.{from_nonce_key}
use blockchain_data_feeds_po.Mempool.Tracker.{
  hashes_where, is_pending, replaced_hash, note_tx, mined_info,
}
use blockchain_data_feeds_po.Mempool.Handlers.{Feed}
use blockchain_data_feeds_po.Mempool.Handlers.Sound.{forget-Keeps}
use blockchain_data_feeds_po.Mempool.Threads.{
  Continuation, back, rest, Task, caller, noting, replacing, marking, upserting, entering, sending,
  giving_up, heads, listing, worker, asking, storing, forgetting, leaving, sweeper, expiring,
  dropping, resume, after_upsert, after_mined, enter_receipt, answered, advance, upsert_mempool_tx,
  mark_mempool_mined,
}
use blockchain_data_feeds_po.Mempool.Threads.Count.{held}
use blockchain_data_feeds_po.Mempool.Threads.Held.{
  Fits, enter_receipt-Fits, send_receipt-Fits, release_receipt-Fits, receive-Fits, entries-Fits,
}

-- A goroutine that found the channel full.
abbrev pub is_giving_up : Task → Bool
is_giving_up (giving_up h k) = true
is_giving_up _ = false

abbrev pub IsCalm : Task → Type 0
IsCalm x = is_giving_up x ≡ false

-- A place without a hash, from which nothing is given up.
abbrev IsFree : Task → Type 0
IsFree x = (held x ≡ []) × IsCalm x

resume-IsFree : (k : Continuation) → IsFree (resume k)
unfolding resume
resume-IsFree back = (refl, refl)
resume-IsFree (rest []) = (refl, refl)
resume-IsFree (rest (h ∷ hs)) = (refl, refl)

module _ {C : Type 0} where
  -- A goroutine and the feed after its step, beside what the others hold.
  abbrev pub Stays : List Text → Task × Feed C → Type 0
  Stays ys r = Fits r.1.tracker (held r.0) ys × IsCalm r.0

  free-Stays :
      (ys : List Text) (x : Task) (f : Feed C) → IsFree x → Fits f.tracker [] ys → Stays ys (x, f)
  free-Stays ys x f (e, calm) i = (subst (λ (xs : List Text). Fits f.tracker xs ys) (sym e) i, calm)

module _ {C : Type 0} (rpc : Rpc C) (d : Database) where
  entering-Stays :
      (h : Text) (k : Continuation) (f : Feed C) (ys : List Text)
      → Fits f.tracker [] ys
      → Stays ys (advance rpc d (entering h k) f)
  unfolding advance
  entering-Stays h k f ys i = elim (Option-cases (enter_receipt h f.tracker)) [
    | inl out ↦ rw (advance, out) (free-Stays ys (resume k) f (resume-IsFree k) i)
    | inr (t, e) ↦ rw (advance, e) (enter_receipt-Fits h f.tracker t ys e i, refl)
  ]

  sending-Stays :
      (h : Text) (k : Continuation) (f : Feed C) (ys : List Text)
      → Fits f.tracker (h ∷ []) ys
      → Stays ys (advance rpc d (sending h k) f)
  unfolding advance
  sending-Stays h k f ys i =
      let (t, e, sent) = send_receipt-Fits h f.tracker ys i in
      rw (advance, e) (free-Stays ys (resume k) (record f { tracker = t }) (resume-IsFree k) sent)

  worker-Stays :
      (f : Feed C) (ys : List Text) → Fits f.tracker [] ys → Stays ys (advance rpc d worker f)
  unfolding advance
  worker-Stays f ys i = elim (List-cases f.tracker.receipt_c) [
    | inl e ↦ rw (advance, e) (i, refl)
    | inr (h, hs, e) ↦ rw (advance, e) (receive-Fits h hs f.tracker ys e i, refl)
  ]

  answered-held :
      (h : Text) (r : Result Error (Option RpcReceipt))
      → (held (answered h r) ≡ h ∷ []) × IsCalm (answered h r)
  unfolding answered
  answered-held h (err e) = (refl, refl)
  answered-held h (ok receipt) = elim (Option-cases (mined_info receipt)) [
    | inl e ↦ rw (answered, e) (refl, refl)
    | inr (info, e) ↦ rw (answered, e) (refl, refl)
  ]

  after_upsert-IsFree : (h : Text) (r : Result Error (Unit {0})) → IsFree (after_upsert h r)
  unfolding after_upsert
  after_upsert-IsFree h (ok u) = (refl, refl)
  after_upsert-IsFree h (err e) = (refl, refl)

  after_mined-held :
      (h : Text) (r : Result Error (Unit {0}))
      → (held (after_mined h r) ≡ h ∷ []) × IsCalm (after_mined h r)
  unfolding after_mined
  after_mined-held h (ok u) = (refl, refl)
  after_mined-held h (err e) = (refl, refl)

  pub advance-Stays :
      (x : Task) (f : Feed C) (ys : List Text)
      → IsCalm x
      → Fits f.tracker (held x) ys
      → Stays ys (advance rpc d x f)
  unfolding advance note_tx
  advance-Stays (noting now tx) f ys c i =
      elim (Bool-cases (
        is_empty (
          replaced_hash (lookup (from_nonce_key tx.from_addr tx.nonce) f.tracker.from_nonce)
            tx.hash))) [
              | inl e ↦ rw e (entries-Fits [] ys _ _ f.tracker i, refl)
              | inr e ↦ rw e (entries-Fits [] ys _ _ f.tracker i, refl)
            ]
  advance-Stays (replacing old tx) f ys c i = (i, refl)
  advance-Stays (marking old tx) f ys c i =
      (entries-Fits [] ys _ f.tracker.from_nonce f.tracker i, refl)
  advance-Stays (upserting tx) f ys c i =
      let (r, s) = upsert_mempool_tx d tx f.store in
      free-Stays ys (after_upsert tx.hash r) (record f { store = s })
        (after_upsert-IsFree tx.hash r) i
  advance-Stays (entering h k) f ys c i = entering-Stays h k f ys i
  advance-Stays (sending h k) f ys c i = sending-Stays h k f ys i
  advance-Stays (giving_up h k) f ys c i = cc
  advance-Stays listing f ys c i =
      free-Stays ys (resume (rest (hashes_where is_pending f.tracker.txs))) f (resume-IsFree _) i
  advance-Stays worker f ys c i = worker-Stays f ys i
  advance-Stays (asking h) f ys c i =
      let (e, calm) = answered-held h (rpc.get_transaction_receipt h f.conn).0 in
      (subst (λ (xs : List Text). Fits f.tracker xs ys) (sym e) i, calm)
  advance-Stays (storing h info) f ys c i =
      let r = (mark_mempool_mined d h info f.store).0 in
      let (e, calm) = after_mined-held h r in
      (subst (λ (xs : List Text). Fits f.tracker xs ys) (sym e) i, calm)
  advance-Stays (forgetting h) f ys c i = (
    forget-Keeps rpc d (λ t. Fits t (h ∷ []) ys) (λ x n t k. entries-Fits (h ∷ []) ys x n t k) h
        f.tracker i,
    refl,
  )
  advance-Stays (leaving h) f ys c i = (release_receipt-Fits h f.tracker ys i, refl)
  advance-Stays (expiring cutoff) f ys c i =
      (entries-Fits [] ys _ f.tracker.from_nonce f.tracker i, refl)
  advance-Stays (dropping []) f ys c i = (i, refl)
  advance-Stays (dropping (h ∷ hs)) f ys c i = (i, refl)
  advance-Stays caller f ys c i = (i, refl)
  advance-Stays heads f ys c i = (i, refl)
  advance-Stays sweeper f ys c i = (i, refl)
