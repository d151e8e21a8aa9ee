-- ===== src/Mempool/Tracker.antt =====
-- internal/mempool/tracker.go: the life of a pending transaction. Each handler is one step.
pub mod Queue
pub mod Expire
pub mod Entries
use blockchain_data_feeds_po.Prelude.{
  ℕ, zero, suc, ◌+◌, ◌-◌, Bool, true, false, ◌&&◌, not, Text, Option, none, some, List, [], ◌∷◌,
  ◌++◌, text_eq, is_empty, ltb, leb, ◌==◌, if◌then◌else◌, any, keep, length, Dict, lookup, put,
  remove, ◌*◌,
}
use blockchain_data_feeds_po.Prelude.Exec.{Error, Result, ok, err, Exec, pure, attempt, ◌>>=◌, ◌>>◌}
use blockchain_data_feeds_po.Store.Types.{Time, second, is_zero, MempoolTx, MinedInfo}
use blockchain_data_feeds_po.Store.Db.{Database, SqliteStore, Action}
use blockchain_data_feeds_po.Store.Mempool.{
  pending, replaced, dropped, upsert_mempool_tx, mark_mempool_mined, mark_mempool_replaced,
  mark_mempool_dropped,
}
use blockchain_data_feeds_po.Rpc.Interface.{Rpc, RpcReceipt}
use blockchain_data_feeds_po.Mempool.Key.{from_nonce_key}

pub record TrackedTx : Type 0 where
  pub hash : Text
  pub from_addr : Text
  pub nonce : ℕ
  pub first_seen : Time
  pub last_seen : Time
  pub status : Text

-- `receipt_c` is the buffered channel, oldest entry first; its capacity is `max_inflight`.
pub record Tracker : Type 0 where
  pub dropped_ttl : Time
  pub receipt_workers : ℕ
  pub max_inflight : ℕ
  pub txs : Dict TrackedTx
  pub from_nonce : Dict Text
  pub inflight : List Text
  pub receipt_c : List Text

-- An argument that is not positive is 0 here.
unfoldable pub new_tracker : Time → ℕ → ℕ → Tracker
new_tracker dropped_ttl receipt_workers max_inflight = record {
  dropped_ttl = if dropped_ttl == 0 then 600 * second else dropped_ttl;
  receipt_workers = if receipt_workers == 0 then 4 else receipt_workers;
  max_inflight = if max_inflight == 0 then 10000 else max_inflight;
  txs = [];
  from_nonce = [];
  inflight = [];
  receipt_c = [];
}

-- delete(t.inflight, hash)
unfoldable pub leave : Text → List Text → List Text
leave hash set = keep (λ h. not (text_eq h hash)) set

unfoldable pub enqueue_receipt : Text → Tracker → Tracker
enqueue_receipt hash t =
    if any (λ h. text_eq h hash) t.inflight
    then t
    else if leb t.max_inflight (length t.inflight)
    then t
    else (let inflight = t.inflight ++ hash ∷ [] in
        if ltb (length t.receipt_c) t.max_inflight
        then record t { inflight = inflight; receipt_c = t.receipt_c ++ hash ∷ [] }
        else record t { inflight = leave hash inflight })

unfoldable pub enqueue_all : List Text → Tracker → Tracker
enqueue_all [] t = t
enqueue_all (h ∷ hs) t = enqueue_all hs (enqueue_receipt h t)

-- The hashes of the entries that pass a test. Go's map has no order; the model takes the list's.
unfoldable pub hashes_where : (TrackedTx → Bool) → Dict TrackedTx → List Text
hashes_where p [] = []
hashes_where p ((h, tx) ∷ txs) = let rest = hashes_where p txs in if p tx then h ∷ rest else rest

abbrev pub is_pending : TrackedTx → Bool
is_pending tx = text_eq tx.status pending

unfoldable pub schedule_receipts : Tracker → Tracker
schedule_receipts t = enqueue_all (hashes_where is_pending t.txs) t

-- OnHead
unfoldable pub on_head : ℕ → Tracker → Tracker
on_head head t = schedule_receipts t

-- The status of an entry, if it is there.
unfoldable pub set_status : Text → Text → Dict TrackedTx → Dict TrackedTx
set_status hash status txs = elim (lookup hash txs) [
  | none ↦ txs
  | some tx ↦ put hash (record tx { status = status }) txs
]

-- The hash that the new one replaces, or the empty text.
unfoldable pub replaced_hash : Option Text → Text → Text
replaced_hash none hash = []
replaced_hash (some existing) hash = if text_eq existing hash then [] else existing

-- The entry of a transaction that was seen: a known one has its time only.
unfoldable pub seen : MempoolTx → Time → Option TrackedTx → TrackedTx
seen tx now none = record {
  hash = tx.hash;
  from_addr = tx.from_addr;
  nonce = tx.nonce;
  first_seen = tx.first_seen_at;
  last_seen = now;
  status = pending;
}
seen tx now (some current) = record current { last_seen = now }

-- The first locked part of HandleTx.
unfoldable pub note_tx : MempoolTx → Time → Tracker → Tracker
note_tx tx now t = record t {
  from_nonce = put (from_nonce_key tx.from_addr tx.nonce) tx.hash t.from_nonce;
  txs = put tx.hash (seen tx now (lookup tx.hash t.txs)) t.txs;
}

-- The transaction as HandleTx stores it.
unfoldable pub stamped : MempoolTx → Time → MempoolTx
stamped tx now = record tx {
  first_seen_at = if is_zero tx.first_seen_at then now else tx.first_seen_at;
  last_seen_at = now;
  inserted_at = if is_zero tx.inserted_at then now else tx.inserted_at;
  status = pending;
}

-- What the receipt says, if it says that the transaction is in a block.
unfoldable pub mined_info : Option RpcReceipt → Option MinedInfo
mined_info none = none
mined_info (some r) = elim r.block_number [
  | none ↦ none
  | some number ↦ elim r.transaction_index [
    | none ↦ none
    | some index ↦
        some (record { block_number = number; block_hash = r.block_hash; tx_index = index })
  ]
]

-- The entry of a mined transaction goes, and its key if it is still its own.
unfoldable pub forget : Text → Tracker → Tracker
forget hash t = elim (lookup hash t.txs) [
  | none ↦ t
  | some tracked ↦
      (let key = from_nonce_key tracked.from_addr tracked.nonce in
        record t {
          txs = remove hash t.txs;
          from_nonce = elim (lookup key t.from_nonce) [
            | none ↦ t.from_nonce
            | some current ↦ if text_eq current hash then remove key t.from_nonce else t.from_nonce
          ];
        })
]

-- An entry that has waited past the cutoff.
abbrev pub is_expired : Time → TrackedTx → Bool
is_expired cutoff tx = is_pending tx && ltb tx.first_seen cutoff

unfoldable pub expire : Time → Dict TrackedTx → Dict TrackedTx
expire cutoff [] = []
expire cutoff ((h, tx) ∷ txs) =
    (h, if is_expired cutoff tx then record tx { status = dropped } else tx) ∷ expire cutoff txs
