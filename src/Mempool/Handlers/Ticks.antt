-- ===== src/Mempool/Handlers/Ticks.antt =====
-- A transaction that internal/mempool/tracker.go had given up and that is seen again, under the heads
-- and the sweeps that follow.
use blockchain_data_feeds_po.Prelude.{◌≡◌, Bool, Text, some, lookup}
use blockchain_data_feeds_po.Store.Db.{Database, MempoolRow}
use blockchain_data_feeds_po.Store.Mempool.{pending, dropped}
use blockchain_data_feeds_po.Store.Mempool.Status.{find_tx}
use blockchain_data_feeds_po.Rpc.Interface.{Rpc}
use blockchain_data_feeds_po.Mempool.Tracker.{Tracker, TrackedTx}
use blockchain_data_feeds_po.Mempool.Tracker.Queue.{has}
use blockchain_data_feeds_po.Mempool.Handlers.{Event, head, sweep, saw, receipt_due, Feed}

module _ {C : Type 0} (rpc : Rpc C) (d : Database) where
  -- The entry is dropped and the row pending; `queued` says whether the hash is in the channel.
  abbrev pub Neglected : Text → Bool → Feed C → Type 0
  Neglected hash queued f =
      ((now : TrackedTx) × (lookup hash f.tracker.txs ≡ some now) × (now.status ≡ dropped))
      × ((r : MempoolRow) × (find_tx hash f.store.db.mempool ≡ some r) × (r.status ≡ pending))
      × (has hash f.tracker.receipt_c ≡ queued)

  -- A head or a tick of the sweep.
  abbrev pub IsTick : Event → Type 0
  IsTick (head n) = Unit
  IsTick sweep = Unit
  IsTick (saw tx) = ⊥
  IsTick receipt_due = ⊥
