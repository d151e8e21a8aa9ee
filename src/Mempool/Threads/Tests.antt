-- ===== src/Mempool/Threads/Tests.antt =====
-- Goroutines of the tracker with one transaction, over an empty table and a node that has its
-- receipt.
use blockchain_data_feeds_po.Prelude.{
  ◌+◌, ◌≡◌, ◌≤◌, refl, false, none, some, Text, lit, List, [], ◌∷◌, All, any, text_eq, lookup,
  length, inl, inr,
}
use blockchain_data_feeds_po.Prelude.Exec.{ok}
use blockchain_data_feeds_po.Store.Types.{MempoolTx}
use blockchain_data_feeds_po.Store.Db.{MempoolRow}
use blockchain_data_feeds_po.Store.Mempool.{pending, replaced}
use blockchain_data_feeds_po.Store.Mempool.Status.{find_tx}
use blockchain_data_feeds_po.Rpc.Interface.{Rpc, RpcReceipt}
use blockchain_data_feeds_po.Extract.Example.{node, no_failure, empty_store}
use blockchain_data_feeds_po.Mempool.Tracker.{TrackedTx, new_tracker, mined_info, replaced_hash}
use blockchain_data_feeds_po.Mempool.Handlers.{Feed, saw, run}
use blockchain_data_feeds_po.Mempool.Threads.{
  Task, caller, heads, worker, sweeper, System, start_system, Reach,
}
use blockchain_data_feeds_po.Mempool.Threads.Count.{count, all_held}
use blockchain_data_feeds_po.Mempool.Threads.Invariant.{IsCalm}
use blockchain_data_feeds_po.Mempool.Threads.Queue.{IsIdle, reach_lem}
use blockchain_data_feeds_po.Mempool.Threads.Alone.{run_lem}
use blockchain_data_feeds_po.Mempool.Threads.Races.{mined_overwritten, replaced_overwritten}

abbrev payment : Text → MempoolTx
payment hash = record {
  chain_id = 1;
  hash = hash;
  from_addr = lit "0xf";
  to_addr = [];
  nonce = 3;
  value = lit "1";
  gas = 21000;
  gas_price = [];
  max_fee_per_gas = [];
  max_priority_fee_per_gas = [];
  tx_type = 2;
  input = [];
  status = [];
  first_seen_at = 0;
  last_seen_at = 0;
  mined_block_number = 0;
  mined_block_hash = [];
  mined_tx_index = 0;
  replaced_by_tx_hash = [];
  inserted_at = 0;
  decoded_input_json = [];
}

abbrev receipt : RpcReceipt
receipt = record {
  transaction_hash = lit "0xt";
  block_hash = lit "0xb";
  block_number = some 7;
  transaction_index = some 0;
  status = some 1;
}

abbrev mining : Rpc (Unit {0})
mining = record node { get_transaction_receipt = λ h c. (ok (some receipt), c) }

abbrev tasks : List Task
tasks = heads ∷ sweeper ∷ worker ∷ caller ∷ []

abbrev started : Feed (Unit {0})
started = record { conn = tt; store = empty_store; tracker = new_tracker 10 1 2 }

-- The transaction is stored, and its hash waits in the channel.
abbrev waiting : System (Unit {0})
waiting = record {
  tasks = tasks;
  feed = run mining no_failure (saw (payment (lit "0xt")) ∷ []) started;
}

start-waiting : Reach mining no_failure (start_system 10 1 2 1 tt empty_store) waiting
unfolding start_system new_tracker
start-waiting =
    run_lem mining no_failure tasks (saw (payment (lit "0xt")) ∷ []) started
      (inr (inr (inr (inl refl)))) (inl refl) (inr (inr (inl refl))) (inr (inl refl))

reach_lem_example :
    ((h : Text)
      → (count h waiting.feed.tracker.receipt_c + count h (all_held tasks)
          ≡ count h waiting.feed.tracker.inflight)
        × (count h waiting.feed.tracker.inflight ≤ 1))
    × (length waiting.feed.tracker.inflight ≤ waiting.feed.tracker.max_inflight)
    × All IsCalm tasks
    × (All IsIdle tasks → waiting.feed.tracker.receipt_c ≡ [] → waiting.feed.tracker.inflight ≡ [])
reach_lem_example = reach_lem mining no_failure 10 1 2 1 tt empty_store waiting start-waiting

abbrev queued : Feed (Unit {0})
queued = record started {
  tracker = record (new_tracker 10 1 2) { inflight = lit "0xt" ∷ []; receipt_c = lit "0xt" ∷ [] };
}

mined_overwritten_example :
    (g : Feed (Unit {0})) × Reach mining no_failure
      (record { tasks = worker ∷ caller ∷ []; feed = queued })
      (record { tasks = worker ∷ caller ∷ []; feed = g })
    × ((r : MempoolRow) × (find_tx (lit "0xt") g.store.db.mempool ≡ some r) × (r.status ≡ pending))
    × (lookup (lit "0xt") g.tracker.txs ≡ none)
    × (any (λ x. text_eq x (lit "0xt")) g.tracker.inflight ≡ false)
unfolding new_tracker mined_info replaced_hash lookup
mined_overwritten_example =
    mined_overwritten mining no_failure (λ n. refl) (payment (lit "0xt")) 5 [] (some receipt)
      (record { block_number = 7; block_hash = lit "0xb"; tx_index = 0 }) queued [] refl refl refl
      refl

replaced_overwritten_example :
    (g : Feed (Unit {0})) × Reach mining no_failure
      (record { tasks = caller ∷ caller ∷ []; feed = started })
      (record { tasks = caller ∷ caller ∷ []; feed = g })
    × ((r : MempoolRow) × (find_tx (lit "0xt") g.store.db.mempool ≡ some r) × (r.status ≡ pending))
    × ((tx : TrackedTx) × (lookup (lit "0xt") g.tracker.txs ≡ some tx) × (tx.status ≡ replaced))
unfolding new_tracker replaced_hash lookup text_eq
replaced_overwritten_example =
    replaced_overwritten mining no_failure (λ n. refl) (payment (lit "0xt")) (payment (lit "0xu"))
      started [] refl refl refl refl
