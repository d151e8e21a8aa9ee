-- ===== src/Mempool/Fetcher/Tests.antt =====
-- The fetcher on a node that knows every hash.
use blockchain_data_feeds_po.Prelude.{◌≡◌, refl, none, some, lit, [], ◌∷◌, arith}
use blockchain_data_feeds_po.Prelude.Exec.{ok}
use blockchain_data_feeds_po.Rpc.Interface.{Rpc}
use blockchain_data_feeds_po.Extract.Example.{node, empty_store}
use blockchain_data_feeds_po.Mempool.Tracker.{new_tracker}
use blockchain_data_feeds_po.Mempool.Tracker.Queue.{IsSound, Distinct}
use blockchain_data_feeds_po.Mempool.Handlers.{Feed}
use blockchain_data_feeds_po.Mempool.Fetcher.{Format, new_fetcher, enqueue}

abbrev plain : Format
plain = record { decimal_text = λ n. n ∷ []; decode_input = λ to input. none }

abbrev idle : Feed (Unit {0})
idle = record { conn = tt; store = empty_store; tracker = new_tracker 0 0 2 }

-- A node that knows every hash.
abbrev knowing : Rpc (Unit {0})
knowing = record node {
  get_transaction_by_hash = λ h c. (
    ok (
        some (record {
          hash = lit "0xT";
          from_addr = lit "0xF";
          to_addr = none;
          nonce = 3;
          value = none;
          gas = 21000;
          gas_price = none;
          max_fee_per_gas = none;
          max_priority_fee_per_gas = none;
          tx_type = none;
          input = [];
        })),
    c,
  );
}

queued : (enqueue (lit "0xT") (new_fetcher 1 0 0)).pending_c ≡ lit "0xT" ∷ []
unfolding enqueue new_fetcher
queued = refl

idle-IsSound : IsSound idle.tracker
unfolding IsSound Distinct new_tracker
idle-IsSound = (tt, omega arith, omega arith)
