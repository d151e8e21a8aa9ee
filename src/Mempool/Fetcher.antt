-- ===== src/Mempool/Fetcher.antt =====
-- internal/mempool/fetcher.go: from the hash of a pending transaction to the tracker.
-- The channel of hashes is a list, oldest first. The waits between attempts are not modelled, nor is
-- the end of the context.
pub mod Hands
mod Tests
use blockchain_data_feeds_po.Prelude.{
  ℕ, zero, suc, Text, lit, is_empty, to_lower, Option, none, some, List, [], ◌∷◌, ◌++◌, length, ltb,
  ◌==◌, if◌then◌else◌,
}
use blockchain_data_feeds_po.Prelude.Exec.{Error, Result, ok, err, Exec, pure, ◌>>=◌}
use blockchain_data_feeds_po.Store.Types.{Time, MempoolTx}
use blockchain_data_feeds_po.Store.Db.{Database}
use blockchain_data_feeds_po.Store.Mempool.{pending}
use blockchain_data_feeds_po.Rpc.Interface.{Rpc, RpcTransaction}
use blockchain_data_feeds_po.Mempool.Handlers.{Feed, handle_tx}

abbrev pub zero_address : Text
zero_address = lit "0x0000000000000000000000000000000000000000"

pub record Fetcher : Type 0 where
  pub chain_id : ℕ
  pub workers : ℕ
  pub max_inflight : ℕ
  pub pending_c : List Text

-- An argument that is not positive is 0 here.
unfoldable pub new_fetcher : ℕ → ℕ → ℕ → Fetcher
new_fetcher chain_id workers max_inflight = record {
  chain_id = chain_id;
  workers = if workers == 0 then 4 else workers;
  max_inflight = if max_inflight == 0 then 10000 else max_inflight;
  pending_c = [];
}

-- Enqueue: a full channel drops the hash.
unfoldable pub enqueue : Text → Fetcher → Fetcher
enqueue hash f =
    if ltb (length f.pending_c) f.max_inflight
    then record f { pending_c = f.pending_c ++ hash ∷ [] }
    else f

-- What the fetcher uses of math/big and of the decoder: the decimal text of a number, and the JSON
-- text of a call's decoded input, if decoding is on and yields one.
pub record Format : Type 0 where
  pub decimal_text : ℕ → Text
  pub decode_input : Text → Text → Option Text

unfoldable pub amount : Format → Text → Option ℕ → Text
amount fmt absent none = absent
amount fmt absent (some n) = fmt.decimal_text n

unfoldable pub recipient : Option Text → Text
recipient none = zero_address
recipient (some to) = if is_empty to then zero_address else to

unfoldable pub or_zero : Option ℕ → ℕ
or_zero none = 0
or_zero (some n) = n

unfoldable pub to_mempool_tx : Format → ℕ → Time → RpcTransaction → MempoolTx
to_mempool_tx fmt chain_id now tx = record {
  chain_id = chain_id;
  hash = to_lower tx.hash;
  from_addr = to_lower tx.from_addr;
  to_addr = to_lower (recipient tx.to_addr);
  nonce = tx.nonce;
  value = amount fmt (lit "0") tx.value;
  gas = tx.gas;
  gas_price = amount fmt [] tx.gas_price;
  max_fee_per_gas = amount fmt [] tx.max_fee_per_gas;
  max_priority_fee_per_gas = amount fmt [] tx.max_priority_fee_per_gas;
  tx_type = or_zero tx.tx_type;
  input = if is_empty tx.input then lit "0x" else tx.input;
  status = pending;
  first_seen_at = now;
  last_seen_at = now;
  mined_block_number = 0;
  mined_block_hash = [];
  mined_tx_index = 0;
  replaced_by_tx_hash = [];
  inserted_at = now;
  decoded_input_json = [];
}

unfoldable pub with_input : Format → MempoolTx → MempoolTx
with_input fmt tx = elim (fmt.decode_input tx.to_addr tx.input) [
  | none ↦ tx
  | some json ↦ record tx { decoded_input_json = json }
]

module _ {C : Type 0} (rpc : Rpc C) (d : Database) (fmt : Format) where
  abbrev pub ask : Text → Exec (Feed C) Error (Option RpcTransaction)
  ask hash f = let (r, c) = rpc.get_transaction_by_hash hash f.conn in (r, record f { conn = c })

  -- At most so many attempts, as long as the node answers that it does not know the hash.
  unfoldable pub fetch : ℕ → Text → Exec (Feed C) Error (Option RpcTransaction)
  fetch zero hash = pure none
  fetch (suc attempts) hash = do
    answer ← ask hash
    elim answer [ none ↦ fetch attempts hash | some tx ↦ pure (some tx) ]

  -- The rest of handleHash. Errors are logged.
  unfoldable pub hand_over : ℕ → Result Error (Option RpcTransaction) × Feed C → Feed C
  hand_over chain_id (err e, f) = f
  hand_over chain_id (ok none, f) = f
  hand_over chain_id (ok (some tx), f) =
      (handle_tx rpc d (with_input fmt (to_mempool_tx fmt chain_id (d.now f.store.calls) tx)) f).1

  -- handleHash, with its six attempts.
  unfoldable pub handle_hash : ℕ → Text → Feed C → Feed C
  handle_hash chain_id hash f = hand_over chain_id (fetch 6 hash f)
