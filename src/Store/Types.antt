-- ===== src/Store/Types.antt =====
-- internal/store/store.go: the records that the store takes and gives.
-- A time is the number of nanoseconds since the zero `time.Time` (year 1, UTC).
use blockchain_data_feeds_po.Prelude.{ℕ, ◌/◌, ◌*◌, Text, ◌==◌, Bool}

abbrev pub Time : Type 0
Time = ℕ

abbrev pub second : ℕ
second = 1000000000

-- `t.IsZero()`
abbrev pub is_zero : Time → Bool
is_zero t = t == 0

-- `t.Unix()` and `time.Unix(s, 0).UTC()`: whole seconds. The model counts them from year 1, so it
-- differs from the stored number by a constant.
abbrev pub unix : Time → ℕ
unix t = t / second

abbrev pub from_unix : ℕ → Time
from_unix s = s * second

pub record LogRecord : Type 0 where
  pub chain_id : ℕ
  pub contract_address : Text
  pub event_name : Text
  pub block_number : ℕ
  pub block_hash : Text
  pub tx_hash : Text
  pub log_index : ℕ
  pub timestamp : Time
  pub args_json : Text
  pub topics_json : Text
  pub data_hex : Text
  pub inserted_at : Time

pub record Checkpoint : Type 0 where
  pub id : ℕ
  pub start_block : ℕ
  pub end_block : ℕ
  pub block_hash : Text
  pub inserted_at : Time

pub record MempoolTx : Type 0 where
  pub chain_id : ℕ
  pub hash : Text
  pub from_addr : Text
  pub to_addr : Text
  pub nonce : ℕ
  pub value : Text
  pub gas : ℕ
  pub gas_price : Text
  pub max_fee_per_gas : Text
  pub max_priority_fee_per_gas : Text
  pub tx_type : ℕ
  pub input : Text
  pub status : Text
  pub first_seen_at : Time
  pub last_seen_at : Time
  pub mined_block_number : ℕ
  pub mined_block_hash : Text
  pub mined_tx_index : ℕ
  pub replaced_by_tx_hash : Text
  pub inserted_at : Time
  pub decoded_input_json : Text

pub record MinedInfo : Type 0 where
  pub block_number : ℕ
  pub block_hash : Text
  pub tx_index : ℕ
