-- ===== src/Store/Db.antt =====
-- The tables that internal/store/sqlite.go declares, and how a statement runs on them.
-- The driver is outside the program: `Database` says which statements fail and what time it is.
use blockchain_data_feeds_po.Prelude.{ℕ, ◌+◌, Text, Option, none, some, List}
use blockchain_data_feeds_po.Prelude.Exec.{Error, ok, err, Exec}
use blockchain_data_feeds_po.Store.Types.{Time}

pub record LogRow : Type 0 where
  pub chain_id : ℕ
  pub contract_address : Text
  pub event_name : Text
  pub block_number : ℕ
  pub block_hash : Text
  pub tx_hash : Text
  pub log_index : ℕ
  pub timestamp : ℕ
  pub args_json : Text
  pub topics_json : Text
  pub data_hex : Text
  pub inserted_at : ℕ

pub record CheckpointRow : Type 0 where
  pub id : ℕ
  pub start_block : ℕ
  pub end_block : ℕ
  pub block_hash : Text
  pub inserted_at : ℕ

-- The columns declared NULL are options.
pub record MempoolRow : Type 0 where
  pub chain_id : ℕ
  pub tx_hash : Text
  pub from_addr : Text
  pub to_addr : Text
  pub nonce : ℕ
  pub value : Text
  pub gas : ℕ
  pub gas_price : Option Text
  pub max_fee_per_gas : Option Text
  pub max_priority_fee_per_gas : Option Text
  pub tx_type : Option ℕ
  pub input : Text
  pub status : Text
  pub first_seen_at : ℕ
  pub last_seen_at : ℕ
  pub mined_block_number : Option ℕ
  pub mined_block_hash : Option Text
  pub mined_tx_index : Option ℕ
  pub replaced_by_tx_hash : Option Text
  pub decoded_input_json : Option Text
  pub inserted_at : ℕ

-- Rows stand in the order of their insertion.
pub record Db : Type 0 where
  pub logs : List LogRow
  pub checkpoints : List CheckpointRow
  pub next_id : ℕ
  pub mempool : List MempoolRow

pub record Database : Type 0 where
  pub fails : ℕ → Option Error
  pub now : ℕ → Time

-- The database and the number of statements sent to it so far.
pub record SqliteStore : Type 0 where
  pub db : Db
  pub calls : ℕ

abbrev pub Action : Type 0 → Type 0
Action A = Exec SqliteStore Error A

-- One statement that changes the tables.
unfoldable pub exec : Database → (Db → Db) → Action (Unit {0})
exec d change s = elim (d.fails s.calls) [
  | none ↦ (ok tt, record { db = change s.db; calls = s.calls + 1 })
  | some e ↦ (err e, record s { calls = s.calls + 1 })
]

-- One statement that reads.
unfoldable pub query : {A : Type 0} → Database → (Db → A) → Action A
query d read s = elim (d.fails s.calls) [
  | none ↦ (ok (read s.db), record s { calls = s.calls + 1 })
  | some e ↦ (err e, record s { calls = s.calls + 1 })
]
