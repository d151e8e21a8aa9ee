-- ===== src/Rpc/Interface.antt =====
-- What the indexer uses of internal/rpc: the data and the calls of the client.
-- An address, a hash and call data of go-ethereum stand as the text of their `Hex` methods.
use blockchain_data_feeds_po.Prelude.{ℕ, Text, List, Option}
use blockchain_data_feeds_po.Prelude.Exec.{Error, Result, Exec}
use blockchain_data_feeds_po.Store.Types.{Time}

pub record LogFilter : Type 0 where
  pub from_block : Text
  pub to_block : Text
  pub address : List Text
  pub topics : List (List Text)

-- `types.Log` of go-ethereum, the fields that the program reads. `log_data` is the raw data.
pub record Log : Type 0 where
  pub address : Text
  pub topics : List Text
  pub log_data : Text
  pub block_number : ℕ
  pub block_hash : Text
  pub tx_hash : Text
  pub index : ℕ

pub record BlockHeader : Type 0 where
  pub number : ℕ
  pub hash : Text
  pub timestamp : Time

-- The numbers of `hexutil.Uint64` and `hexutil.Big` are plain; a nil pointer is `none`.
pub record RpcTransaction : Type 0 where
  pub hash : Text
  pub from_addr : Text
  pub to_addr : Option Text
  pub nonce : ℕ
  pub value : Option ℕ
  pub gas : ℕ
  pub gas_price : Option ℕ
  pub max_fee_per_gas : Option ℕ
  pub max_priority_fee_per_gas : Option ℕ
  pub tx_type : Option ℕ
  pub input : Text

pub record RpcReceipt : Type 0 where
  pub transaction_hash : Text
  pub block_hash : Text
  pub block_number : Option ℕ
  pub transaction_index : Option ℕ
  pub status : Option ℕ

-- go-ethereum's hexutil, which is outside the program.
pub record Hexutil : Type 0 where
  pub encode_uint64 : ℕ → Text
  pub decode_uint64 : Text → Result Error ℕ
  pub encode : Text → Text

-- The calls of the client, over the state of its connection.
pub record Rpc (C : Type 0) : Type 0 where
  pub get_block_number : Exec C Error ℕ
  pub get_block_by_number : ℕ → Exec C Error BlockHeader
  pub get_logs : LogFilter → Exec C Error (List Log)
  pub get_transaction_by_hash : Text → Exec C Error (Option RpcTransaction)
  pub get_transaction_receipt : Text → Exec C Error (Option RpcReceipt)
