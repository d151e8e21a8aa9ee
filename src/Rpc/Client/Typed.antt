-- ===== src/Rpc/Client/Typed.antt =====
-- The typed calls of internal/rpc/client.go: what the rest of the program takes as `Rpc`.
pub mod Headers
use blockchain_data_feeds_po.Prelude.{
  ℕ, ◌+◌, ◌-◌, Bool, false, Text, lit, Option, none, some, List, [], ◌∷◌, ltb, if◌then◌else◌,
  is_empty, text_eq,
}
use blockchain_data_feeds_po.Prelude.Exec.{
  Error, failed, wrap, Result, ok, err, Exec, pure, raise, ◌>>=◌,
}
use blockchain_data_feeds_po.Store.Types.{Time, from_unix}
use blockchain_data_feeds_po.Rpc.Interface.{
  LogFilter, Log, BlockHeader, RpcTransaction, RpcReceipt, Hexutil, Rpc,
}
use blockchain_data_feeds_po.Rpc.Client.{
  text, flag, filter, BlockResponse, Json, Transport, Client, Conn, call,
}

-- `time.Unix(int64(ts), 0)`: the seconds count from 1970, and those from 2 ^ 63 on are negative.
-- A time before year 1 is the first one here.
unfoldable pub unix_time : ℕ → Time
unix_time ts =
    let epoch : ℕ = 62135596800 in
    if ltb ts 9223372036854775808
    then from_unix (epoch + ts)
    else from_unix (epoch + ts - 18446744073709551616)

-- An error of hexutil, wrapped.
abbrev pub decoded :
    {A : Type 0} → Text → Result Error A → (A → Result Error BlockHeader) → Result Error BlockHeader
decoded what (ok a) f = f a
decoded what (err e) f = err (wrap what [] e)

unfoldable pub to_header : Hexutil → BlockResponse → Result Error BlockHeader
to_header hex b =
    if is_empty b.number
    then err (failed (lit "block not found"))
    else decoded (lit "decode block number") (hex.decode_uint64 b.number) (λ num.
      decoded (lit "decode timestamp") (hex.decode_uint64 b.timestamp)
        (λ ts. ok (record { number = num; hash = b.hash; timestamp = unix_time ts })))

module _ {C R : Type 0} (t : Transport C) (json : Json) (hex : Hexutil) (client : Client R) where
  abbrev pub lift : {A : Type 0} → Result Error A → Exec (Conn C) Error A
  lift r c = (r, c)

  unfoldable pub get_block_number : Exec (Conn C) Error ℕ
  get_block_number = do
    hex_num ← call t json client (lit "eth_blockNumber") [] json.string
    lift (hex.decode_uint64 hex_num)

  unfoldable pub get_block_by_number : ℕ → Exec (Conn C) Error BlockHeader
  get_block_by_number number = do
    raw ←
        call t json client (lit "eth_getBlockByNumber")
          (text (hex.encode_uint64 number) ∷ flag false ∷ []) json.block
    lift (to_header hex raw)

  unfoldable pub get_block_hash_by_number : ℕ → Exec (Conn C) Error Text
  get_block_hash_by_number number = do h ← get_block_by_number number; pure h.hash

  unfoldable pub get_logs : LogFilter → Exec (Conn C) Error (List Log)
  get_logs f = call t json client (lit "eth_getLogs") (filter f ∷ []) json.logs

  -- A result that may be the JSON null.
  unfoldable pub nullable :
      {A : Type 0} → (Text → Result Error A) → Text → Exec (Conn C) Error (Option A)
  nullable parse raw =
      if text_eq raw (lit "null") then pure none else (do a ← lift (parse raw); pure (some a))

  unfoldable pub get_transaction_by_hash : Text → Exec (Conn C) Error (Option RpcTransaction)
  get_transaction_by_hash hash = do
    raw ← call t json client (lit "eth_getTransactionByHash") (text hash ∷ []) json.raw
    nullable json.transaction raw

  unfoldable pub get_transaction_receipt : Text → Exec (Conn C) Error (Option RpcReceipt)
  get_transaction_receipt hash = do
    raw ← call t json client (lit "eth_getTransactionReceipt") (text hash ∷ []) json.raw
    nullable json.receipt raw

  -- The client as the rest of the program takes it.
  unfoldable pub client_rpc : Rpc (Conn C)
  client_rpc = record {
    get_block_number = get_block_number;
    get_block_by_number = get_block_by_number;
    get_logs = get_logs;
    get_transaction_by_hash = get_transaction_by_hash;
    get_transaction_receipt = get_transaction_receipt;
  }
