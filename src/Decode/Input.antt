-- ===== src/Decode/Input.antt =====
-- internal/decode/input.go. A nil result is `none`.
pub mod Bytes
mod Tests
use blockchain_data_feeds_po.Prelude.{
  ℕ, ◌+◌, ◌*◌, ◌≤◌, ◌≡◌, Bool, Text, lit, to_lower, is_empty, text_eq, has_prefix, Option, none,
  some, List, [], ◌∷◌, ◌||◌, take, drop, length, ltb, if◌then◌else◌, Dict, lookup, arith,
  Option-cases, inl, inr, Bool-cases,
}
use blockchain_data_feeds_po.Prelude.Exec.{Error, failed, wrap, Result, ok, err, Result-cases}
use blockchain_data_feeds_po.Mempool.Subscriber.Hex.{hex_digit}
use blockchain_data_feeds_po.Decode.Abi.{Abi, Method}
use blockchain_data_feeds_po.Decode.Registry.{Registry}

pub record InputDecoded (V : Type 0) : Type 0 where
  pub method : Text
  pub args : V

-- `strings.TrimPrefix`
unfoldable pub trim_prefix : Text → Text → Text
trim_prefix s p = if has_prefix s p then drop (length p) s else s

-- A byte before the ones that follow.
abbrev with_byte : Option ℕ → Option ℕ → Result Error Text → Result Error Text
with_byte none lo rest = err (failed (lit "encoding/hex: invalid byte"))
with_byte (some h) none rest = err (failed (lit "encoding/hex: invalid byte"))
with_byte (some h) (some l) (err e) = err e
with_byte (some h) (some l) (ok bytes) = ok ((h * 16 + l) ∷ bytes)

-- `hex.DecodeString`: two digits a byte.
unfoldable pub decode_string : Text → Result Error Text
decode_string [] = ok []
decode_string (c ∷ []) = err (failed (lit "encoding/hex: odd length hex string"))
decode_string (c ∷ d ∷ s) = with_byte (hex_digit c) (hex_digit d) (decode_string s)

module _ {P V : Type 0} (abi : Abi P V) where
  -- The arguments of a call, behind the four bytes that name its method.
  unfoldable pub decode_call : P → Text → Result Error (Option (InputDecoded V))
  decode_call parsed data_bytes = elim (abi.method_by_id parsed (take 4 data_bytes)) [
    | err e ↦ err e
    | ok method ↦ elim (abi.unpack method.inputs (drop 4 data_bytes) abi.no_args) [
      | err e ↦ err e
      | ok args ↦ ok (some (record { method = method.name; args = args }))
    ]
  ]

  -- The text without its prefix.
  unfoldable pub decode_hex : P → Text → Result Error (Option (InputDecoded V))
  decode_hex parsed input_hex =
      if ltb (length input_hex) 8
      then err (failed (lit "input too short"))
      else elim (decode_string input_hex) [
        | err e ↦ err (wrap (lit "decode input") [] e)
        | ok data_bytes ↦ decode_call parsed data_bytes
      ]

  unfoldable pub decode_input : Registry P → Text → Text → Result Error (Option (InputDecoded V))
  decode_input reg address input_hex =
      if is_empty input_hex || text_eq input_hex (lit "0x")
      then ok none
      else elim (lookup (to_lower (abi.hex_to_address address)) reg.abi_by_address) [
        | none ↦ err (failed (lit "no ABI for address"))
        | some parsed ↦ decode_hex parsed (trim_prefix input_hex (lit "0x"))
      ]
