-- ===== src/Mempool/Subscriber/Hex.antt =====
-- parseHexUint of internal/mempool/subscriber.go. A rune that is not ASCII is no digit, and neither
-- is any byte of it.
pub mod Digits
use blockchain_data_feeds_po.Prelude.{
  ℕ, ◌+◌, ◌-◌, ◌*◌, ◌%◌, ◌&&◌, Text, lit, Option, none, some, [], ◌∷◌, ◌==◌, leb, if◌then◌else◌,
  add64, word,
}
use blockchain_data_feeds_po.Prelude.Exec.{Error, failed, Result, ok, err}

unfoldable pub hex_digit : ℕ → Option ℕ
hex_digit c =
    if leb b'0' c && leb c b'9'
    then some (c - b'0')
    else if leb b'a' c && leb c b'f'
    then some (c - b'a' + 10)
    else if leb b'A' c && leb c b'F'
    then some (c - b'A' + 10)
    else none

-- The loop, with `out` so far; `out <<= 4` drops the bits that do not fit.
unfoldable pub hex_value : ℕ → Text → Result Error ℕ
hex_value out [] = ok out
hex_value out (c ∷ v) = elim (hex_digit c) [
  | none ↦ err (failed (lit "invalid hex"))
  | some d ↦ hex_value (add64 (out * 16 % word) d) v
]

unfoldable pub parse_hex_uint : Text → Result Error ℕ
parse_hex_uint [] = hex_value 0 []
parse_hex_uint (c ∷ []) = hex_value 0 (c ∷ [])
parse_hex_uint (c ∷ d ∷ v) =
    let rest = parse_hex_uint v in
    if (c == b'0') && (d == b'x') then rest else hex_value 0 (c ∷ d ∷ v)
