-- ===== src/Mempool/Key.antt =====
-- fmtUint64 and fromNonceKey of internal/mempool/tracker.go.
pub mod Unique
mod Tests
use blockchain_data_feeds_po.Prelude.{
  ℕ, zero, suc, ◌+◌, ◌/◌, ◌%◌, Text, lit, List, [], ◌∷◌, ◌++◌, reverse, ◌==◌, if◌then◌else◌,
}

-- The loop over the digits, lowest first, on fuel.
unfoldable pub digits : ℕ → ℕ → Text
digits zero v = []
digits (suc fuel) v =
    let rest = digits fuel (v / 10) in if v == 0 then [] else (v % 10 + b'0') ∷ rest

-- A `uint64` has at most 20 digits.
unfoldable pub fmt_uint64 : ℕ → Text
fmt_uint64 v = if v == 0 then lit "0" else reverse (digits 20 v)

unfoldable pub from_nonce_key : Text → ℕ → Text
from_nonce_key from nonce = from ++ (lit ":" ++ fmt_uint64 nonce)
