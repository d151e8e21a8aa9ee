-- ===== src/Mempool/Key/Tests.antt =====
-- Runs of the key.
use blockchain_data_feeds_po.Prelude.{ℕ, lit, ◌≡◌, refl, arith}
use blockchain_data_feeds_po.Mempool.Key.Unique.{
  decimal, decimal-fmt_uint64, from_nonce_key_injective,
}
use blockchain_data_feeds_po.Mempool.Key.{digits, fmt_uint64, from_nonce_key}

largest : fmt_uint64 18446744073709551615 ≡ lit "18446744073709551615"
unfolding fmt_uint64 digits
largest = refl

key_of : from_nonce_key (lit "0xfrom") 10 ≡ lit "0xfrom:10"
unfolding from_nonce_key fmt_uint64 digits
key_of = refl

decimal-fmt_uint64_example : decimal (fmt_uint64 18446744073709551615) ≡ 18446744073709551615
decimal-fmt_uint64_example = decimal-fmt_uint64 18446744073709551615 (omega arith)

from_nonce_key_injective_example : (lit "a:1" ≡ lit "a:1") × (◌≡◌ {A = ℕ} 10 10)
from_nonce_key_injective_example =
    from_nonce_key_injective (lit "a:1") (lit "a:1") 10 10 (omega arith) (omega arith) refl
