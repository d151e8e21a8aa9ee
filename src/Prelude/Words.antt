-- ===== src/Prelude/Words.antt =====
-- `uint64` arithmetic, which wraps at 2 ^ 64.
use Prim.Native.Nat.{ℕ, ◌+◌, ◌-◌, ◌%◌}

-- 2 ^ 64
abbrev pub word : ℕ
word = 18446744073709551616

abbrev pub add64 : ℕ → ℕ → ℕ
add64 a b = (a + b) % word

abbrev pub sub64 : ℕ → ℕ → ℕ
sub64 a b = (a + word - b) % word
