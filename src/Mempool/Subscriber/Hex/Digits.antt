-- ===== src/Mempool/Subscriber/Hex/Digits.antt =====
-- What parseHexUint of internal/mempool/subscriber.go reads.
use blockchain_data_feeds_po.Prelude.{
  false, ◌==◌, ℕ, ◌+◌, ◌-◌, ◌*◌, ◌%◌, ◌<◌, ◌≡◌, refl, ◌∙◌, ap, Text, lit, some, List, [], ◌∷◌, ◌++◌,
  map, ltb, if◌then◌else◌, word, All, arith, add64,
}
use blockchain_data_feeds_po.Prelude.Exec.{ok}
use blockchain_data_feeds_po.Mempool.Subscriber.Hex.{hex_digit, hex_value, parse_hex_uint}

-- The lower-case digit of a number below 16, and the number with these digits.
abbrev pub hex_char : ℕ → ℕ
hex_char d = if ltb d 10 then b'0' + d else b'a' + (d - 10)

abbrev pub number_of : ℕ → List ℕ → ℕ
number_of n [] = n
number_of n (d ∷ ds) = number_of (n * 16 + d) ds

abbrev pub IsHex : ℕ → Type 0
IsHex d = d < 16

hex_digit-hex_char : (d : ℕ) → d < 16 → hex_digit (hex_char d) ≡ some d
unfolding hex_digit
hex_digit-hex_char d h = ground arith

hex_char_x : (d : ℕ) → d < 16 → (hex_char d == b'x') ≡ false
hex_char_x d h = ground arith

push_digit : (n d : ℕ) → d < 16 → add64 (n % word * 16 % word) d ≡ (n * 16 + d) % word
push_digit n d h = omega arith

hex_value_step :
    (out c d : ℕ) (v : Text)
    → hex_digit c ≡ some d
    → hex_value out (c ∷ v) ≡ hex_value (add64 (out * 16 % word) d) v
unfolding hex_value
hex_value_step out c d v e = rw (hex_value, e) refl

hex_value-map :
    (n : ℕ) (ds : List ℕ)
    → All IsHex ds
    → hex_value (n % word) (map hex_char ds) ≡ ok (number_of n ds % word)
unfolding hex_value
hex_value-map n [] a = refl
hex_value-map n (d ∷ ds) (h, a) =
    hex_value_step (n % word) (hex_char d) d (map hex_char ds) (hex_digit-hex_char d h)
    ∙ ap (λ m. hex_value m (map hex_char ds)) (push_digit n d h)
    ∙ hex_value-map (n * 16 + d) ds a

-- Lower-case digits behind `0x` are read as their number modulo 2 ^ 64: any number of digits is
-- taken, also none, and no overflow is reported.
pub parse_hex_uint-map :
    (ds : List ℕ)
    → All IsHex ds
    → parse_hex_uint (lit "0x" ++ map hex_char ds) ≡ ok (number_of 0 ds % word)
unfolding parse_hex_uint
parse_hex_uint-map [] a = hex_value-map 0 [] a
parse_hex_uint-map (d ∷ []) a = hex_value-map 0 (d ∷ []) a
parse_hex_uint-map (d ∷ e ∷ ds) (h, (k, a)) =
    rw (hex_char_x e k) (ground (arith, hex_value-map 0 (d ∷ e ∷ ds) (h, (k, a))))
