-- ===== src/Ui/Numbers.antt =====
-- The decimal numbers that cmd/ui/main.go reads: `strconv.Atoi` in parseInt, and `SetString` of a
-- `big.Int`.
use blockchain_data_feeds_po.Prelude.{
  ℕ, zero, suc, ◌+◌, ◌-◌, ◌*◌, ℤ, pos, negsuc, Bool, ◌&&◌, Text, is_empty, Option, none, some, [],
  ◌∷◌, ◌==◌, leb, ltb, if◌then◌else◌,
}

unfoldable pub digits_from : ℕ → Text → Option ℕ
digits_from n [] = some n
digits_from n (c ∷ v) =
    let rest = digits_from (n * 10 + (c - b'0')) v in
    if leb b'0' c && leb c b'9' then rest else none

-- At least one digit.
unfoldable pub natural : Text → Option ℕ
natural v = if is_empty v then none else digits_from 0 v

abbrev negated : ℕ → ℤ
negated zero = pos zero
negated (suc n) = negsuc n

abbrev as_pos : Option ℕ → Option ℤ
as_pos none = none
as_pos (some n) = some (pos n)

abbrev as_neg : Option ℕ → Option ℤ
as_neg none = none
as_neg (some n) = some (negated n)

-- A sign or none, and digits.
unfoldable pub set_string : Text → Option ℤ
set_string [] = none
set_string (c ∷ v) =
    if c == b'-'
    then as_neg (natural v)
    else if c == b'+'
    then as_pos (natural v)
    else as_pos (natural (c ∷ v))

-- The range of an `int` of 64 bits.
abbrev in_range : ℤ → Bool
in_range (pos n) = ltb n 9223372036854775808
in_range (negsuc n) = ltb n 9223372036854775808

abbrev or_else : Option ℤ → ℤ → ℤ
or_else none def = def
or_else (some n) def = if in_range n then n else def

-- `parseInt`
unfoldable pub parse_int : Text → ℤ → ℤ
parse_int v def = if is_empty v then def else or_else (set_string v) def

-- A limit as the store takes it.
abbrev pub limit_of : ℤ → ℕ
limit_of (pos n) = n
limit_of (negsuc n) = 0
