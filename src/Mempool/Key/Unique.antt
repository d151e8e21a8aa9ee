-- ===== src/Mempool/Key/Unique.antt =====
-- The keys of internal/mempool/tracker.go read back.
use mathlib.Core.List.{reverse-cons, reverse-reverse}
use native.Mathlib.Nat.{pow-suc}
use blockchain_data_feeds_po.Prelude.{
  subst, ℕ, zero, suc, ◌+◌, ◌*◌, ◌/◌, ◌^◌, ◌<◌, ◌≡◌, ◌≢◌, refl, sym, ◌∙◌, ap, Text, [], ◌∷◌, ◌++◌,
  reverse, ◌==◌, arith, word, All, Bool-cases, inl, inr, ◌-◌,
}
use blockchain_data_feeds_po.Mempool.Key.{digits, fmt_uint64, from_nonce_key}

-- The number that a text of digits stands for, lowest digit first.
unfoldable pub value : Text → ℕ
value [] = 0
value (c ∷ t) = (c - b'0') + 10 * value t

digits_value : (fuel v : ℕ) → v < 10 ^ fuel → value (digits fuel v) ≡ v
unfolding digits value
digits_value zero v h = omega arith
digits_value (suc fuel) v h = elim (Bool-cases (v == 0)) [
  | inl e ↦ rw e (ground (arith, e))
  | inr e ↦ rw e (omega (arith, digits_value fuel (v / 10) (omega (arith, pow-suc 10 fuel))))
]

-- The number that a decimal text stands for.
unfoldable pub decimal : Text → ℕ
unfolding value
decimal t = value (reverse t)

-- Printing a number below 2 ^ 64 and reading the text as a decimal number gives it back.
pub decimal-fmt_uint64 : (v : ℕ) → v < word → decimal (fmt_uint64 v) ≡ v
unfolding decimal fmt_uint64
decimal-fmt_uint64 v h = elim (Bool-cases (v == 0)) [
  | inl e ↦ rw e (ground (arith, e))
  | inr e ↦ rw (e, reverse-reverse (digits 20 v)) (digits_value 20 v (omega arith))
]

-- No digit is a colon.
abbrev NoColon : Text → Type 0
NoColon = All (λ c. c ≢ b':')

All-append : (P : ℕ → Type 0) (xs ys : Text) → All P xs → All P ys → All P (xs ++ ys)
All-append P [] ys a b = b
All-append P (x ∷ xs) ys a b = (a.0, All-append P xs ys a.1 b)

All-reverse : (P : ℕ → Type 0) (xs : Text) → All P xs → All P (reverse xs)
All-reverse P [] a = a
All-reverse P (x ∷ xs) a =
    rw (reverse-cons x xs) (All-append P (reverse xs) (x ∷ []) (All-reverse P xs a.1) (a.0, tt))

digits-NoColon : (fuel v : ℕ) → NoColon (digits fuel v)
unfolding digits
digits-NoColon zero v = tt
digits-NoColon (suc fuel) v = elim (Bool-cases (v == 0)) [
  | inl e ↦ rw e tt
  | inr e ↦ rw e (omega arith, digits-NoColon fuel (v / 10))
]

fmt_uint64-NoColon : (v : ℕ) → NoColon (fmt_uint64 v)
unfolding fmt_uint64
fmt_uint64-NoColon v = elim (Bool-cases (v == 0)) [
  | inl e ↦ rw e (omega arith)
  | inr e ↦ rw e (All-reverse (λ c. c ≢ b':') (digits 20 v) (digits-NoColon 20 v))
]

colon_inside : (b e : Text) → ¬ NoColon (b ++ (b':' ∷ e))
colon_inside [] e a = a.0 refl
colon_inside (x ∷ b) e a = colon_inside b e a.1

rest_of : Text → Text
rest_of [] = []
rest_of (x ∷ t) = t

-- A text is cut at its last colon in one way.
cut_once :
    (a b d e : Text) → NoColon d → NoColon e → a ++ (b':' ∷ d) ≡ b ++ (b':' ∷ e) → (a ≡ b) × (d ≡ e)
unfolding rest_of
cut_once [] [] d e nd ne h = (refl, ap rest_of h)
cut_once [] (y ∷ b) d e nd ne h = absurd (colon_inside b e (subst NoColon (ap rest_of h) nd))
cut_once (x ∷ a) [] d e nd ne h = absurd (colon_inside a d (subst NoColon (sym (ap rest_of h)) ne))
cut_once (x ∷ a) (y ∷ b) d e nd ne h =
    let (same, rest) = cut_once a b d e nd ne (ap rest_of h) in (ground (arith, h, same), rest)

-- Two senders with nonces below 2 ^ 64 that have one key are the same sender with the same nonce,
-- whatever the sender texts hold.
pub from_nonce_key_injective :
    (a b : Text) (n m : ℕ)
    → n < word
    → m < word
    → from_nonce_key a n ≡ from_nonce_key b m
    → (a ≡ b) × (n ≡ m)
unfolding from_nonce_key
from_nonce_key_injective a b n m fn fm h =
    let (same, texts) =
      cut_once a b (fmt_uint64 n) (fmt_uint64 m) (fmt_uint64-NoColon n) (fmt_uint64-NoColon m) h in
    (same, sym (decimal-fmt_uint64 n fn) ∙ ap decimal texts ∙ decimal-fmt_uint64 m fm)
