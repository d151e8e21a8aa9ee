-- ===== src/Decode/Input/Bytes.antt =====
-- The bytes that DecodeInput of internal/decode/input.go looks at.
use blockchain_data_feeds_po.Decode.Abi.{Method}
use blockchain_data_feeds_po.Decode.Input.{InputDecoded}
use blockchain_data_feeds_po.Prelude.{
  ◌≢◌, ◌<◌, ◌++◌, ◌∙◌, has_prefix, drop, false, text_eq_iff, subst, sym, ℕ, ◌+◌, ◌*◌, ◌≤◌, ◌≡◌, ◌⊎◌,
  inl, inr, Text, lit, to_lower, is_empty, text_eq, Option, none, some, [], ◌∷◌, ◌||◌, true, length,
  ltb, lookup, arith, Bool-cases, Option-cases, refl,
}
use blockchain_data_feeds_po.Prelude.Exec.{Error, Result, ok, err, Result-cases}
use blockchain_data_feeds_po.Mempool.Subscriber.Hex.{hex_digit}
use blockchain_data_feeds_po.Decode.Abi.{Abi}
use blockchain_data_feeds_po.Decode.Registry.{Registry}
use blockchain_data_feeds_po.Decode.Input.{
  trim_prefix, with_byte, decode_string, decode_call, decode_hex, decode_input, failed, wrap,
}

with_byte_lem :
    (hi lo : Option ℕ) (rest : Result Error Text) (bytes : Text)
    → with_byte hi lo rest ≡ ok bytes
    → (a : ℕ) × (b : ℕ) × (tail : Text) × (hi ≡ some a)
      × (lo ≡ some b)
      × (rest ≡ ok tail)
      × (bytes ≡ (a * 16 + b) ∷ tail)
with_byte_lem none lo rest bytes h = cc
with_byte_lem (some a) none rest bytes h = cc
with_byte_lem (some a) (some b) (err e) bytes h = cc
with_byte_lem (some a) (some b) (ok tail) bytes h = (a, b, tail, refl, refl, refl, cc)

length-decode_string : (s bytes : Text) → decode_string s ≡ ok bytes → length s ≡ 2 * length bytes
unfolding decode_string
length-decode_string [] bytes h = ground (arith, h)
length-decode_string (c ∷ []) bytes h = cc
length-decode_string (c ∷ d ∷ s) bytes h =
    let (a, b, tail, _, _, e, same) =
      with_byte_lem (hex_digit c) (hex_digit d) (decode_string s) bytes h in
    rw same (omega (arith, length-decode_string s tail e))

-- Two digits a byte, the high one first.
abbrev pub Spells : Text → Text → Type 0
Spells [] [] = Unit
Spells [] (b ∷ bytes) = ⊥
Spells (c ∷ []) bytes = ⊥
Spells (c ∷ d ∷ s) [] = ⊥
Spells (c ∷ d ∷ s) (b ∷ bytes) =
    ((hi : ℕ) × (lo : ℕ) × (hex_digit c ≡ some hi) × (hex_digit d ≡ some lo) × (b ≡ hi * 16 + lo))
    × Spells s bytes

decode_string-Spells : (s bytes : Text) → decode_string s ≡ ok bytes → Spells s bytes
unfolding decode_string
decode_string-Spells [] [] h = tt
decode_string-Spells [] (b ∷ bytes) h = cc
decode_string-Spells (c ∷ []) bytes h = cc
decode_string-Spells (c ∷ d ∷ s) bytes h =
    let (hi, lo, tail, e, f, g, same) =
      with_byte_lem (hex_digit c) (hex_digit d) (decode_string s) bytes h in
    subst (Spells (c ∷ d ∷ s)) (sym same)
      ((hi, lo, e, f, omega arith), decode_string-Spells s tail g)

Spells-decode_string : (s bytes : Text) → Spells s bytes → decode_string s ≡ ok bytes
unfolding decode_string
Spells-decode_string [] [] h = refl
Spells-decode_string [] (b ∷ bytes) h = absurd h
Spells-decode_string (c ∷ []) bytes h = absurd h
Spells-decode_string (c ∷ d ∷ s) [] h = absurd h
Spells-decode_string (c ∷ d ∷ s) (b ∷ bytes) ((hi, lo, e, f, g), h) =
    rw (e, f, Spells-decode_string s bytes h, g) refl

four_bytes :
    (bytes : Text)
    → 4 ≤ length bytes
    → (a : ℕ) × (b : ℕ) × (c : ℕ) × (d : ℕ) × (rest : Text) × (bytes ≡ a ∷ b ∷ c ∷ d ∷ rest)
four_bytes [] h = absurd (omega arith)
four_bytes (a ∷ []) h = absurd (omega arith)
four_bytes (a ∷ b ∷ []) h = absurd (omega arith)
four_bytes (a ∷ b ∷ c ∷ []) h = absurd (omega arith)
four_bytes (a ∷ b ∷ c ∷ d ∷ rest) h = (a, b, c, d, rest, refl)

prefix_drop : (s p : Text) → has_prefix s p ≡ true → s ≡ p ++ drop (length p) s
unfolding has_prefix
prefix_drop s [] h = refl
prefix_drop [] (c ∷ p) h = cc
prefix_drop (b ∷ s) (c ∷ p) h = ground (arith, prefix_drop s p)

-- The text behind the prefix `0x`, or the text where it has none.
abbrev pub Bare : Text → Text → Type 0
Bare input_hex t =
    (input_hex ≡ lit "0x" ++ t) ⊎ ((has_prefix input_hex (lit "0x") ≡ false) × (t ≡ input_hex))

trim_prefix-Bare : (input_hex : Text) → Bare input_hex (trim_prefix input_hex (lit "0x"))
unfolding trim_prefix
trim_prefix-Bare input_hex = elim (Bool-cases (has_prefix input_hex (lit "0x"))) [
  | inl e ↦ inl (prefix_drop input_hex (lit "0x") e ∙ rw e refl)
  | inr e ↦ inr (e, rw e refl)
]

module _ {P V : Type 0} (abi : Abi P V) where
  -- Why call data are refused, by the text without its prefix.
  pub data Refused (reg : Registry P) (address t : Text) : Type 0 where
    unknown_address :
        lookup (to_lower (abi.hex_to_address address)) reg.abi_by_address ≡ none
        → Refused reg address t
    too_short : length t < 8 → Refused reg address t
    not_hex : ((bytes : Text) → Spells t bytes → ⊥) → Refused reg address t
    unknown_method :
        (parsed : P) (a b c d : ℕ) (rest : Text) (x : Error)
        → lookup (to_lower (abi.hex_to_address address)) reg.abi_by_address ≡ some parsed
        → Spells t (a ∷ b ∷ c ∷ d ∷ rest)
        → abi.method_by_id parsed (a ∷ b ∷ c ∷ d ∷ []) ≡ err x
        → Refused reg address t
    bad_arguments :
        (parsed : P) (a b c d : ℕ) (rest : Text) (method : Method) (x : Error)
        → lookup (to_lower (abi.hex_to_address address)) reg.abi_by_address ≡ some parsed
        → Spells t (a ∷ b ∷ c ∷ d ∷ rest)
        → abi.method_by_id parsed (a ∷ b ∷ c ∷ d ∷ []) ≡ ok method
        → abi.unpack method.inputs rest abi.no_args ≡ err x
        → Refused reg address t

  -- How call data are decoded, by the text without its prefix.
  abbrev pub Decoded : Registry P → Text → Text → Result Error (Option (InputDecoded V)) → Type 0
  Decoded reg address t r =
      (parsed : P) × (a : ℕ) × (b : ℕ) × (c : ℕ) × (d : ℕ) × (rest : Text) × (method : Method)
      × (args : V) × (lookup (to_lower (abi.hex_to_address address)) reg.abi_by_address
          ≡ some parsed)
      × Spells t (a ∷ b ∷ c ∷ d ∷ rest)
      × (abi.method_by_id parsed (a ∷ b ∷ c ∷ d ∷ []) ≡ ok method)
      × (abi.unpack method.inputs rest abi.no_args ≡ ok args)
      × (r ≡ ok (some (record { method = method.name; args = args })))

  abbrev Either : Registry P → Text → Text → Result Error (Option (InputDecoded V)) → Type 0
  Either reg address t r =
      ((e : Error) × (r ≡ err e) × Refused reg address t) ⊎ Decoded reg address t r

  decode_call-Either :
      (reg : Registry P) (address t bytes : Text) (parsed : P)
      → lookup (to_lower (abi.hex_to_address address)) reg.abi_by_address ≡ some parsed
      → Spells t bytes
      → 4 ≤ length bytes
      → Either reg address t (decode_call abi parsed bytes)
  unfolding decode_call
  decode_call-Either reg address t bytes parsed known spelt long =
      let (a, b, c, d, rest, same) = four_bytes bytes long in
      let spelt' : Spells t (a ∷ b ∷ c ∷ d ∷ rest) = subst (Spells t) same spelt in
      subst (λ (k : Text). Either reg address t (decode_call abi parsed k)) (sym same)
        (elim (Result-cases (abi.method_by_id parsed (a ∷ b ∷ c ∷ d ∷ []))) [
          | inr (x, e) ↦
              inl (x, rw (decode_call, e) refl, unknown_method parsed a b c d rest x known spelt' e)
          | inl (method, e) ↦ elim (Result-cases (abi.unpack method.inputs rest abi.no_args)) [
            | inr (x, f) ↦ inl (
              x,
              rw (decode_call, e, f) refl,
              bad_arguments parsed a b c d rest method x known spelt' e f,
            )
            | inl (args, f) ↦ inr (
              parsed,
              a,
              b,
              c,
              d,
              rest,
              method,
              args,
              known,
              spelt',
              e,
              f,
              rw (decode_call, e, f) refl,
            )
          ]
        ])

  decode_hex-Either :
      (reg : Registry P) (address t : Text) (parsed : P)
      → lookup (to_lower (abi.hex_to_address address)) reg.abi_by_address ≡ some parsed
      → Either reg address t (decode_hex abi parsed t)
  unfolding decode_hex
  decode_hex-Either reg address t parsed known = elim (Bool-cases (ltb (length t) 8)) [
    | inl short ↦ inl (
      failed (lit "input too short"),
      rw (decode_hex, short) refl,
      too_short (ground (arith, short)),
    )
    | inr long ↦ elim (Result-cases (decode_string t)) [
      | inr (x, f) ↦ inl (
        wrap (lit "decode input") [] x,
        rw (decode_hex, long, f) refl,
        not_hex (λ bytes spelt. let e = Spells-decode_string t bytes spelt in cc),
      )
      | inl (bytes, f) ↦
          let eq : decode_hex abi parsed t ≡ decode_call abi parsed bytes =
            rw (decode_hex, long, f) refl in
          subst (Either reg address t) (sym eq) (
            decode_call-Either reg address t bytes parsed known (decode_string-Spells t bytes f)
              (ground (arith, long, length-decode_string t bytes f)))
    ]
  ]

  -- For call data there is no result exactly where the text is empty or `0x`. Otherwise, behind
  -- the prefix `0x`, which may be missing, the text is two hexadecimal digits a byte, at least four
  -- bytes, of which the first four name the method and the others are its arguments, and the result
  -- has the name of that method and those arguments; or there is an error, and the address has no
  -- ABI, the text has fewer than eight digits or is not hexadecimal, the ABI does not know the
  -- method, or its arguments cannot be read.
  pub decode_input_lem :
      (reg : Registry P) (address input_hex : Text)
      → (((input_hex ≡ []) ⊎ (input_hex ≡ lit "0x"))
          × (decode_input abi reg address input_hex ≡ ok none))
        ⊎ ((input_hex ≢ [])
            × (input_hex ≢ lit "0x")
            × ((t : Text) × Bare input_hex t
                × (((e : Error) × (decode_input abi reg address input_hex ≡ err e)
                      × Refused reg address t)
                    ⊎ Decoded reg address t (decode_input abi reg address input_hex))))
  unfolding decode_input
  decode_input_lem reg address input_hex =
      let t = trim_prefix input_hex (lit "0x") in
      elim (Bool-cases (is_empty input_hex || text_eq input_hex (lit "0x"))) [
        | inl nothing ↦
            inl (ground (arith, nothing, text_eq_iff input_hex (lit "0x")), rw nothing refl)
        | inr something ↦ inr (
          λ e. ground (arith, something, e),
          λ e. ground (arith, something, text_eq_iff input_hex (lit "0x"), e),
          (
            t,
            trim_prefix-Bare input_hex,
            elim (Option-cases
                (lookup (to_lower (abi.hex_to_address address)) reg.abi_by_address)) [
                  | inl unknown ↦ inl (
                    failed (lit "no ABI for address"),
                    rw (something, unknown) refl,
                    unknown_address unknown,
                  )
                  | inr (parsed, e) ↦
                      let eq : decode_input abi reg address input_hex ≡ decode_hex abi parsed t =
                        rw (something, e) refl in
                      subst (Either reg address t) (sym eq)
                        (decode_hex-Either reg address t parsed e)
                ],
          ),
        )
      ]
