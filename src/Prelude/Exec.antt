-- ===== src/Prelude/Exec.antt =====
-- Errors, results with errors, and actions on a state that may fail.
use mathlib.Core.List.{List}
use mathlib.Core.Path.{◌≡◌, refl}
use mathlib.Core.Logic.{◌⊎◌, inl, inr}
use Prim.Native.Nat.{ℕ}
use blockchain_data_feeds_po.Prelude.Strings.{Text}
use blockchain_data_feeds_po.Prelude.Int.{ℤ}

-- A failure with its text, from outside the program or from it; the errors of the RPC client; or an
-- error wrapped by `fmt.Errorf` with its text and numbers.
pub data Error : Type 0 where
  failed : Text → Error
  too_many_results : Error
  http_status : ℕ → Error
  rpc_failed : ℤ → Text → Error
  wrap : Text → List ℕ → Error → Error

pub data Result {ℓ κ} (E : Type κ) (A : Type ℓ) : Type (ℓ ⊔ κ) where
  ok : A → Result E A
  err : E → Result E A

-- An action returns or fails, and leaves a state in both cases.
abbrev pub Exec {ℓ κ μ} : Type μ → Type κ → Type ℓ → Type (ℓ ⊔ κ ⊔ μ)
Exec S E A = S → Result E A × S

module _ {ℓ κ μ} {S : Type μ} {E : Type κ} {A : Type ℓ} where
  abbrev pub pure : A → Exec S E A
  pure a s = (ok a, s)

  abbrev pub raise : E → Exec S E A
  raise e s = (err e, s)

-- What follows a result, in the state that came with it.
abbrev pub go_on {ℓ} : {S E A B : Type ℓ} → Result E A → S → (A → Exec S E B) → Result E B × S
go_on (ok a) s f = f a s
go_on (err e) s f = (err e, s)

infixl 5 ◌>>=◌ ◌>>◌
abbrev pub ◌>>=◌ {ℓ} : {S E A B : Type ℓ} → Exec S E A → (A → Exec S E B) → Exec S E B
◌>>=◌ m f s = let (r, s') = m s in go_on r s' f

abbrev pub ◌>>◌ {ℓ} : {S E A B : Type ℓ} → Exec S E A → Exec S E B → Exec S E B
m >> k = m >>= λ _. k

-- An action whose failure is looked at by what follows.
abbrev pub attempt {ℓ} : {S E A : Type ℓ} → Exec S E A → Exec S E (Result E A)
attempt m s = let (r, s') = m s in (ok r, s')

pub Result-cases {ℓ κ} :
    {E : Type κ} {A : Type ℓ} (r : Result E A) → ((a : A) × (r ≡ ok a)) ⊎ ((e : E) × (r ≡ err e))
Result-cases (ok a) = inl (a, refl)
Result-cases (err e) = inr (e, refl)
