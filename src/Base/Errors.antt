-- ===== src/Base/Errors.antt =====
-- Go's pairs `(value, error)` as a sum, and Go's errors as chains over a package's sentinels.
use Prim.Native.Nat.{ℕ}
use Prim.Native.String.{String}
use mathlib.Core.Path.{◌≡◌, refl}
use mathlib.Core.Logic.{◌⊎◌, inl, inr}
use mathlib.Core.Bool.{Bool, true, false}
use mathlib.Core.List.{List}

pub data Result {ℓ κ} (E : Type ℓ) (A : Type κ) : Type (ℓ ⊔ κ) where
  ok : A → Result E A
  err : E → Result E A

infixl 5 ◌>>=◌ ◌>>◌
abbrev pub ◌>>=◌ {ℓ κ μ} :
    {E : Type ℓ} {A : Type κ} {B : Type μ} → Result E A → (A → Result E B) → Result E B
ok a >>= f = f a
err e >>= f = err e

abbrev pub ◌>>◌ {ℓ κ} : {E : Type ℓ} {B : Type κ} → Result E (Unit {0}) → Result E B → Result E B
m >> k = m >>= λ _. k

-- `if !test { return e }`
abbrev pub guard {ℓ} : {E : Type ℓ} → Bool → E → Result E (Unit {0})
guard true e = ok tt
guard false e = err e

-- An error value: `sentinel` is a package-level `errors.New`, `wrap` is `fmt.Errorf("…: %w", e)`,
-- `noted` is `fmt.Errorf("%w: %v", e, cause)`, and `opaque` is any other error with its text in
-- bytes, such as one of a driver.
pub data Error (S : Type 0) : Type 0 where
  sentinel : S → Error S
  wrap : String → Error S → Error S
  noted : Error S → Error S → Error S
  opaque : List ℕ → Error S

-- The value, or the error with some context: `fmt.Errorf("context: %w", err)`.
abbrev pub in_context {ℓ} :
    {S : Type 0} {A : Type ℓ} → String → Result (Error S) A → Result (Error S) A
in_context context (ok a) = ok a
in_context context (err e) = err (wrap context e)

-- `errors.Is` for the sentinel that `same` recognises
unfoldable pub is : {S : Type 0} → (S → Bool) → Error S → Bool
is same (sentinel s) = same s
is same (wrap _ e) = is same e
is same (noted e _) = is same e
is same (opaque _) = false

pub Result-cases {ℓ κ} :
    {E : Type ℓ} {A : Type κ} (r : Result E A) → ((a : A) × (r ≡ ok a)) ⊎ ((e : E) × (r ≡ err e))
Result-cases (ok a) = inl (a, refl)
Result-cases (err e) = inr (e, refl)
