-- ===== src/Common/Results.antt =====
-- A value or an error, for code that returns `(x, err)`.
use mathlib.Core.Path.{◌≡◌, refl, ap}
use mathlib.Core.Logic.{◌⊎◌, inl, inr}
use mathlib.Core.Bool.{Bool, true, false}
use mathlib.Core.Option.{Option, none, some}

pub data Result {ℓ κ} (E : Type κ) (A : Type ℓ) : Type (ℓ ⊔ κ) where
  ok : A → Result E A
  err : E → Result E A

module _ {μ} {E : Type μ} where
  -- `if test { return e }`
  abbrev pub refuse : Bool → E → Result E (Unit {0})
  refuse true e = err e
  refuse false e = ok tt

  -- `if !test { return e }`
  abbrev pub guard : Bool → E → Result E (Unit {0})
  guard false e = err e
  guard true e = ok tt

  -- The comma-ok form: `x, ok := …; if !ok { return e }`.
  abbrev pub or_err {ℓ} : {A : Type ℓ} → Option A → E → Result E A
  or_err none e = err e
  or_err (some a) e = ok a

infixl 5 ◌>>=◌ ◌>>◌
-- The step of a chain of calls that stops at the first error.
abbrev pub ◌>>=◌ {ℓ κ μ} :
    {E : Type μ} {A : Type ℓ} {B : Type κ} → Result E A → (A → Result E B) → Result E B
err e >>= next = err e
ok a >>= next = next a

abbrev pub ◌>>◌ {ℓ μ} : {E : Type μ} {B : Type ℓ} → Result E (Unit {0}) → Result E B → Result E B
first >> second = first >>= λ _. second

module _ {ℓ μ} {E : Type μ} {A : Type ℓ} where
  pub ok-injective : {a b : A} → ◌≡◌ {A = Result E A} (ok a) (ok b) → a ≡ b
  ok-injective h = cc

  -- A chain that ends well came through its first call.
  pub >>=-eq-ok {κ} :
      {B : Type κ} (m : Result E A) (f : A → Result E B) {b : B}
      → (m >>= f) ≡ ok b
      → (a : A) × (m ≡ ok a) × (f a ≡ ok b)
  >>=-eq-ok (err e) f h = cc
  >>=-eq-ok (ok a) f h = (a, refl, h)

  pub or_err-eq-ok : (o : Option A) (e : E) (a : A) → or_err o e ≡ ok a → o ≡ some a
  or_err-eq-ok none e a h = cc
  or_err-eq-ok (some b) e a h = ap some (ok-injective h)

pub Result-cases {ℓ κ} :
    {E : Type κ} {A : Type ℓ} (r : Result E A) → ((e : E) × (r ≡ err e)) ⊎ ((a : A) × (r ≡ ok a))
Result-cases (err e) = inl (e, refl)
Result-cases (ok a) = inr (a, refl)
