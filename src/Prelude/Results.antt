-- ===== src/Prelude/Results.antt =====
-- A result of code that may fail, over a type of errors.
use mathlib.Core.Path.{◌≡◌, refl, ap}
use mathlib.Core.Logic.{◌⊎◌, inl, inr}
use mathlib.Core.Bool.{Bool, true, false}

pub data Result {ℓ κ} (E : Type κ) (A : Type ℓ) : Type (ℓ ⊔ κ) where
  ok : A → Result E A
  err : E → Result E A

infixl 5 ◌>>=◌ ◌>>◌
abbrev pub ◌>>=◌ {ℓ κ μ} :
    {E : Type κ} {A : Type ℓ} {B : Type μ} → Result E A → (A → Result E B) → Result E B
ok a >>= f = f a
err e >>= f = err e

abbrev pub ◌>>◌ {ℓ κ} : {E : Type κ} {B : Type ℓ} → Result E (Unit {0}) → Result E B → Result E B
m >> k = m >>= λ _. k

-- `if !b { return e }`
abbrev pub guard {κ} : {E : Type κ} → Bool → E → Result E (Unit {0})
guard true e = ok tt
guard false e = err e

module _ {ℓ κ μ} {E : Type κ} {A : Type ℓ} {B : Type μ} where
  -- A chain that succeeds, taken apart: the first result and what the rest makes of it.
  pub >>=-eq-ok :
      (first : Result E A) (rest : A → Result E B) {out : B}
      → (first >>= rest) ≡ ok out
      → (mid : A) × (first ≡ ok mid) × (rest mid ≡ ok out)
  >>=-eq-ok (err e) rest h = cc
  >>=-eq-ok (ok mid) rest h = (mid, refl, h)

pub guard-eq-ok {κ} : {E : Type κ} (b : Bool) (e : E) {u : Unit {0}} → guard b e ≡ ok u → b ≡ true
guard-eq-ok true e h = refl
guard-eq-ok false e h = cc

pub Result-cases {ℓ κ} :
    {E : Type κ} {A : Type ℓ} (r : Result E A) → ((a : A) × (r ≡ ok a)) ⊎ ((e : E) × (r ≡ err e))
Result-cases (ok a) = inl (a, refl)
Result-cases (err e) = inr (e, refl)

pub ok_injective {ℓ κ} :
    {E : Type κ} {A : Type ℓ} (a b : A) → ◌≡◌ {A = Result E A} (ok a) (ok b) → a ≡ b
ok_injective {E = E} {A = A} a b h = ap from h
  where
    from : Result E A → A
    from (ok x) = x
    from (err e) = a

pub err_injective {ℓ κ} :
    {E : Type κ} {A : Type ℓ} (d e : E) → ◌≡◌ {A = Result E A} (err d) (err e) → d ≡ e
err_injective {E = E} {A = A} d e h = ap from h
  where
    from : Result E A → E
    from (ok x) = d
    from (err x) = x
