-- ===== src/Prelude/Lists.antt =====
-- Lists measured by native numbers, under the library's names, and the quantifiers over a list.
use Prim.Native.Nat.{ℕ, zero, suc, ◌+◌}
use mathlib.Core.Path.{◌≡◌, refl, sym, ap, subst, ◌∙◌}
use mathlib.Core.Logic.{◌⊎◌, inl, inr, ◌≢◌}
use mathlib.Core.Bool.{Bool, true, false}
use mathlib.Core.Option.{Option, none, some}
use mathlib.Core.List.{List, [], ◌∷◌, ◌++◌, map}
use native.Mathlib.Omega.{arith}

module _ {ℓ} {A : Type ℓ} where
  abbrev pub length : List A → ℕ
  length [] = 0
  length (x ∷ xs) = suc (length xs)

  abbrev pub get_elem? : List A → ℕ → Option A
  get_elem? [] i = none
  get_elem? (x ∷ xs) zero = some x
  get_elem? (x ∷ xs) (suc i) = get_elem? xs i

  -- A write out of bounds changes nothing.
  abbrev pub set : List A → ℕ → A → List A
  set [] i v = []
  set (x ∷ xs) zero v = v ∷ xs
  set (x ∷ xs) (suc i) v = x ∷ set xs i v

  abbrev pub is_empty : List A → Bool
  is_empty [] = true
  is_empty (x ∷ xs) = false

  abbrev pub All {κ} : (A → Type κ) → List A → Type κ
  All P [] = Unit
  All P (x ∷ xs) = P x × All P xs

  pub length-append : (xs ys : List A) → length (xs ++ ys) ≡ length xs + length ys
  length-append [] ys = omega arith
  length-append (x ∷ xs) ys = omega (arith, length-append xs ys)

-- The members, with the witness kept.
abbrev pub In : {A : Type 0} → A → List A → Type 0
In a [] = ⊥
In a (x ∷ xs) = (x ≡ a) ⊎ In a xs

pub All-In {κ} : {A : Type 0} (P : A → Type κ) (xs : List A) → ((a : A) → In a xs → P a) → All P xs
All-In P [] h = tt
All-In P (x ∷ xs) h = (h x (inl refl), All-In P xs (λ a m. h a (inr m)))

pub In-All {κ} : {A : Type 0} (P : A → Type κ) (xs : List A) → All P xs → (a : A) → In a xs → P a
In-All P [] h a m = absurd m
In-All P (x ∷ xs) h a (inl e) = subst P e h.0
In-All P (x ∷ xs) h a (inr m) = In-All P xs h.1 a m

-- The numbers from `start`, `count` of them.
abbrev pub range : ℕ → ℕ → List ℕ
range start zero = []
range start (suc count) = start ∷ range (start + 1) count

-- No member twice.
abbrev pub Distinct : {A : Type 0} → List A → Type 0
Distinct [] = Unit
Distinct (x ∷ xs) = All (λ y. x ≢ y) xs × Distinct xs

module _ {A : Type 0} where
  pub In-append : (a : A) (xs ys : List A) → In a xs ⊎ In a ys → In a (xs ++ ys)
  In-append a [] ys (inl i) = absurd i
  In-append a [] ys (inr i) = i
  In-append a (x ∷ xs) ys (inl (inl e)) = inl e
  In-append a (x ∷ xs) ys (inl (inr i)) = inr (In-append a xs ys (inl i))
  In-append a (x ∷ xs) ys (inr i) = inr (In-append a xs ys (inr i))

  pub append-In : (a : A) (xs ys : List A) → In a (xs ++ ys) → In a xs ⊎ In a ys
  append-In a [] ys i = inr i
  append-In a (x ∷ xs) ys (inl e) = inl (inl e)
  append-In a (x ∷ xs) ys (inr i) = elim (append-In a xs ys i) [
    | inl there ↦ inl (inr there)
    | inr behind ↦ inr behind
  ]

  pub All-append {κ} : (P : A → Type κ) (xs ys : List A) → All P xs → All P ys → All P (xs ++ ys)
  All-append P [] ys p q = q
  All-append P (x ∷ xs) ys p q = (p.0, All-append P xs ys p.1 q)

module _ {A B : Type 0} (f : A → B) where
  pub In-map : (a : A) (l : List A) → In a l → In (f a) (map f l)
  In-map a [] i = i
  In-map a (x ∷ l) (inl e) = inl (ap f e)
  In-map a (x ∷ l) (inr i) = inr (In-map a l i)

  pub map-In : (b : B) (l : List A) → In b (map f l) → (a : A) × (In a l × (f a ≡ b))
  map-In b [] i = absurd i
  map-In b (x ∷ l) (inl e) = (x, (inl refl, e))
  map-In b (x ∷ l) (inr i) = let (a, (there, e)) = map-In b l i in (a, (inr there, e))

  -- An element is the only one with its key.
  pub same_of_key :
      (a b : A) (l : List A) → Distinct (map f l) → In a l → In b l → f a ≡ f b → a ≡ b
  same_of_key a b [] d i j same = absurd i
  same_of_key a b (x ∷ l) d (inl p) (inl q) same = sym p ∙ q
  same_of_key a b (x ∷ l) d (inl p) (inr j) same =
      absurd (In-All (λ y. f x ≢ y) (map f l) d.0 (f b) (In-map b l j) (ap f p ∙ same))
  same_of_key a b (x ∷ l) d (inr i) (inl q) same =
      absurd (In-All (λ y. f x ≢ y) (map f l) d.0 (f a) (In-map a l i) (ap f q ∙ sym same))
  same_of_key a b (x ∷ l) d (inr i) (inr j) same = same_of_key a b l d.1 i j same
