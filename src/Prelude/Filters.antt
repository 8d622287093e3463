-- ===== src/Prelude/Filters.antt =====
-- The loops that keep the elements that pass a test, that find the first, and that ask for one.
use mathlib.Core.Path.{◌≡◌, refl, sym, subst}
use mathlib.Core.Logic.{inl, inr}
use mathlib.Core.Bool.{Bool, true, false, ◌||◌}
use mathlib.Core.Option.{Option, none, some}
use mathlib.Core.List.{List, [], ◌∷◌}
use llm_k8s_redis.Prelude.Tests.{if◌then◌else◌, Bool-cases}
use llm_k8s_redis.Prelude.Lists.{In}
use native.Mathlib.Omega.{arith}

module _ {A : Type 0} (test : A → Bool) where
  unfoldable pub filter : List A → List A
  filter [] = []
  filter (a ∷ l) = let rest = filter l in if test a then a ∷ rest else rest

  unfoldable pub find : List A → Option A
  find [] = none
  find (a ∷ l) = let rest = find l in if test a then some a else rest

  unfoldable pub any : List A → Bool
  any [] = false
  any (a ∷ l) = let rest = any l in test a || rest

  pub In-filter : (x : A) (l : List A) → In x l → test x ≡ true → In x (filter l)
  unfolding filter
  In-filter x [] i good = i
  In-filter x (a ∷ l) (inl e) good =
      let passed : test a ≡ true = subst (λ y. test y ≡ true) (sym e) good in rw passed (inl e)
  In-filter x (a ∷ l) (inr i) good = elim (Bool-cases (test a)) [
    | inl passed ↦ rw passed (inr (In-filter x l i good))
    | inr refused ↦ rw refused (In-filter x l i good)
  ]

  pub filter-In : (x : A) (l : List A) → In x (filter l) → In x l × (test x ≡ true)
  unfolding filter
  filter-In x [] i = absurd i
  filter-In x (a ∷ l) i = elim (Bool-cases (test a)) [
    | inl passed ↦ elim (rw passed at i) [
      | inl e ↦ (inl e, subst (λ y. test y ≡ true) e passed)
      | inr there ↦ let (found, good) = filter-In x l there in (inr found, good)
    ]
    | inr refused ↦ let (found, good) = filter-In x l (rw refused at i) in (inr found, good)
  ]

  pub find-In : (x : A) (l : List A) → find l ≡ some x → In x l × (test x ≡ true)
  unfolding find
  find-In x [] h = absurd (cc)
  find-In x (a ∷ l) h = elim (Bool-cases (test a)) [
    | inl passed ↦
        let same : some a ≡ some x = rw passed at h in let a≡x : a ≡ x = cc in (inl a≡x, cc)
    | inr refused ↦ let (found, good) = find-In x l (rw refused at h) in (inr found, good)
  ]

  pub find-none : (x : A) (l : List A) → find l ≡ none → In x l → test x ≡ false
  unfolding find
  find-none x [] h i = absurd i
  find-none x (a ∷ l) h i = elim (Bool-cases (test a)) [
    | inl passed ↦ absurd (cc (rw passed at h))
    | inr refused ↦ elim i [
      | inl e ↦ subst (λ y. test y ≡ false) e refused
      | inr there ↦ find-none x l (rw refused at h) there
    ]
  ]

  pub any_sound : (l : List A) → any l ≡ true → (x : A) × (In x l × (test x ≡ true))
  unfolding any
  any_sound [] h = cc
  any_sound (a ∷ l) h = elim (Bool-cases (test a)) [
    | inl passed ↦ (a, (inl refl, passed))
    | inr refused ↦ let (x, (there, good)) = any_sound l (rw refused at h) in (x, (inr there, good))
  ]

  pub any_of_In : (x : A) (l : List A) → In x l → test x ≡ true → any l ≡ true
  unfolding any
  any_of_In x [] i good = absurd i
  any_of_In x (a ∷ l) (inl e) good =
      let passed : test a ≡ true = subst (λ y. test y ≡ true) (sym e) good in rw passed refl
  any_of_In x (a ∷ l) (inr i) good = let there = any_of_In x l i good in ground (arith, there)
