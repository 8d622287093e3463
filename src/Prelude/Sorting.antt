-- ===== src/Prelude/Sorting.antt =====
-- sort.Slice by an order, as insertion. Go leaves the order of equal elements open; here a later one
-- of the list stays behind.
use mathlib.Core.Path.{◌≡◌}
use mathlib.Core.Logic.{◌⊎◌, inl, inr}
use mathlib.Core.Bool.{Bool}
use mathlib.Core.List.{List, [], ◌∷◌}
use llm_k8s_redis.Prelude.Tests.{if◌then◌else◌, Bool-cases}
use llm_k8s_redis.Prelude.Lists.{In, All, All-In, In-All}

module _ {A : Type 0} (less : A → A → Bool) where
  unfoldable pub place : A → List A → List A
  place a [] = a ∷ []
  place a (b ∷ l) = let rest = place a l in if less b a then b ∷ rest else a ∷ b ∷ l

  unfoldable pub sort_by : List A → List A
  unfolding place
  sort_by [] = []
  sort_by (a ∷ l) = place a (sort_by l)

  In-place : (x a : A) (l : List A) → (a ≡ x) ⊎ In x l → In x (place a l)
  unfolding place
  In-place x a [] (inl e) = inl e
  In-place x a [] (inr i) = absurd i
  In-place x a (b ∷ l) i = elim (Bool-cases (less b a)) [
    | inl lt ↦ rw lt (behind i (In-place x a l))
    | inr ge ↦ rw ge i
  ]
    where
      behind : (a ≡ x) ⊎ In x (b ∷ l) → ((a ≡ x) ⊎ In x l → In x (place a l)) → In x (b ∷ place a l)
      behind (inl e) into = inr (into (inl e))
      behind (inr (inl e)) into = inl e
      behind (inr (inr i)) into = inr (into (inr i))

  place-In : (x a : A) (l : List A) → In x (place a l) → (a ≡ x) ⊎ In x l
  unfolding place
  place-In x a [] i = i
  place-In x a (b ∷ l) i = elim (Bool-cases (less b a)) [
    | inl lt ↦ ahead (rw lt at i) (place-In x a l)
    | inr ge ↦ rw ge at i
  ]
    where
      swap : (a ≡ x) ⊎ In x l → (a ≡ x) ⊎ In x (b ∷ l)
      swap (inl e) = inl e
      swap (inr i) = inr (inr i)

      ahead : In x (b ∷ place a l) → (In x (place a l) → (a ≡ x) ⊎ In x l) → (a ≡ x) ⊎ In x (b ∷ l)
      ahead (inl e) out = inr (inl e)
      ahead (inr i) out = swap (out i)

  pub In-sort_by : (x : A) (l : List A) → In x l → In x (sort_by l)
  unfolding sort_by
  In-sort_by x [] i = i
  In-sort_by x (a ∷ l) (inl e) = In-place x a (sort_by l) (inl e)
  In-sort_by x (a ∷ l) (inr i) = In-place x a (sort_by l) (inr (In-sort_by x l i))

  pub sort_by-In : (x : A) (l : List A) → In x (sort_by l) → In x l
  unfolding sort_by
  sort_by-In x [] i = i
  sort_by-In x (a ∷ l) i = elim (place-In x a (sort_by l) i) [
    | inl e ↦ inl e
    | inr there ↦ inr (sort_by-In x l there)
  ]

  pub All-sort_by {κ} : (P : A → Type κ) (l : List A) → All P l → All P (sort_by l)
  All-sort_by P l h = All-In P (sort_by l) (λ x i. In-All P l h x (sort_by-In x l i))
