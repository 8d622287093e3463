-- ===== src/Prelude/Inserted.antt =====
-- What a map holds after a write, case by case.
use Prim.Native.Nat.{suc}
use mathlib.Core.Path.{◌≡◌, refl, sym, ap, ◌∙◌}
use mathlib.Core.Logic.{◌⊎◌, inl, inr}
use mathlib.Core.Bool.{true, false}
use mathlib.Core.Option.{some}
use mathlib.Core.List.{[], ◌∷◌}
use llm_k8s_redis.Prelude.Tests.{Tested, ◌==◌, if◌then◌else◌, Bool-cases}
use llm_k8s_redis.Prelude.Lists.{length}
use llm_k8s_redis.Prelude.Maps.{Map, lookup, insert, has, lookup-insert}

module _ {K V : Type 0} ⦃e : Tested K⦄ where
  pub lookup_nothing : (k : K) {v : V} → lookup k [] ≡ some v → ⊥
  unfolding lookup
  lookup_nothing k h = cc

  pub lookup-insert_same : (k : K) (v : V) (m : Map K V) → lookup k (insert k v m) ≡ some v
  lookup-insert_same k v m =
      lookup-insert k k v m ∙ ap (λ b. if b then some v else lookup k m) ((e.test_iff k k).1 refl)

  pub lookup-insert_cases :
      (k j : K) (v w : V) (m : Map K V)
      → lookup j (insert k v m) ≡ some w
      → ((k ≡ j) × (v ≡ w)) ⊎ (lookup j m ≡ some w)
  lookup-insert_cases k j v w m h = elim (Bool-cases (k == j)) [
    | inl same ↦
        let step : lookup j (insert k v m) ≡ some v =
          lookup-insert k j v m ∙ ap (λ b. if b then some v else lookup j m) same in
        inl ((e.test_iff k j).0 same, cc (sym step ∙ h))
    | inr other ↦
        let step : lookup j (insert k v m) ≡ lookup j m =
          lookup-insert k j v m ∙ ap (λ b. if b then some v else lookup j m) other in
        inr (sym step ∙ h)
  ]

  pub lookup-insert_other :
      (k j : K) (v : V) (m : Map K V) → (k ≡ j → ⊥) → lookup j (insert k v m) ≡ lookup j m
  lookup-insert_other k j v m apart = elim (Bool-cases (k == j)) [
    | inl same ↦ absurd (apart ((e.test_iff k j).0 same))
    | inr other ↦ lookup-insert k j v m ∙ ap (λ b. if b then some v else lookup j m) other
  ]

  absent : (k : K) (w : V) (m : Map K V) → has k m ≡ false → lookup k m ≡ some w → ⊥
  unfolding has
  absent k w m free l = cc (rw (has, l) at free)

  pub has_of_lookup : (k : K) (w : V) (m : Map K V) → lookup k m ≡ some w → has k m ≡ true
  unfolding has
  has_of_lookup k w m l = rw (has, l) refl

  -- A write to a key that is not there keeps what is there.
  pub lookup-insert_fresh :
      (k j : K) (v w : V) (m : Map K V)
      → has k m ≡ false
      → lookup j m ≡ some w
      → lookup j (insert k v m) ≡ some w
  lookup-insert_fresh k j v w m free l =
      lookup-insert_other k j v m (λ same. absent k w m free (ap (λ i. lookup i m) same ∙ l)) ∙ l

  pub length-insert_fresh :
      (k : K) (v : V) (m : Map K V) → has k m ≡ false → length (insert k v m) ≡ suc (length m)
  unfolding insert has lookup
  length-insert_fresh k v [] h = refl
  length-insert_fresh k v ((j, w) ∷ m) h = elim (Bool-cases (j == k)) [
    | inl same ↦ absurd (cc (rw (has, same) at h))
    | inr other ↦ rw (insert, other) (ap suc (length-insert_fresh k v m (rw (has, other) at h)))
  ]
