-- ===== src/Prelude/Counting.antt =====
-- A list of distinct numbers below a bound that is as long as the bound has them all.
use Prim.Native.Nat.{ℕ, zero, suc, ◌≤◌, ◌<◌}
use mathlib.Core.Path.{◌≡◌, refl, subst}
use mathlib.Core.Logic.{◌≢◌, inl, inr}
use mathlib.Core.Bool.{false}
use mathlib.Core.List.{List, [], ◌∷◌}
use native.Mathlib.Omega.{arith}
use llm_k8s_redis.Prelude.Tests.{nat_eq, nat_eq_iff, if◌then◌else◌, Bool-cases}
use llm_k8s_redis.Prelude.Lists.{length, All, Distinct}

drop_all : ℕ → List ℕ → List ℕ
drop_all k [] = []
drop_all k (x ∷ xs) = let rest = drop_all k xs in if nat_eq x k then rest else x ∷ rest

Apart-drop_all : (j k : ℕ) (l : List ℕ) → All (λ y. j ≢ y) l → All (λ y. j ≢ y) (drop_all k l)
unfolding drop_all
Apart-drop_all j k [] h = tt
Apart-drop_all j k (x ∷ l) h = elim (Bool-cases (nat_eq x k)) [
  | inl same ↦ rw same (Apart-drop_all j k l h.1)
  | inr other ↦ rw other (h.0, Apart-drop_all j k l h.1)
]

Distinct-drop_all : (k : ℕ) (l : List ℕ) → Distinct l → Distinct (drop_all k l)
unfolding drop_all
Distinct-drop_all k [] d = tt
Distinct-drop_all k (x ∷ l) d = elim (Bool-cases (nat_eq x k)) [
  | inl same ↦ rw same (Distinct-drop_all k l d.1)
  | inr other ↦ rw other (Apart-drop_all x k l d.0, Distinct-drop_all k l d.1)
]

Below-drop_all : (n : ℕ) (l : List ℕ) → All (λ x. x < suc n) l → All (λ x. x < n) (drop_all n l)
unfolding drop_all
Below-drop_all n [] h = tt
Below-drop_all n (x ∷ l) h = elim (Bool-cases (nat_eq x n)) [
  | inl same ↦ rw same (Below-drop_all n l h.1)
  | inr other ↦ rw other (below x other h.0, Below-drop_all n l h.1)
]
  where
    below : (x : ℕ) → nat_eq x n ≡ false → x < suc n → x < n
    below x ne lt = ground arith

drop_all_apart : (k : ℕ) (l : List ℕ) → All (λ y. k ≢ y) l → drop_all k l ≡ l
unfolding drop_all
drop_all_apart k [] h = refl
drop_all_apart k (x ∷ l) h = ground (arith, drop_all_apart k l h.1, nat_eq_iff x k, h.0)

length-drop_all : (k : ℕ) (l : List ℕ) → Distinct l → length l ≤ suc (length (drop_all k l))
unfolding drop_all
length-drop_all k [] d = omega arith
length-drop_all k (x ∷ l) d = elim (Bool-cases (nat_eq x k)) [
  | inl same ↦
      let k≡x : x ≡ k = (nat_eq_iff x k).0 same in
      rw same (ground (arith, drop_all_apart k l (apart k≡x)))
  | inr other ↦ rw other (ground (arith, length-drop_all k l d.1))
]
  where
    apart : x ≡ k → All (λ y. k ≢ y) l
    apart e = subst (λ z. All (λ y. z ≢ y) l) e d.0

pub length-Distinct : (n : ℕ) (l : List ℕ) → Distinct l → All (λ x. x < n) l → length l ≤ n
length-Distinct zero [] d h = omega arith
length-Distinct zero (x ∷ l) d h = absurd (omega (arith, h.0))
length-Distinct (suc n) l d h =
    let less = length-Distinct n (drop_all n l) (Distinct-drop_all n l d) (Below-drop_all n l h) in
    omega (arith, length-drop_all n l d)

-- One that is not in the list would make it too long.
pub Distinct-full :
    (n : ℕ) (l : List ℕ) (k : ℕ)
    → Distinct l
    → All (λ x. x < n) l
    → length l ≡ n
    → k < n
    → ¬ All (λ y. k ≢ y) l
Distinct-full n l k d h e lt apart =
    let longer : suc (length l) ≤ n = length-Distinct n (k ∷ l) (apart, d) (lt, h) in omega arith
