-- ===== src/Prelude/Maps.antt =====
-- Go's maps as association lists. A write keeps one entry a key; a range over a map follows the
-- order of the list, which stands for the order that Go leaves open.
use mathlib.Core.Path.{◌≡◌, refl, ap, subst}
use mathlib.Core.Bool.{Bool, true, false}
use mathlib.Core.Option.{Option, none, some}
use mathlib.Core.List.{List, [], ◌∷◌}
use native.Mathlib.Omega.{arith}
use llm_k8s_redis.Prelude.Tests.{Tested, ◌==◌, if◌then◌else◌, Bool-cases}
use llm_k8s_redis.Prelude.Lists.{In, All, In-All, Distinct, is_empty, length}
use Prim.Native.Nat.{suc}
use mathlib.Core.Logic.{◌≢◌, ◌⊎◌, inl, inr}

abbrev pub Map {ℓ κ} : Type ℓ → Type κ → Type (ℓ ⊔ κ)
Map K V = List (K × V)

module _ {ℓ κ} {K : Type ℓ} {V : Type κ} ⦃e : Tested K⦄ where
  -- m[k]
  unfoldable pub lookup : K → Map K V → Option V
  lookup key [] = none
  lookup key ((first, val) ∷ rest) = if first == key then some val else lookup key rest

  -- m[k] = v
  unfoldable pub insert : K → V → Map K V → Map K V
  insert key val [] = (key, val) ∷ []
  insert key val ((first, old) ∷ rest) =
      if first == key then (key, val) ∷ rest else (first, old) ∷ insert key val rest

  -- delete(m, k)
  unfoldable pub erase : K → Map K V → Map K V
  erase k [] = []
  erase k ((j, w) ∷ m) = let rest = erase k m in if j == k then rest else (j, w) ∷ rest

  -- _, ok := m[k]
  unfoldable pub has : K → Map K V → Bool
  unfolding lookup
  has k m = elim (lookup k m) [ none ↦ false | some v ↦ true ]

  pub lookup-insert :
      (key other : K) (val : V) (m : Map K V)
      → lookup other (insert key val m) ≡ (if key == other then some val else lookup other m)
  unfolding lookup insert
  lookup-insert key other val [] = refl
  lookup-insert key other val ((first, old) ∷ rest) = ground (
    arith,
    e.test_iff key other,
    e.test_iff first key,
    e.test_iff first other,
    lookup-insert key other val rest,
  )

  pub lookup-erase :
      (k j : K) (m : Map K V) → lookup j (erase k m) ≡ (if k == j then none else lookup j m)
  unfolding lookup erase
  lookup-erase k j [] = ground arith
  lookup-erase k j ((i, w) ∷ m) =
      ground (arith, e.test_iff k j, e.test_iff i k, e.test_iff i j, lookup-erase k j m)

  pub has-insert :
      (k j : K) (v : V) (m : Map K V) → has j (insert k v m) ≡ (if k == j then true else has j m)
  unfolding has
  has-insert k j v m = ground (arith, lookup-insert k j v m, e.test_iff k j)

  pub has-erase : (k j : K) (m : Map K V) → has j (erase k m) ≡ (if k == j then false else has j m)
  unfolding has
  has-erase k j m = ground (arith, lookup-erase k j m, e.test_iff k j)

  pub lookup_of_has : (k : K) (m : Map K V) → has k m ≡ true → (v : V) × (lookup k m ≡ some v)
  unfolding has
  lookup_of_has k m h = ground arith

-- The keys in the order of the entries.
abbrev pub keys {ℓ κ} : {K : Type ℓ} {V : Type κ} → Map K V → List K
keys [] = []
keys ((k, v) ∷ m) = k ∷ keys m

module _ {K V : Type 0} ⦃e : Tested K⦄ where
  pub In-lookup : (k : K) (v : V) (m : Map K V) → lookup k m ≡ some v → In (k, v) m
  unfolding lookup
  In-lookup k v [] h = absurd (cc)
  In-lookup k v ((j, w) ∷ m) h = elim (Bool-cases (j == k)) [
    | inl same ↦ let w≡v : some w ≡ some v = rw same at h in inl (cc ((e.test_iff j k).0 same))
    | inr other ↦ inr (In-lookup k v m (rw other at h))
  ]

  pub In-keys-lookup : (k : K) (v : V) (m : Map K V) → lookup k m ≡ some v → In k (keys m)
  unfolding lookup
  In-keys-lookup k v [] h = absurd (cc)
  In-keys-lookup k v ((j, w) ∷ m) h = elim (Bool-cases (j == k)) [
    | inl same ↦ inl ((e.test_iff j k).0 same)
    | inr other ↦ inr (In-keys-lookup k v m (rw other at h))
  ]

  pub has_of_In : (k : K) (m : Map K V) → In k (keys m) → has k m ≡ true
  unfolding has lookup
  has_of_In k [] h = absurd h
  has_of_In k ((j, w) ∷ m) h = elim (Bool-cases (j == k)) [
    | inl same ↦ ground (arith, same)
    | inr other ↦ ground (arith, other, has_of_In k m (later other h))
  ]
    where
      later : (j == k) ≡ false → (j ≡ k) ⊎ In k (keys m) → In k (keys m)
      later other (inl same) = absurd (cc (other, (e.test_iff j k).1 same))
      later other (inr there) = there

  pub In-of_has : (k : K) (m : Map K V) → has k m ≡ true → In k (keys m)
  In-of_has k m h = let (v, l) = lookup_of_has k m h in In-keys-lookup k v m l

  Apart-insert :
      (j k : K) (v : V) (m : Map K V)
      → j ≢ k
      → All (λ i. j ≢ i) (keys m)
      → All (λ i. j ≢ i) (keys (insert k v m))
  unfolding insert
  Apart-insert j k v [] ne h = (ne, tt)
  Apart-insert j k v ((i, w) ∷ m) ne h = elim (Bool-cases (i == k)) [
    | inl same ↦ rw same (ne, h.1)
    | inr other ↦ rw other (h.0, Apart-insert j k v m ne h.1)
  ]

  pub Distinct-insert :
      (k : K) (v : V) (m : Map K V) → Distinct (keys m) → Distinct (keys (insert k v m))
  unfolding insert
  Distinct-insert k v [] h = (tt, tt)
  Distinct-insert k v ((i, w) ∷ m) h = elim (Bool-cases (i == k)) [
    | inl same ↦ rw same (subst (λ x. All (λ y. x ≢ y) (keys m)) ((e.test_iff i k).0 same) h.0, h.1)
    | inr other ↦ rw other (
      Apart-insert i k v m (λ p. cc (other, (e.test_iff i k).1 p)) h.0,
      Distinct-insert k v m h.1,
    )
  ]

  Apart-erase :
      (j k : K) (m : Map K V) → All (λ i. j ≢ i) (keys m) → All (λ i. j ≢ i) (keys (erase k m))
  unfolding erase
  Apart-erase j k [] h = tt
  Apart-erase j k ((i, w) ∷ m) h = elim (Bool-cases (i == k)) [
    | inl same ↦ rw same (Apart-erase j k m h.1)
    | inr other ↦ rw other (h.0, Apart-erase j k m h.1)
  ]

  pub Distinct-erase : (k : K) (m : Map K V) → Distinct (keys m) → Distinct (keys (erase k m))
  unfolding erase
  Distinct-erase k [] h = tt
  Distinct-erase k ((i, w) ∷ m) h = elim (Bool-cases (i == k)) [
    | inl same ↦ rw same (Distinct-erase k m h.1)
    | inr other ↦ rw other (Apart-erase i k m h.0, Distinct-erase k m h.1)
  ]

  pub lookup_of_In :
      (k : K) (v : V) (m : Map K V) → Distinct (keys m) → In (k, v) m → lookup k m ≡ some v
  unfolding lookup
  lookup_of_In k v [] d h = absurd h
  lookup_of_In k v ((j, w) ∷ m) d (inl p) =
      rw ((e.test_iff j k).1 (ap (λ q. q.0) p)) (ap (λ q. some q.1) p)
  lookup_of_In k v ((j, w) ∷ m) d (inr h) = elim (Bool-cases (j == k)) [
    | inl same ↦ absurd (
        In-All (λ i. j ≢ i) (keys m) d.0 k (In-keys-lookup k v m (lookup_of_In k v m d.1 h))
          ((e.test_iff j k).0 same))
    | inr other ↦ rw other (lookup_of_In k v m d.1 h)
  ]

  pub nonempty_of_has : (k : K) (m : Map K V) → has k m ≡ true → is_empty m ≡ false
  unfolding has lookup
  nonempty_of_has k [] h = cc
  nonempty_of_has k ((j, w) ∷ m) h = refl

pub length-keys : {K V : Type 0} (m : Map K V) → length (keys m) ≡ length m
length-keys [] = refl
length-keys ((k, v) ∷ m) = ap suc (length-keys m)
