-- ===== src/Cluster/Ranges.antt =====
-- A specification of one range parses to the slots of the range, in order.
use llm_k8s_redis.Prelude.{
  ℕ, suc, zero, ◌+◌, ◌-◌, ◌<◌, String, List, [], ◌∷◌, ◌++◌, Map, some, false, nat_keys, ok, insert,
  lookup, is_char, split, trim_space, is_blank, ◌≡◌, ◌≢◌, refl, ap, sym, ◌∙◌, range, keys, In, All,
  Distinct, Bool-cases, inl, inr, arith, ◌==◌, ◌⊎◌,
}
use llm_k8s_redis.Cluster.Slots.{
  SlotSet, slot_token_range, add_range, slots_between, parse_parts, insert_sorted, sort_ints,
  parse_slot_spec,
}

-- A map that gives one value to each key of a list.
unfoldable pub constant {ℓ} : {V : Type ℓ} → V → List ℕ → Map ℕ V
constant v [] = []
constant v (k ∷ l) = (k, v) ∷ constant v l

pub keys-constant : {V : Type 0} (v : V) (l : List ℕ) → keys (constant v l) ≡ l
unfolding constant
keys-constant v [] = refl
keys-constant v (k ∷ l) = ap (λ r. k ∷ r) (keys-constant v l)

module _ {V : Type 0} (v : V) where
  insert-last : (k : ℕ) (m : Map ℕ V) → All (λ j. j < k) (keys m) → insert k v m ≡ m ++ (k, v) ∷ []
  unfolding insert
  insert-last k [] h = refl
  insert-last k ((j, w) ∷ m) h = elim (Bool-cases (j == k)) [
    | inl same ↦ absurd (ground (arith, same, h.0))
    | inr other ↦ rw other (ap (λ r. (j, w) ∷ r) (insert-last k m h.1))
  ]

  -- The writes of one value under each key of a list, in turn.
  unfoldable pub insert_all : List ℕ → Map ℕ V → Map ℕ V
  insert_all [] m = m
  insert_all (k ∷ l) m = insert_all l (insert k v m)

  keys_below :
      (k : ℕ) (m : Map ℕ V)
      → All (λ j. j < k) (keys m)
      → All (λ j. j < k + 1) (keys (m ++ (k, v) ∷ []))
  keys_below k [] h = (omega arith, tt)
  keys_below k ((j, w) ∷ m) h = (omega (arith, h.0), keys_below k m h.1)

  append-cons : (m : Map ℕ V) (x : ℕ × V) (l : Map ℕ V) → (m ++ x ∷ []) ++ l ≡ m ++ (x ∷ l)
  append-cons [] x l = refl
  append-cons (y ∷ m) x l = ap (λ r. y ∷ r) (append-cons m x l)

  append-none : (m : Map ℕ V) → m ++ [] ≡ m
  append-none [] = refl
  append-none (y ∷ m) = ap (λ r. y ∷ r) (append-none m)

  insert_all-append :
      (start count : ℕ) (m : Map ℕ V)
      → All (λ j. j < start) (keys m)
      → insert_all (range start count) m ≡ m ++ constant v (range start count)
  unfolding insert_all constant
  insert_all-append start zero m h = sym (append-none m)
  insert_all-append start (suc count) m h =
      let step =
        insert_all-append (start + 1) count (m ++ (start, v) ∷ []) (keys_below start m h) in
      ap (λ r. insert_all (range (start + 1) count) r) (insert-last start m h)
      ∙ step
      ∙ append-cons m (start, v) (constant v (range (start + 1) count))

  -- Into an empty map, the keys of a range are written in order.
  pub insert_all-range :
      (start count : ℕ) → insert_all (range start count) [] ≡ constant v (range start count)
  insert_all-range start count = insert_all-append start count [] tt

  pub lookup-constant : (k : ℕ) (l : List ℕ) → In k l → lookup k (constant v l) ≡ some v
  unfolding lookup constant
  lookup-constant k [] i = absurd i
  lookup-constant k (j ∷ l) i = elim (Bool-cases (j == k)) [
    | inl same ↦ rw same refl
    | inr other ↦ rw other (lookup-constant k l (later other i))
  ]
    where
      later : (j == k) ≡ false → (j ≡ k) ⊎ In k l → In k l
      later other (inl e) = absurd (ground (arith, other, e))
      later other (inr there) = there

pub add_range-insert_all : (l : List ℕ) (m : SlotSet) → add_range l m ≡ insert_all tt l m
unfolding add_range insert_all
add_range-insert_all [] m = refl
add_range-insert_all (k ∷ l) m = add_range-insert_all l (insert k tt m)

range_above : (a start count : ℕ) → a < start → All (λ y. a ≢ y) (range start count)
range_above a start zero h = tt
range_above a start (suc count) h =
    (λ e. absurd (omega arith), range_above a (start + 1) count (omega arith))

pub Distinct-range : (start count : ℕ) → Distinct (range start count)
Distinct-range start zero = tt
Distinct-range start (suc count) =
    (range_above start (start + 1) count (omega arith), Distinct-range (start + 1) count)

insert_sorted-range :
    (a count : ℕ) → insert_sorted a (range (a + 1) count) ≡ a ∷ range (a + 1) count
unfolding insert_sorted
insert_sorted-range a zero = refl
insert_sorted-range a (suc count) = ground arith

sort_ints-range : (start count : ℕ) → sort_ints (range start count) ≡ range start count
unfolding sort_ints
sort_ints-range start zero = refl
sort_ints-range start (suc count) =
    ap (insert_sorted start) (sort_ints-range (start + 1) count) ∙ insert_sorted-range start count

-- A text with no comma and no space around it that reads as the range from `a` to `b` parses to
-- the slots of that range, in order and each once.
pub parse_slot_spec-range :
    (spec : String) (a b : ℕ)
    → split (is_char b',') spec ≡ spec ∷ []
    → trim_space spec ≡ spec
    → is_blank spec ≡ false
    → slot_token_range spec ≡ ok (a, b)
    → parse_slot_spec spec ≡ ok (slots_between a b)
unfolding parse_slot_spec parse_parts slots_between
parse_slot_spec-range spec a b one trimmed named token =
    rw (one, trimmed, named, token)
      (ap ok (
        ap (λ m. sort_ints (keys m)) set
        ∙ ap sort_ints (keys-constant tt _)
        ∙ sort_ints-range a (b + 1 - a)))
  where
    set : add_range (range a (b + 1 - a)) [] ≡ constant tt (range a (b + 1 - a))
    set = add_range-insert_all _ [] ∙ insert_all-range tt a (b + 1 - a)
