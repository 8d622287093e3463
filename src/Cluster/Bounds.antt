-- ===== src/Cluster/Bounds.antt =====
-- Every slot that a specification names lies between 0 and 16383.
use llm_k8s_redis.Prelude.{
  ℕ, suc, zero, ◌+◌, ◌-◌, ◌≤◌, String, List, [], ◌∷◌, leb, nat_keys, ℤ, pos, negsuc, ok, ◌>>=◌,
  >>=-eq-ok, insert, is_char, has_char, cut_at, split, trim_space, is_blank, ◌≡◌, subst, range,
  keys, Map, All, Option-cases, Bool-cases, inl, inr, arith, ◌==◌,
}
use llm_k8s_redis.Cluster.Slots.{
  slot_range_bound, is_bracket, validate_slot_bounds, slot_number, slot_token_range, SlotSet,
  add_range, slots_between, parse_parts, insert_sorted, sort_ints, parse_slot_spec,
}

abbrev pub InBounds : ℕ → Type 0
InBounds slot = slot ≤ slot_range_bound

validate_slot_bounds-ok :
    (start end : ℤ) {a b : ℕ}
    → validate_slot_bounds start end ≡ ok (a, b)
    → (a ≤ b) × (b ≤ slot_range_bound)
unfolding validate_slot_bounds
validate_slot_bounds-ok (pos m) (pos n) h = ground arith
validate_slot_bounds-ok (pos m) (negsuc n) h = ground arith
validate_slot_bounds-ok (negsuc m) n h = ground arith

-- A token that is read gives an ordered range inside the bounds.
pub slot_token_range-bounds :
    (token : String) {a b : ℕ}
    → slot_token_range token ≡ ok (a, b)
    → (a ≤ b) × (b ≤ slot_range_bound)
unfolding slot_token_range
slot_token_range-bounds token h = elim (Bool-cases (has_char is_bracket token)) [
  | inl moving ↦ absurd (cc (rw moving at h))
  | inr plain ↦ elim (Option-cases (cut_at (is_char b'-') token)) [
    | inl e ↦
        let (n, _, h1) =
          >>=-eq-ok (slot_number token token) (λ n. validate_slot_bounds n n)
            (rw (plain, e) at h) in
        validate_slot_bounds-ok n n h1
    | inr ((low, high), e) ↦
        let (start, _, h1) =
          >>=-eq-ok (slot_number token low)
            (λ start. slot_number token high >>= λ end. validate_slot_bounds start end)
            (rw (plain, e) at h) in
        let (end, _, h2) =
          >>=-eq-ok (slot_number token high) (λ end. validate_slot_bounds start end) h1 in
        validate_slot_bounds-ok start end h2
  ]
]

pub AllKeys-insert :
    {V : Type 0} (P : ℕ → Type 0) (k : ℕ) (v : V) (m : Map ℕ V)
    → P k
    → All P (keys m)
    → All P (keys (insert k v m))
unfolding insert
AllKeys-insert P k v [] p h = (p, tt)
AllKeys-insert P k v ((j, u) ∷ m) p h = elim (Bool-cases (j == k)) [
  | inl same ↦ rw same (p, h.1)
  | inr other ↦ rw other (h.0, AllKeys-insert P k v m p h.1)
]

pub AllKeys-add_range :
    (P : ℕ → Type 0) (slots : List ℕ) (set : SlotSet)
    → All P slots
    → All P (keys set)
    → All P (keys (add_range slots set))
unfolding add_range
AllKeys-add_range P [] set p h = h
AllKeys-add_range P (s ∷ slots) set p h =
    AllKeys-add_range P slots (insert s tt set) p.1 (AllKeys-insert P s tt set p.0 h)

range-InBounds :
    (start count : ℕ) → start + count ≤ suc slot_range_bound → All InBounds (range start count)
range-InBounds start zero h = tt
range-InBounds start (suc count) h = (omega arith, range-InBounds (start + 1) count (omega arith))

pub between-InBounds : (a b : ℕ) → a ≤ b → b ≤ slot_range_bound → All InBounds (slots_between a b)
unfolding slots_between
between-InBounds a b h k = range-InBounds a (b + 1 - a) (omega arith)

parse_parts-InBounds :
    (parts : List String) (set : SlotSet) {out : SlotSet}
    → parse_parts parts set ≡ ok out
    → All InBounds (keys set)
    → All InBounds (keys out)
unfolding parse_parts
parse_parts-InBounds [] set {out} e h = subst (λ (o : SlotSet). All InBounds (keys o)) (cc) h
parse_parts-InBounds (raw ∷ parts) set e h = elim (Bool-cases (is_blank (trim_space raw))) [
  | inl blank ↦ parse_parts-InBounds parts set (rw blank at e) h
  | inr token ↦
      let ((a, b), r, e1) = >>=-eq-ok (slot_token_range (trim_space raw)) _ (rw token at e) in
      let bounds = slot_token_range-bounds (trim_space raw) r in
      parse_parts-InBounds parts (add_range (slots_between a b) set) e1 (
        AllKeys-add_range InBounds (slots_between a b) set (between-InBounds a b bounds.0 bounds.1)
          h)
]

All-insert_sorted :
    (P : ℕ → Type 0) (n : ℕ) (l : List ℕ) → P n → All P l → All P (insert_sorted n l)
unfolding insert_sorted
All-insert_sorted P n [] p h = (p, tt)
All-insert_sorted P n (m ∷ l) p h = elim (Bool-cases (leb n m)) [
  | inl le ↦ rw le (p, h)
  | inr gt ↦ rw gt (h.0, All-insert_sorted P n l p h.1)
]

All-sort_ints : (P : ℕ → Type 0) (l : List ℕ) → All P l → All P (sort_ints l)
unfolding sort_ints
All-sort_ints P [] h = tt
All-sort_ints P (n ∷ l) h = All-insert_sorted P n (sort_ints l) h.0 (All-sort_ints P l h.1)

-- Every slot of a specification that parses is between 0 and 16383.
pub parse_slot_spec-InBounds :
    (spec : String) {slots : List ℕ} → parse_slot_spec spec ≡ ok slots → All InBounds slots
unfolding parse_slot_spec
parse_slot_spec-InBounds spec h =
    let (set, e, h1) = >>=-eq-ok (parse_parts (split (is_char b',') spec) []) _ h in
    subst (All InBounds) (cc)
      (All-sort_ints InBounds (keys set) (parse_parts-InBounds (split (is_char b',') spec) [] e tt))
