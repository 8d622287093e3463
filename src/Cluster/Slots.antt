-- ===== src/Cluster/Slots.antt =====
-- internal/rediscluster/cluster.go: the syntax of slot specifications. A slot that has passed
-- `ValidateSlotBounds` is not negative, so from there on it is an ℕ.
use llm_k8s_redis.Prelude.{
  keys, ℕ, ◌+◌, ◌-◌, String, Char, List, [], ◌∷◌, Map, some, none, Bool, ◌||◌, leb, nat_keys,
  if◌then◌else◌, ℤ, pos, pos_part, is_neg, int_lt, Result, ok, err, ◌>>=◌, insert, is_char,
  has_char, cut_at, split, trim_space, is_blank, atoi, ◌≡◌, refl, range,
}

abbrev pub slot_range_bound : ℕ
slot_range_bound = 16383

pub data SlotError : Type 0 where
  moving_slot : String → SlotError
  invalid_slot : String → SlotError
  out_of_bounds : ℤ → ℤ → SlotError

abbrev pub is_bracket : Char → Bool
is_bracket c = is_char b'[' c || is_char b']' c

unfoldable pub validate_slot_bounds : ℤ → ℤ → Result SlotError (ℕ × ℕ)
validate_slot_bounds start end =
    if is_neg start || int_lt (pos slot_range_bound) end || int_lt end start
    then err (out_of_bounds start end)
    else ok (pos_part start, pos_part end)

-- strconv.Atoi of a trimmed text, with the caller's error.
unfoldable pub slot_number : String → String → Result SlotError ℤ
slot_number token s = elim (atoi (trim_space s)) [ none ↦ err (invalid_slot token) | some n ↦ ok n ]

unfoldable pub slot_token_range : String → Result SlotError (ℕ × ℕ)
unfolding slot_number validate_slot_bounds
slot_token_range token =
    if has_char is_bracket token
    then err (moving_slot token)
    else elim (cut_at (is_char b'-') token) [
      | none ↦ do n ← slot_number token token; validate_slot_bounds n n
      | some (low, high) ↦ do
        start ← slot_number token low
        end ← slot_number token high
        validate_slot_bounds start end
    ]

-- A set of slots, Go's map[int]struct{}.
abbrev pub SlotSet : Type 0
SlotSet = Map ℕ (Unit {0})

-- for s := start; s <= end; s++ { set[s] = struct{}{} }
unfoldable pub add_range : List ℕ → SlotSet → SlotSet
add_range [] set = set
add_range (s ∷ slots) set = add_range slots (insert s tt set)

-- The slots that a loop from `start` to `end` visits.
unfoldable pub slots_between : ℕ → ℕ → List ℕ
slots_between start end = range start (end + 1 - start)

-- The loop of `ParseSlotSpec` over the parts between commas.
unfoldable pub parse_parts : List String → SlotSet → Result SlotError SlotSet
parse_parts [] set = ok set
parse_parts (raw ∷ parts) set =
    let part = trim_space raw in
    let blank = parse_parts parts set in
    let others = slot_token_range part >>= λ (start, end).
    parse_parts parts (add_range (slots_between start end) set) in
    if is_blank part then blank else others

-- sort.Ints, by insertion.
unfoldable pub insert_sorted : ℕ → List ℕ → List ℕ
insert_sorted n [] = n ∷ []
insert_sorted n (m ∷ l) = if leb n m then n ∷ m ∷ l else m ∷ insert_sorted n l

unfoldable pub sort_ints : List ℕ → List ℕ
unfolding insert_sorted
sort_ints [] = []
sort_ints (n ∷ l) = insert_sorted n (sort_ints l)

unfoldable pub parse_slot_spec : String → Result SlotError (List ℕ)
unfolding parse_parts sort_ints
parse_slot_spec spec = do
  set ← parse_parts (split (is_char b',') spec) []
  ok (sort_ints (keys set))

parse_slot_spec_runs :
    (parse_slot_spec "7, 0-2,,2-3" ≡ ok (0 ∷ 1 ∷ 2 ∷ 3 ∷ 7 ∷ []))
    × (parse_slot_spec "" ≡ ok [])
    × (parse_slot_spec "5-3" ≡ err (out_of_bounds (pos 5) (pos 3)))
    × (parse_slot_spec "-5" ≡ err (invalid_slot "-5"))
    × (parse_slot_spec "16384" ≡ err (out_of_bounds (pos 16384) (pos 16384)))
    × (parse_slot_spec "[7->-a]" ≡ err (moving_slot "[7->-a]"))
unfolding parse_slot_spec slot_token_range add_range slots_between split trim_space has_char cut_at
    atoi insert
parse_slot_spec_runs = (refl, refl, refl, refl, refl, refl)
