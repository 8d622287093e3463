-- ===== src/Planner/Slots.antt =====
-- internal/planner/go_planner.go: how the 16384 slots are shared out, and slot texts.
use llm_k8s_redis.Prelude.{
  ℕ, ◌+◌, ◌-◌, ◌*◌, ◌/◌, ◌%◌, String, List, [], ◌∷◌, ltb, nat_eq, if◌then◌else◌, show, digit_char,
  ◌<>◌, join_with, ◌≡◌, refl, dec_lt,
}
use llm_k8s_redis.Cluster.Slots.{slot_range_bound, sort_ints}

abbrev pub redis_slot_count : ℕ
redis_slot_count = slot_range_bound + 1

-- slotRange as numbers: the first and the last slot of a shard, for `shard` below `shards` as in the
-- program. With more than 16384 shards the source's end may be -1, where it is 0 here.
unfoldable pub slot_range_start : ℕ → ℕ → ℕ
slot_range_start shard shards = shard * redis_slot_count / shards

unfoldable pub slot_range_end : ℕ → ℕ → ℕ
slot_range_end shard shards = (shard + 1) * redis_slot_count / shards - 1

unfoldable pub slot_range : ℕ → ℕ → String
unfolding slot_range_start slot_range_end
slot_range shard shards =
    show (slot_range_start shard shards) <> ("-" <> show (slot_range_end shard shards))

-- balancedSlotRange: the first slot and the size; the source returns the first and the last slot.
unfoldable pub balanced_start : ℕ → ℕ → ℕ
balanced_start index total =
    let base = redis_slot_count / total in
    let rem = redis_slot_count % total in index * base + (if ltb index rem then index else rem)

unfoldable pub balanced_size : ℕ → ℕ → ℕ
balanced_size index total =
    let base = redis_slot_count / total in
    let rem = redis_slot_count % total in if ltb index rem then base + 1 else base

abbrev range_text : ℕ → ℕ → String
range_text start end = if nat_eq start end then show start else show start <> ("-" <> show end)

-- The loop of `compactSlots`: a run from `start` to `end` is being extended.
unfoldable pub compact_run : ℕ → ℕ → List ℕ → List String
compact_run start end [] = range_text start end ∷ []
compact_run start end (slot ∷ slots) =
    let longer = compact_run start slot slots in
    let next = range_text start end ∷ compact_run slot slot slots in
    if nat_eq slot (end + 1) then longer else next

abbrev compact_parts : List ℕ → List String
compact_parts [] = []
compact_parts (slot ∷ slots) = compact_run slot slot slots

unfoldable pub compact_slots : List ℕ → String
unfolding compact_run sort_ints
compact_slots slots = join_with "," (compact_parts (sort_ints slots))

compact_slots_runs :
    (compact_slots (5 ∷ 0 ∷ 1 ∷ 2 ∷ 7 ∷ 6 ∷ 9 ∷ []) ≡ "0-2,5-7,9")
    × (compact_slots [] ≡ "")
    × (slot_range 0 3 ≡ "0-5460")
    × (slot_range 2 3 ≡ "10922-16383")
unfolding compact_slots slot_range show join_with dec_lt digit_char
compact_slots_runs = (refl, refl, refl, refl)
