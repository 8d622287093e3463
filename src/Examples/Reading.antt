-- ===== src/Examples/Reading.antt =====
-- Slot texts and lines of CLUSTER NODES.
use llm_k8s_redis.Prelude.{
  ℕ, String, List, [], ◌∷◌, Map, some, All, inl, ok, ◌≡◌, refl, lookup, insert, split, trim_space,
  has_char, cut_at, atoi, string_keys, nat_keys, arith,
}
use llm_k8s_redis.Cluster.Slots.{slot_token_range, slots_between, add_range, parse_slot_spec}
use llm_k8s_redis.Cluster.Bounds.{InBounds, parse_slot_spec-InBounds}
use llm_k8s_redis.Cluster.Entries.{Entry, slot_ownership}
use llm_k8s_redis.Cluster.Owners.{Names, slot_ownership-owner}

range_reads : slot_token_range "3-9" ≡ ok (3, 9)
unfolding slot_token_range has_char cut_at trim_space atoi
range_reads = refl

spec_parses : parse_slot_spec "7, 0-2" ≡ ok (0 ∷ 1 ∷ 2 ∷ 7 ∷ [])
unfolding parse_slot_spec slot_token_range slots_between split trim_space has_char cut_at atoi
    insert add_range
spec_parses = refl

parse_slot_spec-InBounds_example : All InBounds (0 ∷ 1 ∷ 2 ∷ 7 ∷ [])
parse_slot_spec-InBounds_example = parse_slot_spec-InBounds "7, 0-2" spec_parses

abbrev entry : String → List String → Entry
entry id slots = record {
  id = id;
  addr = "10.0.0.1:6379@16379";
  flags = "master" ∷ [];
  master_id = "-";
  link_state = "connected";
  slots = slots;
}

abbrev entries : List Entry
entries = entry "a" ("0-1" ∷ "[1->-b]" ∷ []) ∷ entry "b" ("2" ∷ []) ∷ []

abbrev owners : Map ℕ String
owners = (0, "a") ∷ (1, "a") ∷ (2, "b") ∷ []

owned : slot_ownership entries ≡ ok owners
unfolding slot_ownership slot_token_range slots_between trim_space has_char cut_at atoi insert
    lookup
owned = refl

Names-one : Names "0-1" 1
unfolding slot_token_range has_char cut_at trim_space atoi
Names-one = record {
  stable = refl;
  first = 0;
  last = 1;
  reads = refl;
  from = ground arith;
  upto = ground arith;
}

slot_ownership-owner_example : lookup 1 owners ≡ some "a"
slot_ownership-owner_example =
    slot_ownership-owner entries owners (entry "a" ("0-1" ∷ "[1->-b]" ∷ [])) "0-1" 1 owned
      (inl refl) (inl refl) Names-one
