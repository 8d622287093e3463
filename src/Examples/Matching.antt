-- ===== src/Examples/Matching.antt =====
-- A cluster of one master with all slots and a replica, which is the cluster of its spec.
use llm_k8s_redis.Prelude.{
  ℕ, zero, suc, ◌+◌, ◌≤◌, String, List, [], ◌∷◌, some, true, false, ◌&&◌, ok, ◌≡◌, refl, ap, ◌∙◌,
  arith, if◌then◌else◌, range, length, has, has-insert, insert, lookup, length-insert_fresh,
  nat_keys, string_keys, equal_fold, nat_eq, nat_eq_iff, ◌==◌,
}
use llm_k8s_redis.Plan.{ObservedNode}
use llm_k8s_redis.Observor.{observed_node_healthy, observed_has_flag}
use llm_k8s_redis.Cluster.Slots.{slots_between}
use llm_k8s_redis.Controller.Matching.{
  Shards, Covered, cover, add_shard, add_master, master_step, masters, node_names, replicas,
  all_accounted, all_replicated, match_masters, match_rest, observed_nodes_match_spec,
}
use llm_k8s_redis.Controller.Matches.{Matches, observed_nodes_match_spec-Matches}
use llm_k8s_redis.Examples.Full.{spec, master, full_text_parses}
use llm_k8s_redis.Examples.Repairing.{replica}

abbrev nodes : List ObservedNode
nodes = master ∷ replica ∷ []

-- The slots from a number on are covered in turn.
cover-range :
    (pod : String) (n start : ℕ) (covered : Covered)
    → ((s : ℕ) → start ≤ s → has s covered ≡ false)
    → (wider : Covered) × ((cover (range start n) pod covered ≡ some wider)
        × (length wider ≡ n + length covered))
unfolding cover
cover-range pod zero start covered fresh = (covered, (refl, omega arith))
cover-range pod (suc n) start covered fresh =
    let free : has start covered ≡ false = fresh start (omega arith) in
    let (wider, (e, count)) = cover-range pod n (start + 1) (insert start pod covered) later in
    (wider, (rw (cover, free) e, omega (arith, count, length-insert_fresh start pod covered free)))
  where
    later : (s : ℕ) → start + 1 ≤ s → has s (insert start pod covered) ≡ false
    later s le =
        let step : has s (insert start pod covered) ≡ (if start == s then true else has s covered) =
          has-insert start s pod covered in
        let apart : (start == s) ≡ false = ground (arith) in
        step ∙ rw apart (fresh s (omega (arith, le)))

nothing_covered : (s : ℕ) → 0 ≤ s → has {V = String} s [] ≡ false
unfolding has lookup
nothing_covered s le = refl

abbrev shards : Shards
shards = ("redis-0", 0) ∷ []

-- The master's step, whose slots are not counted one by one.
whole :
    (wider : Covered) × ((cover (slots_between 0 16383) "redis-0" [] ≡ some wider)
      × (length wider ≡ 16384))
unfolding slots_between
whole =
    let (wider, (e, count)) = cover-range "redis-0" 16384 0 [] nothing_covered in
    (wider, (e, omega (arith, count)))

added :
    (wider : Covered)
    → cover (slots_between 0 16383) "redis-0" [] ≡ some wider
    → add_master "redis-0" [] [] (ok (slots_between 0 16383)) ≡ some (shards, wider)
unfolding slots_between insert
added wider e = ap (add_shard "redis-0" []) e

first :
    (wider : Covered)
    → cover (slots_between 0 16383) "redis-0" [] ≡ some wider
    → master_step spec master [] [] ≡ some (shards, wider)
unfolding observed_node_healthy observed_has_flag equal_fold has lookup
first wider e = ap (add_master "redis-0" [] []) full_text_parses ∙ added wider e

matched :
    (wider : Covered)
    → length wider ≡ 16384
    → match_masters spec nodes (node_names nodes []) (some (shards, wider)) ≡ true
unfolding node_names replicas all_accounted all_replicated observed_node_healthy observed_has_flag
    equal_fold has lookup insert
matched wider count =
    let full : nat_eq (length wider) 16384 ≡ true = (nat_eq_iff (length wider) 16384).1 count in
    let names = node_names nodes [] in
    let rest = match_rest spec nodes names (replicas names nodes shards) in
    ap (λ b. (nat_eq (length shards) spec.shards && b) && rest) full

matched_by :
    (wider : Covered)
    → cover (slots_between 0 16383) "redis-0" [] ≡ some wider
    → length wider ≡ 16384
    → observed_nodes_match_spec nodes spec ≡ true
unfolding observed_nodes_match_spec masters
matched_by wider e count = rw (masters, first wider e) (matched wider count)

matching : observed_nodes_match_spec nodes spec ≡ true
matching = let (wider, (e, count)) = whole in matched_by wider e count

observed_nodes_match_spec-Matches_example : Matches spec nodes
observed_nodes_match_spec-Matches_example = observed_nodes_match_spec-Matches nodes spec matching
