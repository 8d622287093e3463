-- ===== src/Controller/Matching.antt =====
-- internal/controller/topology_status.go: whether the observed nodes are the cluster of the spec, and
-- what the controller waits for before it plans. `ReplicasPerShard` is not negative, as an ℕ.
use llm_k8s_redis.Prelude.{
  ℕ, suc, String, List, [], ◌∷◌, Map, Option, some, none, Bool, true, false, not, ◌&&◌, ◌||◌, leb,
  ltb, nat_eq, ◌==◌, string_keys, nat_keys, if◌then◌else◌, Result, ok, err, insert, lookup, has,
  is_blank, is_empty, length, has_char, equal_fold, any,
}
use llm_k8s_redis.Plan.{ClusterSpec, ObservedNode, or_blank}
use llm_k8s_redis.Cluster.Slots.{is_bracket, SlotError, parse_slot_spec}
use llm_k8s_redis.Observor.{observed_node_healthy}

abbrev pub Shards : Type 0
Shards = Map String ℕ

abbrev pub Covered : Type 0
Covered = Map ℕ String

abbrev add_name : ObservedNode → Map String String → Map String String
add_name n names =
    if not (is_blank n.node_id) && not (is_blank n.pod) then insert n.node_id n.pod names else names

unfoldable pub node_names : List ObservedNode → Map String String → Map String String
node_names [] names = names
node_names (n ∷ nodes) names = node_names nodes (add_name n names)

-- The test behind which the first loop goes on to the next node.
abbrev pub serving_node : ObservedNode → Bool
serving_node n = n.pod_exists && n.redis_seen && n.role == "master" && not (is_blank n.slots)

-- The loop over a master's slots; none if one of them is covered.
unfoldable pub cover : List ℕ → String → Covered → Option Covered
cover [] pod covered = some covered
cover (s ∷ slots) pod covered =
    let rest = cover slots pod (insert s pod covered) in if has s covered then none else rest

abbrev pub add_shard : String → Shards → Option Covered → Option (Shards × Covered)
add_shard pod shards none = none
add_shard pod shards (some covered) = some (insert pod 0 shards, covered)

abbrev pub add_master :
    String → Shards → Covered → Result SlotError (List ℕ) → Option (Shards × Covered)
add_master pod shards covered (err e) = none
add_master pod shards covered (ok []) = none
add_master pod shards covered (ok (s ∷ slots)) =
    add_shard pod shards (cover (s ∷ slots) pod covered)

abbrev pub master_step : ClusterSpec → ObservedNode → Shards → Covered → Option (Shards × Covered)
master_step spec n shards covered =
    if n.pod_exists && not (n.image == spec.image)
    then none
    else if not (serving_node n)
    then some (shards, covered)
    else if is_blank n.pod || not (observed_node_healthy n) || has n.pod shards
    then none
    else add_master n.pod shards covered (parse_slot_spec n.slots)

-- The first loop.
unfoldable pub masters :
    ClusterSpec → List ObservedNode → Shards → Covered → Option (Shards × Covered)
unfolding cover
masters spec [] shards covered = some (shards, covered)
masters spec (n ∷ nodes) shards covered = elim (master_step spec n shards covered) [
  | none ↦ none
  | some (more, wider) ↦ masters spec nodes more wider
]

abbrev pub master_of : Map String String → ObservedNode → String
master_of names n =
    if is_blank n.master_pod && not (is_blank n.master_id)
    then or_blank (lookup n.master_id names)
    else n.master_pod

abbrev pub replica_node : ObservedNode → Bool
replica_node n = n.pod_exists && n.redis_seen && n.role == "replica"

abbrev pub count_one : String → Option ℕ → Shards → Bool → Option Shards
count_one pod none shards good = some shards
count_one pod (some count) shards true = some (insert pod (suc count) shards)
count_one pod (some count) shards false = none

abbrev pub replica_step : Map String String → ObservedNode → Shards → Option Shards
replica_step names n shards =
    if not (replica_node n)
    then some shards
    else count_one (master_of names n) (lookup (master_of names n) shards) shards
        (not (is_blank n.pod) && observed_node_healthy n)

-- The second loop.
unfoldable pub replicas : Map String String → List ObservedNode → Shards → Option Shards
replicas names [] shards = some shards
replicas names (n ∷ nodes) shards = elim (replica_step names n shards) [
  | none ↦ none
  | some counted ↦ replicas names nodes counted
]

-- The third loop: is each node that is there a shard's master or replica?
abbrev pub accounted : Map String String → Shards → ObservedNode → Bool
accounted names shards n =
    not n.pod_exists && not n.redis_seen
    || n.role == "master" && not (is_blank n.slots) && has n.pod shards
    || n.role == "replica" && has (master_of names n) shards

unfoldable pub all_accounted : Map String String → Shards → List ObservedNode → Bool
all_accounted names shards [] = true
all_accounted names shards (n ∷ nodes) =
    accounted names shards n && all_accounted names shards nodes

-- The last loop.
unfoldable pub all_replicated : ℕ → Shards → Bool
all_replicated count [] = true
all_replicated count ((pod, replicas) ∷ shards) =
    nat_eq replicas count && all_replicated count shards

abbrev pub match_rest : ClusterSpec → List ObservedNode → Map String String → Option Shards → Bool
match_rest spec nodes names none = false
match_rest spec nodes names (some shards) =
    all_accounted names shards nodes && all_replicated spec.replicas_per_shard shards

abbrev pub match_masters :
    ClusterSpec → List ObservedNode → Map String String → Option (Shards × Covered) → Bool
match_masters spec nodes names none = false
match_masters spec nodes names (some (shards, covered)) =
    nat_eq (length shards) spec.shards
    && nat_eq (length covered) 16384
    && match_rest spec nodes names (replicas names nodes shards)

unfoldable pub observed_nodes_match_spec : List ObservedNode → ClusterSpec → Bool
unfolding node_names masters replicas all_accounted all_replicated
observed_nodes_match_spec nodes spec =
    not (is_empty nodes)
    && leb 1 spec.shards
    && match_masters spec nodes (node_names nodes []) (masters spec nodes [] [])

unfoldable pub has_redis_failover_flag : List String → Bool
has_redis_failover_flag flags = any (λ f. equal_fold f "fail" || equal_fold f "fail?") flags

abbrev slot_master : ObservedNode → Bool
slot_master n = n.redis_seen && n.role == "master" && not (is_blank n.slots)

abbrev failing : ObservedNode → Bool
failing n = not n.pod_exists || n.deleting || has_redis_failover_flag n.flags

unfoldable pub failed_slot_master : List ObservedNode → Bool
failed_slot_master nodes = any (λ n. slot_master n && failing n) nodes

unfoldable pub healthy_slot_masters : List ObservedNode → ℕ
healthy_slot_masters [] = 0
healthy_slot_masters (n ∷ nodes) =
    let rest = healthy_slot_masters nodes in
    if slot_master n && not (failing n) then suc rest else rest

unfoldable pub waiting_for_redis_failover : List ObservedNode → ClusterSpec → Bool
waiting_for_redis_failover nodes spec =
    failed_slot_master nodes && ltb (healthy_slot_masters nodes) spec.shards

-- The reason of a node, or no text.
abbrev pub node_reason : ObservedNode → String
node_reason n =
    if n.redis_seen && n.role == "master" && has_char is_bracket n.slots
    then "waiting for Redis slot migration/importing state to settle"
    else if n.pod_exists && n.deleting
    then "waiting for deleting pods to settle"
    else if n.pod_exists && not n.ready
    then "waiting for pods to become ready"
    else if n.pod_exists && not n.redis_seen
    then "waiting for Redis nodes to join cluster"
    else if n.redis_seen && n.role == "unknown"
    then "waiting for Redis node roles to settle"
    else if n.redis_seen && not (observed_node_healthy n)
    then "waiting for Redis nodes to become healthy"
    else ""

unfoldable pub first_reason : List ObservedNode → String
first_reason [] = ""
first_reason (n ∷ nodes) =
    let rest = first_reason nodes in if is_blank (node_reason n) then rest else node_reason n

unfoldable pub planning_instability_reason : List ObservedNode → ClusterSpec → String
unfolding waiting_for_redis_failover first_reason
planning_instability_reason nodes spec =
    if waiting_for_redis_failover nodes spec
    then "waiting for Redis native failover to promote a replica"
    else first_reason nodes
