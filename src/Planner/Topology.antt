-- ===== src/Planner/Topology.antt =====
-- internal/planner/go_planner.go: the shards that the planner reads from the observed nodes.
use llm_k8s_redis.Prelude.{
  ℕ, zero, suc, String, List, [], ◌∷◌, ◌++◌, Map, Option, some, none, Bool, true, false, not, ◌&&◌,
  ◌||◌, ◌==◌, string_keys, nat_keys, if◌then◌else◌, lookup, insert, is_blank, length, Result, ok,
  err, split, is_char, trim_space, nat_eq,
}
use llm_k8s_redis.Plan.{ObservedNode, or_blank}
use llm_k8s_redis.Observor.{observed_node_healthy, observed_node_forgettable_ghost}
use llm_k8s_redis.Cluster.Slots.{SlotError, slot_token_range, slots_between}
use llm_k8s_redis.Planner.Slots.{redis_slot_count}

pub record ObservedReplica : Type 0 where
  pub pod : String
  pub node_id : String
  pub image : String
  pub ready : Bool

pub record ObservedMaster : Type 0 where
  pub pod : String
  pub node_id : String
  pub image : String
  pub slots : String
  pub ready : Bool
  pub replicas : List ObservedReplica

-- `observedTopology` has the one field `masters`.
abbrev pub ObservedTopology : Type 0
ObservedTopology = List ObservedMaster

abbrev pub id_pods : List ObservedNode → Map String String → Map String String
id_pods [] ids = ids
id_pods (n ∷ nodes) ids =
    id_pods nodes (if is_blank n.node_id || is_blank n.pod then ids else insert n.node_id n.pod ids)

abbrev pub master_counts : ObservedNode → Bool
master_counts n =
    n.pod_exists
    && n.redis_seen
    && n.role == "master"
    && not (is_blank n.slots)
    && observed_node_healthy n

abbrev as_master : ObservedNode → ObservedMaster
as_master n = record {
  pod = n.pod;
  node_id = n.node_id;
  image = n.image;
  slots = n.slots;
  ready = true;
  replicas = [];
}

-- The second loop of `topologyFromObserved`, with the index of each master's pod.
unfoldable pub add_masters :
    List ObservedNode → Map String ℕ → List ObservedMaster → Map String ℕ × List ObservedMaster
add_masters [] index masters = (index, masters)
add_masters (n ∷ nodes) index masters =
    let counts = master_counts n in
    add_masters nodes (if counts then insert n.pod (length masters) index else index)
      (if counts then masters ++ as_master n ∷ [] else masters)

abbrev pub add_replica : ObservedNode → ObservedMaster → ObservedMaster
add_replica n m = record m {
  replicas =
      m.replicas ++ record { pod = n.pod; node_id = n.node_id; image = n.image; ready = true } ∷ [];
}

-- A write at an index of a slice.
abbrev pub at_index :
    ℕ → (ObservedMaster → ObservedMaster) → List ObservedMaster → List ObservedMaster
at_index i f [] = []
at_index zero f (m ∷ masters) = f m ∷ masters
at_index (suc i) f (m ∷ masters) = m ∷ at_index i f masters

abbrev pub at_found :
    Option ℕ → (ObservedMaster → ObservedMaster) → List ObservedMaster → List ObservedMaster
at_found none f masters = masters
at_found (some i) f masters = at_index i f masters

abbrev pub replica_counts : ObservedNode → Bool
replica_counts n = n.pod_exists && n.redis_seen && n.role == "replica" && observed_node_healthy n

abbrev pub master_pod_of : Map String String → ObservedNode → String
master_pod_of ids n =
    if is_blank n.master_pod then or_blank (lookup n.master_id ids) else n.master_pod

-- The third loop.
unfoldable pub add_replicas :
    Map String String → Map String ℕ → List ObservedNode → List ObservedMaster → List ObservedMaster
add_replicas ids index [] masters = masters
add_replicas ids index (n ∷ nodes) masters = add_replicas ids index nodes (
    if replica_counts n
    then at_found (lookup (master_pod_of ids n) index) (add_replica n) masters
    else masters)

unfoldable pub topology_from_observed : List ObservedNode → ObservedTopology
unfolding add_masters add_replicas
topology_from_observed nodes =
    let (index, masters) = add_masters nodes [] [] in
    add_replicas (id_pods nodes []) index nodes masters

abbrev all_ready : List ObservedReplica → Bool
all_ready [] = true
all_ready (r ∷ replicas) = r.ready && all_ready replicas

abbrev uniform_ready : ℕ → ObservedTopology → Bool
uniform_ready count [] = true
uniform_ready count (m ∷ t) =
    m.ready && nat_eq (length m.replicas) count && all_ready m.replicas && uniform_ready count t

-- shardScaleReady: the number of replicas that every master has.
unfoldable pub shard_scale_ready : ObservedTopology → Option ℕ
shard_scale_ready [] = none
shard_scale_ready (m ∷ t) =
    if uniform_ready (length m.replicas) (m ∷ t) then some (length m.replicas) else none

-- for i := start; i <= end; i++ { if out[i] != "" { return nil, false }; out[i] = m.pod }
unfoldable pub claim_slots : String → List ℕ → Map ℕ String → Option (Map ℕ String)
claim_slots pod [] owners = some owners
claim_slots pod (slot ∷ slots) owners =
    let rest = claim_slots pod slots (insert slot pod owners) in
    if is_blank (or_blank (lookup slot owners)) then rest else none

abbrev pub option_bind {ℓ κ} : {A : Type ℓ} {B : Type κ} → Option A → (A → Option B) → Option B
option_bind none f = none
option_bind (some a) f = f a

abbrev token_slots : Result SlotError (ℕ × ℕ) → Option (List ℕ)
token_slots (ok (a, b)) = some (slots_between a b)
token_slots (err e) = none

unfoldable pub claim_parts : String → List String → Map ℕ String → Option (Map ℕ String)
unfolding claim_slots
claim_parts pod [] owners = some owners
claim_parts pod (raw ∷ parts) owners =
    let part = trim_space raw in
    let blank = claim_parts pod parts owners in
    let claimed = option_bind (token_slots (slot_token_range part)) λ slots.
      option_bind (claim_slots pod slots owners) λ owners'. claim_parts pod parts owners' in
    if is_blank part then blank else claimed

unfoldable pub claim_masters : ObservedTopology → Map ℕ String → Option (Map ℕ String)
unfolding claim_parts
claim_masters [] owners = some owners
claim_masters (m ∷ t) owners =
    option_bind (claim_parts m.pod (split (is_char b',') m.slots) owners)
      λ owners'. claim_masters t owners'

abbrev if_complete : Map ℕ String → Option (Map ℕ String)
if_complete owners = if nat_eq (length owners) redis_slot_count then some owners else none

-- slotOwners: none if the second result is false.
unfoldable pub slot_owners : ObservedTopology → Option (Map ℕ String)
unfolding claim_masters
slot_owners t = option_bind (claim_masters t []) if_complete

abbrev drifted : String → String → Bool
drifted image i = not (is_blank i) && not (i == image)

abbrev any_replica_drifted : String → List ObservedReplica → Bool
any_replica_drifted image [] = false
any_replica_drifted image (r ∷ replicas) =
    drifted image r.image || any_replica_drifted image replicas

unfoldable pub topology_image_drift : ObservedTopology → String → Bool
topology_image_drift [] image = false
topology_image_drift (m ∷ t) image =
    drifted image m.image || any_replica_drifted image m.replicas || topology_image_drift t image

abbrev same_count : ℕ → ObservedTopology → Bool
same_count count [] = true
same_count count (m ∷ t) = nat_eq (length m.replicas) count && same_count count t

unfoldable pub uniform_replica_count : ObservedTopology → Bool
uniform_replica_count [] = true
uniform_replica_count (m ∷ t) = same_count (length m.replicas) t

unfoldable pub live_pod_exists : List ObservedNode → String → Bool
live_pod_exists [] pod = false
live_pod_exists (n ∷ nodes) pod = n.pod == pod && n.pod_exists || live_pod_exists nodes pod

unfoldable pub ghost_nodes : List ObservedNode → List ObservedNode
ghost_nodes [] = []
ghost_nodes (n ∷ nodes) =
    let rest = ghost_nodes nodes in if observed_node_forgettable_ghost n then n ∷ rest else rest

unfoldable pub has_ambiguous_no_slot_node : List ObservedNode → Bool
has_ambiguous_no_slot_node [] = false
has_ambiguous_no_slot_node (n ∷ nodes) =
    n.redis_seen
      && is_blank n.slots
      && not (observed_node_healthy n)
      && not (observed_node_forgettable_ghost n)
    || has_ambiguous_no_slot_node nodes
