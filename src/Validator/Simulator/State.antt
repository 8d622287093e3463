-- ===== src/Validator/Simulator/State.antt =====
-- internal/validator/simulator.go: the simulated state and how it starts.
use llm_k8s_redis.Prelude.{
  ℕ, String, List, [], ◌∷◌, Map, Option, some, none, Bool, true, false, string_keys, nat_keys,
  if◌then◌else◌, ok, err, lookup, insert, is_blank,
}
use llm_k8s_redis.Plan.{ClusterSpec, ObservedNode, or_blank}
use llm_k8s_redis.Observor.{observed_node_healthy}
use llm_k8s_redis.Cluster.Slots.{SlotSet}
use llm_k8s_redis.Prelude.{keys}
use llm_k8s_redis.Validator.Schema.{Checked, slots_set}

pub record SimulatedNode : Type 0 where
  pub exists : Bool
  pub ready : Bool
  pub cluster_member : Bool
  pub forgotten : Bool
  pub role : String
  pub replica_of : String
  pub image : String
  pub slots : SlotSet

pub record PlanSimulator : Type 0 where
  pub spec : ClusterSpec
  pub nodes : Map String SimulatedNode
  pub node_ids : Map String String
  pub slot_owners : Map ℕ String

abbrev pub blank_node : SimulatedNode
blank_node = record {
  exists = false;
  ready = false;
  cluster_member = false;
  forgotten = false;
  role = "";
  replica_of = "";
  image = "";
  slots = [];
}

abbrev pub add_if_missing : String → PlanSimulator → Option SimulatedNode → PlanSimulator
add_if_missing key s none = record s { nodes = insert key blank_node s.nodes }
add_if_missing key s (some n) = s

-- ensureNodeKey: afterwards the key has a node.
unfoldable pub ensure_node_key : String → PlanSimulator → PlanSimulator
ensure_node_key key s = add_if_missing key s (lookup key s.nodes)

abbrev pub write_node :
    String → (SimulatedNode → SimulatedNode) → PlanSimulator → Option SimulatedNode → PlanSimulator
write_node key f s none = s
write_node key f s (some n) = record s { nodes = insert key (f n) s.nodes }

-- Writes through the pointer that the map holds under `key`.
unfoldable pub update_node :
    String → (SimulatedNode → SimulatedNode) → PlanSimulator → PlanSimulator
update_node key f s = write_node key f s (lookup key s.nodes)

abbrev pub with_slot : ℕ → SimulatedNode → SimulatedNode
with_slot slot n = record n { slots = insert slot tt n.slots }

-- n.slots[slot] = struct{}{}; s.slotOwners[slot] = pod
unfoldable pub give_slot : String → ℕ → PlanSimulator → PlanSimulator
unfolding update_node
give_slot pod slot s = record (update_node pod (with_slot slot) s) {
  slot_owners = insert slot pod s.slot_owners;
}

unfoldable pub observed_key : ObservedNode → String
observed_key n = if is_blank n.pod then n.node_id else n.pod

abbrev pub note_id : ObservedNode → String → PlanSimulator → PlanSimulator
note_id n key s =
    if is_blank n.node_id then s else record s { node_ids = insert n.node_id key s.node_ids }

-- The first loop of `addObservedNodes`.
unfoldable pub add_keys : List ObservedNode → PlanSimulator → PlanSimulator
unfolding ensure_node_key observed_key
add_keys [] s = s
add_keys (n ∷ nodes) s =
    let key = observed_key n in
    add_keys nodes (if is_blank key then s else ensure_node_key key (note_id n key s))

abbrev pub first_nonblank : String → String → String
first_nonblank a b = if is_blank a then b else a

-- What the second loop writes to the node of an observed pod.
abbrev pub observe : ObservedNode → Map String String → SimulatedNode → SimulatedNode
observe n ids sn =
    let placed : SimulatedNode =
      if n.pod_exists then record sn { exists = true; image = n.image } else sn in
    if n.redis_seen
    then record placed {
      cluster_member = true;
      role = n.role;
      ready = observed_node_healthy n;
      replica_of =
          first_nonblank n.master_pod
            (first_nonblank (or_blank (lookup n.master_id ids)) n.master_id);
    }
    else placed

unfoldable pub give_slots : String → List ℕ → PlanSimulator → PlanSimulator
unfolding give_slot
give_slots pod [] s = s
give_slots pod (slot ∷ slots) s = give_slots pod slots (give_slot pod slot s)

abbrev pub give_parsed : String → Checked SlotSet → PlanSimulator → PlanSimulator
give_parsed key (ok set) s = give_slots key (keys set) s
give_parsed key (err e) s = s

-- The body of the second loop of `addObservedNodes`.
unfoldable pub add_observed : ObservedNode → PlanSimulator → PlanSimulator
unfolding give_slots ensure_node_key update_node observed_key
add_observed n s =
    let key = observed_key n in
    if is_blank key
    then s
    else give_parsed key (slots_set n.slots)
        (update_node key (observe n s.node_ids) (ensure_node_key key s))

unfoldable pub add_all_observed : List ObservedNode → PlanSimulator → PlanSimulator
unfolding add_observed
add_all_observed [] s = s
add_all_observed (n ∷ nodes) s = add_all_observed nodes (add_observed n s)

unfoldable pub add_observed_nodes : List ObservedNode → PlanSimulator → PlanSimulator
unfolding add_keys add_all_observed
add_observed_nodes nodes s = add_all_observed nodes (add_keys nodes s)

abbrev pub empty_simulator : ClusterSpec → PlanSimulator
empty_simulator spec = record { spec = spec; nodes = []; node_ids = []; slot_owners = [] }

unfoldable pub new_plan_simulator : ClusterSpec → List ObservedNode → PlanSimulator
unfolding add_observed_nodes
new_plan_simulator spec nodes = add_observed_nodes nodes (empty_simulator spec)
