-- ===== src/Examples/Small.antt =====
-- A small cluster: two masters with a replica each, of which the first holds four slots, and a pod
-- that Redis does not list.
use llm_k8s_redis.Prelude.{
  ℕ, String, List, [], ◌∷◌, Map, some, Bool, true, false, ok, ◌≡◌, refl, All, lookup, insert, erase,
  split, trim_space, has_char, cut_at, atoi, equal_fold, string_keys, nat_keys,
}
use llm_k8s_redis.Plan.{
  str, Step, ClusterSpec, ObservedNode, migrate_slots, add_slots, delete_node, param_string,
}
use llm_k8s_redis.Observor.{observed_node_healthy, observed_has_flag}
use llm_k8s_redis.Cluster.Slots.{SlotSet, parse_slot_spec, slot_token_range, slots_between}
use llm_k8s_redis.Validator.Schema.{slots_set}
use llm_k8s_redis.Validator.Simulator.Checks.{replica_count}
use llm_k8s_redis.Validator.Simulator.State.{
  SimulatedNode, PlanSimulator, blank_node, new_plan_simulator,
}
use llm_k8s_redis.Validator.Simulator.Start.{IsObserved}
use llm_k8s_redis.Validator.Simulator.Steps.{apply, apply_action}

abbrev pub spec : ClusterSpec
spec = record {
  name = "demo";
  generation = 2;
  shards = 2;
  replicas_per_shard = 1;
  image = "redis:7";
  memory_size = "1Gi";
}

abbrev pub node : String → String → String → String → String → ObservedNode
node pod id role slots master_id = record {
  pod = pod;
  pod_exists = true;
  image = "redis:7";
  redis_seen = true;
  node_id = id;
  role = role;
  slots = slots;
  master_id = master_id;
  master_pod = "";
  ready = true;
  deleting = false;
  flags = role ∷ [];
  link_state = "connected";
}

abbrev pub spare : ObservedNode
spare = record (node "redis-4" "" "" "" "") { redis_seen = false; flags = []; link_state = "" }

abbrev pub nodes : List ObservedNode
nodes =
    node "redis-0" "a" "master" "0-1" "-"
    ∷ node "redis-1" "b" "replica" "" "a"
    ∷ node "redis-2" "c" "master" "" "-"
    ∷ node "redis-3" "d" "replica" "" "c"
    ∷ spare
    ∷ []

pub nodes-IsObserved : All IsObserved nodes
nodes-IsObserved = (
  seen,
  (seen, (seen, (seen, (record { ready_pod = λ r. refl; slots_seen = λ b. absurd (cc) }, tt)))),
)
  where
    seen : {pod id role slots master_id : String} → IsObserved (node pod id role slots master_id)
    seen = record { ready_pod = λ r. refl; slots_seen = λ b. refl }

abbrev pub move : Step
move = record {
  id = "m";
  action = migrate_slots;
  params =
      some (("sourcePod", str "redis-0") ∷ ("targetPod", str "redis-2") ∷ ("slots", str "1") ∷ []);
}

abbrev pub add : Step
add = record {
  id = "a";
  action = add_slots;
  params = some (("pod", str "redis-2") ∷ ("slots", str "7") ∷ []);
}

abbrev pub drop : Step
drop = record { id = "d"; action = delete_node; params = some (("pod", str "redis-4") ∷ []) }

abbrev sim : String → String → SlotSet → SimulatedNode
sim role replica_of slots = record {
  exists = true;
  ready = true;
  cluster_member = true;
  forgotten = false;
  role = role;
  replica_of = replica_of;
  image = "redis:7";
  slots = slots;
}

abbrev pub spare_node : Bool → SimulatedNode
spare_node there = record blank_node { exists = there; image = "redis:7" }

abbrev state : Bool → SlotSet → SlotSet → Map ℕ String → PlanSimulator
state there first second owners = record {
  spec = spec;
  nodes =
      ("redis-0", sim "master" "-" first)
      ∷ ("redis-1", sim "replica" "redis-0" [])
      ∷ ("redis-2", sim "master" "-" second)
      ∷ ("redis-3", sim "replica" "redis-2" [])
      ∷ ("redis-4", spare_node there)
      ∷ [];
  node_ids = ("a", "redis-0") ∷ ("b", "redis-1") ∷ ("c", "redis-2") ∷ ("d", "redis-3") ∷ [];
  slot_owners = owners;
}

abbrev pub start : PlanSimulator
start = state true ((0, tt) ∷ (1, tt) ∷ []) [] ((0, "redis-0") ∷ (1, "redis-0") ∷ [])

-- The node of redis-0 at the start.
abbrev pub first_master : SimulatedNode
first_master = sim "master" "-" ((0, tt) ∷ (1, tt) ∷ [])

abbrev pub moved : PlanSimulator
moved = state true ((0, tt) ∷ []) ((1, tt) ∷ []) ((0, "redis-0") ∷ (1, "redis-2") ∷ [])

abbrev pub added : PlanSimulator
added =
    state true ((0, tt) ∷ (1, tt) ∷ []) ((7, tt) ∷ [])
      ((0, "redis-0") ∷ (1, "redis-0") ∷ (7, "redis-2") ∷ [])

abbrev pub dropped : PlanSimulator
dropped = state false ((0, tt) ∷ (1, tt) ∷ []) [] ((0, "redis-0") ∷ (1, "redis-0") ∷ [])

pub starts : new_plan_simulator spec nodes ≡ start
unfolding new_plan_simulator lookup slots_set parse_slot_spec split trim_space slot_token_range
    has_char cut_at atoi slots_between insert observed_node_healthy observed_has_flag equal_fold
starts = refl

pub moves : apply move (move ∷ []) 0 start ≡ ok moved
unfolding apply apply_action param_string lookup slots_set parse_slot_spec split trim_space
    slot_token_range has_char cut_at atoi slots_between insert erase replica_count
moves = refl

pub adds : apply add (add ∷ []) 0 start ≡ ok added
unfolding apply apply_action param_string lookup slots_set parse_slot_spec split trim_space
    slot_token_range has_char cut_at atoi slots_between insert replica_count
adds = refl

pub drops : apply drop (drop ∷ []) 0 start ≡ ok dropped
unfolding apply apply_action param_string lookup slots_set parse_slot_spec split trim_space
    slot_token_range has_char cut_at atoi slots_between insert replica_count
drops = refl
