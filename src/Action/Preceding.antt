-- ===== src/Action/Preceding.antt =====
-- internal/action: what a step asks of the steps before it, and what it writes to the status's topology.
use llm_k8s_redis.Prelude.{
  ℕ, String, List, [], ◌∷◌, map, Option, some, none, Bool, true, false, ◌&&◌, ◌==◌, string_keys,
  nat_keys, if◌then◌else◌, Result, ok, err, ◌<>◌, any, find, has,
}
use llm_k8s_redis.Plan.{
  Step, ActionType, ensure_node, wait_node_ready, add_slots, param_string, or_blank,
}
use llm_k8s_redis.Api.{NodeTopology, ShardTopology, ClusterTopology, RedisCluster}
use llm_k8s_redis.Cluster.Slots.{SlotError, SlotSet, parse_slot_spec, add_range}
use llm_k8s_redis.Action.Pods.{Pod}
use llm_k8s_redis.Action.World.{
  Ended, param_err, failed_with, PodReply, pod_found, pod_not_found, get_failed,
}

abbrev is_ensure : ActionType → Bool
is_ensure ensure_node = true
is_ensure _ = false

abbrev is_wait : ActionType → Bool
is_wait wait_node_ready = true
is_wait _ = false

abbrev is_add : ActionType → Bool
is_add add_slots = true
is_add _ = false

abbrev is_text : String → Option String → Bool
is_text s none = false
is_text s (some t) = t == s

abbrev names_pod : String → String → Step → Bool
names_pod ns pod s =
    is_text ns (param_string s.params "namespace") && is_text pod (param_string s.params "pod")

-- precededEnsureNode, of the steps before the step.
unfoldable pub preceded_ensure_node : List Step → String → String → Bool
preceded_ensure_node before ns pod = any (λ s. is_ensure s.action && names_pod ns pod s) before

-- precededWaitNodeReady of internal/action/meet_node.go
unfoldable pub preceded_wait_node_ready : List Step → String → String → Bool
preceded_wait_node_ready before ns pod = any (λ s. is_wait s.action && names_pod ns pod s) before

abbrev cover_parsed : Result SlotError (List ℕ) → SlotSet → SlotSet
cover_parsed (err e) covered = covered
cover_parsed (ok slots) covered = add_range slots covered

abbrev cover_step : String → Step → SlotSet → SlotSet
cover_step ns s covered =
    if is_add s.action && is_text ns (param_string s.params "namespace")
    then cover_parsed (parse_slot_spec (or_blank (param_string s.params "slots"))) covered
    else covered

unfoldable covered_before : String → List Step → SlotSet → SlotSet
covered_before ns [] covered = covered
covered_before ns (s ∷ before) covered = covered_before ns before (cover_step ns s covered)

-- precedingAddSlotsOverlap of internal/action/add_slots.go; none is -1.
unfoldable pub preceding_add_slots_overlap : List Step → String → List ℕ → Option ℕ
unfolding covered_before
preceding_add_slots_overlap before ns desired =
    find (λ s. has s (covered_before ns before [])) desired

-- getPod of internal/action/migrate_slots.go
abbrev pub get_pod : String → PodReply → Result Ended Pod
get_pod path (pod_found p) = ok p
get_pod path pod_not_found = err (param_err ("pod " <> (path <> " does not exist")))
get_pod path (get_failed e) = err (failed_with ("get pod: " <> e) e)

abbrev edit_node : String → (NodeTopology → NodeTopology) → NodeTopology → NodeTopology
edit_node pod edit n = if n.pod == pod then edit n else n

abbrev edit_shard : String → (NodeTopology → NodeTopology) → ShardTopology → ShardTopology
edit_shard pod edit sh = record sh {
  master = edit_node pod edit sh.master;
  replicas = map (edit_node pod edit) sh.replicas;
}

abbrev edit_topology :
    String → (NodeTopology → NodeTopology) → Option ClusterTopology → Option ClusterTopology
edit_topology pod edit none = none
edit_topology pod edit (some t) = some (record { shards = map (edit_shard pod edit) t.shards })

-- refreshExistingTopologyPod of internal/action/wait_node_ready.go
unfoldable pub refresh_existing_topology_pod :
    RedisCluster → String → (NodeTopology → NodeTopology) → RedisCluster
refresh_existing_topology_pod c pod edit = record c { topology = edit_topology pod edit c.topology }

unfoldable pub refresh_existing_topology_slots :
    RedisCluster → String → String → String → RedisCluster
unfolding refresh_existing_topology_pod
refresh_existing_topology_slots c pod id slots =
    refresh_existing_topology_pod c pod
      (λ n. record n { node_id = id; ready = true; slots = slots })
