-- ===== src/Planner/Steps.antt =====
-- internal/planner/go_planner.go: pod names and the steps that the planner writes.
use llm_k8s_redis.Prelude.{
  ℕ, zero, suc, ◌+◌, String, List, [], ◌∷◌, ◌++◌, map, Map, Option, some, none, true, ℤ, pos,
  negsuc, is_blank, cut_prefix, atoi, show, ◌<>◌, if◌then◌else◌,
}
use llm_k8s_redis.Plan.{
  Value, str, bool, int, ActionType, ensure_node, wait_node_ready, meet_node, replicate_node,
  migrate_slots, forget_node, delete_node, verify_cluster, Step, Plan, dsl_version, ClusterSpec,
}

unfoldable pub redis_pod : ℕ → String
redis_pod i = "redis-" <> show i

unfoldable pub redis_pods : ℕ → ℕ → List String
unfolding redis_pod
redis_pods start zero = []
redis_pods start (suc count) = redis_pod start ∷ redis_pods (start + 1) count

-- The planner's own copy of the test on a pod's name.
abbrev pub planner_ordinal_of : Option String → Option ℕ
planner_ordinal_of none = none
planner_ordinal_of (some raw) =
    if is_blank raw
    then none
    else elim (atoi raw) [ none ↦ none | some (pos n) ↦ some n | some (negsuc n) ↦ none ]

unfoldable pub planner_pod_ordinal : String → Option ℕ
planner_pod_ordinal pod = planner_ordinal_of (cut_prefix pod "redis-")

abbrev pub or_minus_one : Option ℕ → ℤ
or_minus_one none = negsuc 0
or_minus_one (some n) = pos n

unfoldable pub redis_pod_ordinal_value : String → ℤ
unfolding planner_pod_ordinal
redis_pod_ordinal_value pod = or_minus_one (planner_pod_ordinal pod)

abbrev pub make_step : String → ActionType → Map String Value → Step
make_step id action params = record { id = id; action = action; params = some params }

abbrev pub ensure_step : ClusterSpec → String → Step
ensure_step spec pod = make_step ("ensure-" <> pod) ensure_node (
    ("namespace", str spec.name)
    ∷ ("pod", str pod)
    ∷ ("image", str spec.image)
    ∷ ("memorySize", str spec.memory_size)
    ∷ [])

abbrev pub wait_step : ClusterSpec → String → Step
wait_step spec pod =
    make_step ("wait-" <> pod) wait_node_ready
      (("namespace", str spec.name) ∷ ("pod", str pod) ∷ [])

abbrev pub delete_step : ClusterSpec → String → Step
delete_step spec pod =
    make_step ("delete-" <> pod) delete_node (("namespace", str spec.name) ∷ ("pod", str pod) ∷ [])

abbrev pub meet_step : ClusterSpec → String → String → Step
meet_step spec source target =
    make_step ("meet-" <> target) meet_node
      (("namespace", str spec.name) ∷ ("sourcePod", str source) ∷ ("targetPod", str target) ∷ [])

abbrev pub replicate_step : ClusterSpec → String → String → Step
replicate_step spec master replica =
    make_step ("replicate-" <> replica) replicate_node
      (("namespace", str spec.name) ∷ ("masterPod", str master) ∷ ("replicaPod", str replica) ∷ [])

abbrev pub migrate_step : ClusterSpec → String → String → String → Step
migrate_step spec source target slots =
    make_step ("migrate-" <> (source <> ("-" <> target))) migrate_slots (
      ("namespace", str spec.name)
      ∷ ("sourcePod", str source)
      ∷ ("targetPod", str target)
      ∷ ("slots", str slots)
      ∷ [])

abbrev pub verify_step : ClusterSpec → Step
verify_step spec = make_step "verify" verify_cluster (
    ("expectedShards", int (pos spec.shards))
    ∷ ("expectedReplicasPerShard", int (pos spec.replicas_per_shard))
    ∷ ("requireClusterStateOk", bool true)
    ∷ ("requireFullSlotCoverage", bool true)
    ∷ ("requireAllSlotOwnersHaveReplicas", bool true)
    ∷ [])

abbrev pub ensure_steps : ClusterSpec → List String → List Step
ensure_steps spec pods = map (ensure_step spec) pods

abbrev pub wait_steps : ClusterSpec → List String → List Step
wait_steps spec pods = map (wait_step spec) pods

abbrev pub meet_steps : ClusterSpec → String → List String → List Step
meet_steps spec source pods = map (meet_step spec source) pods

abbrev forget_params : ClusterSpec → String → String → Map String Value
forget_params spec pod node_id =
    ("namespace", str spec.name)
    ∷ ("pod", str pod)
    ∷ (if is_blank node_id then [] else ("lastKnownNodeId", str node_id) ∷ [])

abbrev pub forget_delete_steps : ClusterSpec → String → String → List Step
forget_delete_steps spec pod node_id =
    make_step ("forget-" <> pod) forget_node (forget_params spec pod node_id)
    ∷ delete_step spec pod
    ∷ []

-- newGoPlan, given the steps before the final VerifyCluster.
unfoldable pub new_go_plan : ClusterSpec → String → String → List Step → Plan
new_go_plan spec id summary steps = record {
  dsl_version = dsl_version;
  plan_id = id <> ("-" <> show spec.generation);
  target_generation = spec.generation;
  summary = summary;
  steps = steps ++ verify_step spec ∷ [];
}

pub record ReplicaProvision : Type 0 where
  pub master : String
  pub replica : String

abbrev pub replica_pods : List ReplicaProvision → List String
replica_pods replicas = map (λ (r : ReplicaProvision). r.replica) replicas

abbrev pub provision_meets : ClusterSpec → List ReplicaProvision → List Step
provision_meets spec replicas =
    map (λ (r : ReplicaProvision). meet_step spec r.master r.replica) replicas

abbrev pub provision_replicates : ClusterSpec → List ReplicaProvision → List Step
provision_replicates spec replicas =
    map (λ (r : ReplicaProvision). replicate_step spec r.master r.replica) replicas

abbrev pub replica_provision_steps : ClusterSpec → List ReplicaProvision → List Step
replica_provision_steps spec replicas =
    ensure_steps spec (replica_pods replicas)
    ++ (wait_steps spec (replica_pods replicas)
        ++ (provision_meets spec replicas ++ provision_replicates spec replicas))
