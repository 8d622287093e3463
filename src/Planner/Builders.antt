-- ===== src/Planner/Builders.antt =====
-- internal/planner/go_planner.go: the plans that create, repair and scale replicas. Where the source
-- appends to slices in nested loops, the steps of each round are put in front of those that follow.
use llm_k8s_redis.Prelude.{
  ℕ, zero, suc, ◌+◌, ◌-◌, ◌*◌, String, Char, List, [], ◌∷◌, ◌++◌, Map, Option, some, none, Bool,
  true, not, ◌&&◌, ◌||◌, if◌then◌else◌, is_blank, is_empty, length, nat_eq, ltb, leb, int_lt,
  is_char, ◌<>◌,
}
use llm_k8s_redis.Plan.{Value, str, forget_node, add_slots, Step, Plan, ClusterSpec, ObservedNode}
use llm_k8s_redis.Planner.Steps.{
  redis_pod, redis_pods, redis_pod_ordinal_value, make_step, ensure_steps, wait_steps, meet_steps,
  delete_step, replicate_step, forget_delete_steps, new_go_plan, ReplicaProvision,
  replica_provision_steps,
}
use llm_k8s_redis.Planner.Slots.{slot_range}
use llm_k8s_redis.Planner.Topology.{
  ObservedReplica, ObservedMaster, ObservedTopology, option_bind, ghost_nodes,
  has_ambiguous_no_slot_node, uniform_replica_count, live_pod_exists,
}

-- What the planner reads of a request.
pub record Request : Type 0 where
  pub spec : ClusterSpec
  pub nodes : List ObservedNode
  pub next_pod_ordinal : ℕ

abbrev pub tail : List String → List String
tail [] = []
tail (p ∷ pods) = pods

-- The pods of one shard: the master first.
abbrev pub shard_size : ClusterSpec → ℕ
shard_size spec = 1 + spec.replicas_per_shard

-- for replica := 1; replica <= ReplicasPerShard; replica++, with the rounds left.
unfoldable pub shard_replicates : ClusterSpec → ℕ → ℕ → ℕ → List Step
shard_replicates spec shard replica zero = []
shard_replicates spec shard replica (suc left) =
    replicate_step spec (redis_pod (shard * shard_size spec))
      (redis_pod (shard * shard_size spec + replica))
    ∷ shard_replicates spec shard (replica + 1) left

unfoldable pub create_replicates : ClusterSpec → ℕ → ℕ → List Step
unfolding shard_replicates
create_replicates spec shard zero = []
create_replicates spec shard (suc left) =
    shard_replicates spec shard 1 spec.replicas_per_shard ++ create_replicates spec (shard + 1) left

abbrev add_slots_step : ClusterSpec → String → String → Step
add_slots_step spec master slots =
    make_step ("add-slots-" <> master) add_slots
      (("namespace", str spec.name) ∷ ("pod", str master) ∷ ("slots", str slots) ∷ [])

unfoldable pub create_slots : ClusterSpec → ℕ → ℕ → List Step
create_slots spec shard zero = []
create_slots spec shard (suc left) =
    add_slots_step spec (redis_pod (shard * shard_size spec)) (slot_range shard spec.shards)
    ∷ create_slots spec (shard + 1) left

abbrev create_steps : ClusterSpec → List String → List Step
create_steps spec pods =
    ensure_steps spec pods
    ++ (wait_steps spec pods
        ++ (meet_steps spec "redis-0" (tail pods)
            ++ (create_replicates spec 0 spec.shards ++ create_slots spec 0 spec.shards)))

unfoldable pub build_create_plan : Request → Option Plan
unfolding redis_pods create_replicates create_slots
build_create_plan req =
    let spec = req.spec in
    let total = spec.shards * shard_size spec in
    if nat_eq total 0
    then none
    else some (
        new_go_plan spec "go-create" "Create Redis Cluster"
          (create_steps spec (redis_pods 0 total)))

-- safeIDPart of two values: `/` and `:` become `-`.
abbrev pub clean_char : Char → Char
clean_char c = if is_char b'/' c || is_char b':' c then "-" else c

unfoldable pub clean : String → String
clean String.[] = ""
clean (String.◌∷◌ c s) = String.◌∷◌ (clean_char c) (clean s)

abbrev pub safe_id_part : String → String → String
safe_id_part a b =
    if not (is_blank a) then clean a else if not (is_blank b) then clean b else "unknown"

abbrev ghost_params : ClusterSpec → ObservedNode → Map String Value
ghost_params spec n =
    ("namespace", str spec.name) ∷ (if is_blank n.pod then [] else ("pod", str n.pod) ∷ [])
    ++ (if is_blank n.node_id then [] else ("lastKnownNodeId", str n.node_id) ∷ [])

abbrev ghost_delete : ClusterSpec → List ObservedNode → ObservedNode → List Step
ghost_delete spec nodes n =
    if not (is_blank n.pod) && not n.pod_exists && not (live_pod_exists nodes n.pod)
    then delete_step spec n.pod ∷ []
    else []

-- The loop over the ghosts; none is the early return.
unfoldable pub ghost_steps :
    ClusterSpec → List ObservedNode → List ObservedNode → Option (List Step)
ghost_steps spec nodes [] = some []
ghost_steps spec nodes (n ∷ ghosts) =
    let steps = option_bind (ghost_steps spec nodes ghosts) λ rest. some (
      make_step ("forget-" <> safe_id_part n.pod n.node_id) forget_node (ghost_params spec n)
      ∷ (ghost_delete spec nodes n ++ rest)) in
    if is_blank n.pod && is_blank n.node_id then none else steps

-- New replicas of one master, from the next ordinal on.
unfoldable pub provision : String → ℕ → ℕ → List ReplicaProvision
provision master next zero = []
provision master next (suc count) =
    record { master = master; replica = redis_pod next } ∷ provision master (next + 1) count

abbrev missing_replicas : ClusterSpec → ObservedMaster → ℕ
missing_replicas spec m = spec.replicas_per_shard - length m.replicas

unfoldable pub repair_replicas : ClusterSpec → ℕ → ObservedTopology → Option (List ReplicaProvision)
unfolding provision
repair_replicas spec next [] = some []
repair_replicas spec next (m ∷ t) =
    let missing = missing_replicas spec m in
    let rest =
      option_bind (repair_replicas spec (next + missing) t)
        λ others. some (provision m.pod next missing ++ others) in
    if ltb 0 missing && not m.ready then none else rest

abbrev if_steps : ClusterSpec → String → String → List Step → Option Plan
if_steps spec id summary steps =
    if is_empty steps then none else some (new_go_plan spec id summary steps)

unfoldable pub build_repair_plan : Request → ObservedTopology → Option Plan
unfolding ghost_steps repair_replicas
build_repair_plan req t =
    let spec = req.spec in
    let ghosts = ghost_nodes req.nodes in
    let plan = option_bind (ghost_steps spec req.nodes ghosts) λ forgets.
      option_bind (repair_replicas spec req.next_pod_ordinal t) λ replicas.
        if_steps spec "go-repair" "Repair Redis Cluster topology"
          (forgets ++ replica_provision_steps spec replicas) in
    if not (nat_eq (length t) spec.shards)
    then none
    else if has_ambiguous_no_slot_node req.nodes
    then none
    else if is_empty ghosts && uniform_replica_count t
    then none
    else plan

-- sort.Slice, from the highest ordinal down, by insertion.
unfoldable pub insert_replica : ObservedReplica → List ObservedReplica → List ObservedReplica
insert_replica r [] = r ∷ []
insert_replica r (q ∷ replicas) =
    if int_lt (redis_pod_ordinal_value r.pod) (redis_pod_ordinal_value q.pod)
    then q ∷ insert_replica r replicas
    else r ∷ q ∷ replicas

unfoldable pub sort_replicas : List ObservedReplica → List ObservedReplica
unfolding insert_replica
sort_replicas [] = []
sort_replicas (r ∷ replicas) = insert_replica r (sort_replicas replicas)

-- The loop over the first `count` replicas; a blank pod is the early return.
unfoldable pub remove_replicas : ClusterSpec → ℕ → List ObservedReplica → Option (List Step)
remove_replicas spec zero replicas = some []
remove_replicas spec (suc count) [] = some []
remove_replicas spec (suc count) (r ∷ replicas) =
    let steps =
      option_bind (remove_replicas spec count replicas)
        λ rest. some (forget_delete_steps spec r.pod r.node_id ++ rest) in
    if is_blank r.pod then none else steps

unfoldable pub scale_in_replicas : ClusterSpec → ObservedTopology → Option (List Step)
unfolding sort_replicas remove_replicas
scale_in_replicas spec [] = some []
scale_in_replicas spec (m ∷ t) =
    let target = spec.replicas_per_shard in
    let steps =
      option_bind (remove_replicas spec (length m.replicas - target) (sort_replicas m.replicas))
        λ these. option_bind (scale_in_replicas spec t) λ rest. some (these ++ rest) in
    if ltb (length m.replicas) target then none else steps

unfoldable pub build_replica_scale_in_plan : Request → ObservedTopology → Option Plan
unfolding scale_in_replicas
build_replica_scale_in_plan req t =
    let spec = req.spec in
    let plan =
      option_bind (scale_in_replicas spec t)
        λ steps. if_steps spec "go-replica-scalein" "Scale Redis Cluster replicas down" steps in
    if nat_eq (length t) spec.shards then plan else none

abbrev ready_with : ℕ → ObservedTopology → Bool
ready_with current [] = true
ready_with current (m ∷ t) = m.ready && nat_eq (length m.replicas) current && ready_with current t

-- The first loop of `buildReplicaScaleOutPlan`: the number of replicas of every master. It is none
-- on an early return, and on an empty topology, where the source stops after the loop.
unfoldable pub current_replicas : ObservedTopology → Option ℕ
current_replicas [] = none
current_replicas (m ∷ t) =
    if ready_with (length m.replicas) (m ∷ t) then some (length m.replicas) else none

unfoldable pub scale_out_replicas : ℕ → ℕ → ObservedTopology → List ReplicaProvision
unfolding provision
scale_out_replicas missing next [] = []
scale_out_replicas missing next (m ∷ t) =
    provision m.pod next missing ++ scale_out_replicas missing (next + missing) t

unfoldable pub build_replica_scale_out_plan : Request → ObservedTopology → Option Plan
unfolding current_replicas scale_out_replicas
build_replica_scale_out_plan req t =
    let spec = req.spec in
    let plan = option_bind (current_replicas t) λ current.
      if leb spec.replicas_per_shard current
      then none
      else some (
          new_go_plan spec "go-replica-scaleout" "Scale Redis Cluster replicas" (
            replica_provision_steps spec
              (scale_out_replicas (spec.replicas_per_shard - current) req.next_pod_ordinal t))) in
    if nat_eq (length t) spec.shards then plan else none
