-- ===== src/Planner/Scaling.antt =====
-- internal/planner/go_planner.go: the plans that replace images and change the number of shards.
use llm_k8s_redis.Prelude.{
  ℕ, zero, suc, ◌+◌, ◌-◌, String, List, [], ◌∷◌, ◌++◌, map, Map, Option, some, none, Bool, true,
  false, not, ◌&&◌, ◌||◌, ◌==◌, string_keys, nat_keys, if◌then◌else◌, length, nat_eq, leb, lookup,
  range,
}
use llm_k8s_redis.Plan.{Step, Plan, ClusterSpec, or_blank}
use llm_k8s_redis.Planner.Steps.{
  redis_pod, redis_pods, ensure_steps, wait_steps, meet_steps, provision_replicates,
  forget_delete_steps, migrate_step, new_go_plan, ReplicaProvision, replica_pods,
}
use llm_k8s_redis.Planner.Slots.{balanced_start, balanced_size, compact_slots}
use llm_k8s_redis.Planner.Topology.{
  ObservedReplica, ObservedMaster, ObservedTopology, option_bind, shard_scale_ready, slot_owners,
  topology_image_drift,
}
use llm_k8s_redis.Planner.Builders.{Request, provision}

abbrev pub forget_replicas : ClusterSpec → List ObservedReplica → List Step
forget_replicas spec [] = []
forget_replicas spec (r ∷ replicas) =
    forget_delete_steps spec r.pod r.node_id ++ forget_replicas spec replicas

-- A new master takes the next ordinal and its replicas those after it.
abbrev pub new_shard_pods : ℕ → ℕ → List String
new_shard_pods next replicas = redis_pods next (replicas + 1)

abbrev pub new_shard_replicas : ℕ → ℕ → List ReplicaProvision
new_shard_replicas next replicas = provision (redis_pod next) (next + 1) replicas

-- The steps that replace one shard.
unfoldable pub replace_shard : ClusterSpec → String → ℕ → ℕ → ObservedMaster → List Step
replace_shard spec seed next replicas old =
    ensure_steps spec (new_shard_pods next replicas)
    ++ (wait_steps spec (new_shard_pods next replicas)
        ++ (meet_steps spec seed (new_shard_pods next replicas)
            ++ (provision_replicates spec (new_shard_replicas next replicas)
                ++ (migrate_step spec old.pod (redis_pod next) old.slots
                    ∷ (forget_replicas spec old.replicas
                        ++ forget_delete_steps spec old.pod old.node_id)))))

unfoldable pub replace_shards : ClusterSpec → String → ℕ → ℕ → ObservedTopology → List Step
unfolding replace_shard
replace_shards spec seed next replicas [] = []
replace_shards spec seed next replicas (old ∷ t) =
    replace_shard spec seed next replicas old
    ++ replace_shards spec (if seed == old.pod then redis_pod next else seed) (next + 1 + replicas)
        replicas t

abbrev seed_of : ObservedTopology → String
seed_of [] = ""
seed_of (m ∷ t) = m.pod

unfoldable pub build_image_drift_plan : Request → ObservedTopology → Option Plan
unfolding replace_shards
build_image_drift_plan req t =
    let spec = req.spec in
    let plan = option_bind (shard_scale_ready t) λ replicas. option_bind (slot_owners t) λ owners.
      if not (nat_eq replicas spec.replicas_per_shard) || not (topology_image_drift t spec.image)
      then none
      else some (
          new_go_plan spec "go-image-drift" "Replace Redis nodes for image change"
            (replace_shards spec (seed_of t) req.next_pod_ordinal replicas t)) in
    if nat_eq (length t) spec.shards then plan else none

-- Slots grouped by source and target, the groups in the order in which they begin.
pub record Group : Type 0 where
  pub source : String
  pub target : String
  pub slots : List ℕ

unfoldable pub add_to_group : String → String → ℕ → List Group → List Group
add_to_group source target slot [] =
    record { source = source; target = target; slots = slot ∷ [] } ∷ []
add_to_group source target slot (g ∷ groups) =
    let rest = add_to_group source target slot groups in
    if g.source == source && g.target == target
    then record g { slots = g.slots ++ slot ∷ [] } ∷ groups
    else g ∷ rest

-- The inner loop of `migrationSteps`.
unfoldable pub group_slots : Map ℕ String → Bool → String → List ℕ → List Group → List Group
unfolding add_to_group
group_slots owners skip_same target [] groups = groups
group_slots owners skip_same target (slot ∷ slots) groups =
    let source = or_blank (lookup slot owners) in
    group_slots owners skip_same target slots
      (if skip_same && source == target then groups else add_to_group source target slot groups)

-- The outer loop, over the masters from index `i` of `total`.
unfoldable pub group_masters : Map ℕ String → Bool → ℕ → ℕ → List String → List Group → List Group
unfolding group_slots
group_masters owners skip_same i total [] groups = groups
group_masters owners skip_same i total (target ∷ masters) groups =
    group_masters owners skip_same (i + 1) total masters (
      group_slots owners skip_same target (range (balanced_start i total) (balanced_size i total))
        groups)

unfoldable pub migration_steps : ClusterSpec → Map ℕ String → List String → Bool → List Step
unfolding group_masters
migration_steps spec owners masters skip_same =
    map (λ (g : Group). migrate_step spec g.source g.target (compact_slots g.slots))
      (group_masters owners skip_same 0 (length masters) masters [])

abbrev pub master_pods : ObservedTopology → List String
master_pods t = map (λ (m : ObservedMaster). m.pod) t

-- The pods of new shards, and among them the masters and the replicas.
unfoldable pub new_pods : ℕ → ℕ → ℕ → List String
new_pods next replicas zero = []
new_pods next replicas (suc shards) =
    new_shard_pods next replicas ++ new_pods (next + 1 + replicas) replicas shards

unfoldable pub new_masters : ℕ → ℕ → ℕ → List String
new_masters next replicas zero = []
new_masters next replicas (suc shards) =
    redis_pod next ∷ new_masters (next + 1 + replicas) replicas shards

unfoldable pub new_replicas : ℕ → ℕ → ℕ → List ReplicaProvision
new_replicas next replicas zero = []
new_replicas next replicas (suc shards) =
    new_shard_replicas next replicas ++ new_replicas (next + 1 + replicas) replicas shards

abbrev scale_out_steps : ClusterSpec → ℕ → ℕ → ℕ → ObservedTopology → Map ℕ String → List Step
scale_out_steps spec next replicas added t owners =
    let pods = new_pods next replicas added in
    let masters = new_masters next replicas added in
    let provisions = new_replicas next replicas added in
    ensure_steps spec pods
    ++ (wait_steps spec pods
        ++ (meet_steps spec (seed_of t) masters
            ++ (meet_steps spec (seed_of t) (replica_pods provisions)
                ++ (provision_replicates spec provisions
                    ++ migration_steps spec owners (master_pods t ++ masters) true))))

unfoldable pub build_shard_scale_out_plan : Request → ObservedTopology → Option Plan
unfolding new_pods new_masters new_replicas migration_steps
build_shard_scale_out_plan req t =
    let spec = req.spec in
    option_bind (shard_scale_ready t) λ current.
      if leb spec.shards (length t) || not (nat_eq spec.replicas_per_shard current)
      then none
      else option_bind (slot_owners t) λ owners. some (
          new_go_plan spec "go-shard-scaleout" "Scale Redis Cluster shards out"
            (scale_out_steps spec req.next_pod_ordinal current (spec.shards - length t) t owners))

abbrev forget_masters : ClusterSpec → ObservedTopology → List Step
forget_masters spec [] = []
forget_masters spec (m ∷ t) =
    forget_delete_steps spec m.pod m.node_id
    ++ (forget_replicas spec m.replicas ++ forget_masters spec t)

-- The loop over the new pods: every (1 + replicas)-th is a master, the others are replicas of it.
abbrev scale_in_steps : ClusterSpec → ℕ → ℕ → ObservedTopology → Map ℕ String → List Step
scale_in_steps spec next replicas t owners =
    let pods = new_pods next replicas spec.shards in
    let provisions = new_replicas next replicas spec.shards in
    ensure_steps spec pods
    ++ (wait_steps spec pods
        ++ (meet_steps spec (seed_of t) pods
            ++ (provision_replicates spec provisions
                ++ (migration_steps spec owners (new_masters next replicas spec.shards) false
                    ++ forget_masters spec t))))

unfoldable pub build_shard_scale_in_plan : Request → ObservedTopology → Option Plan
unfolding new_pods new_masters new_replicas migration_steps
build_shard_scale_in_plan req t =
    let spec = req.spec in
    option_bind (shard_scale_ready t) λ current.
      if leb (length t) spec.shards || not (nat_eq spec.replicas_per_shard current)
      then none
      else option_bind (slot_owners t) λ owners. some (
          new_go_plan spec "go-shard-scalein" "Scale Redis Cluster shards in"
            (scale_in_steps spec req.next_pod_ordinal current t owners))
