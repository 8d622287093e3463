-- ===== src/Planner/Goal.antt =====
-- internal/planner/go_planner.go: what the plans of the Go planner aim at.
use llm_k8s_redis.Prelude.{
  refl, All, pos, lookup, ◌≤◌, String, List, [], ◌∷◌, ◌++◌, Option, some, none, Bool, true, false,
  ltb, if◌then◌else◌, Bool-cases, ◌≡◌, inl, inr, arith,
}
use llm_k8s_redis.Plan.{
  Step, Plan, ClusterSpec, dsl_version, verify_cluster, bool, param, param_int,
}
use llm_k8s_redis.Planner.Steps.{new_go_plan, verify_step}
use llm_k8s_redis.Planner.Topology.{ObservedTopology, topology_from_observed, option_bind}
use llm_k8s_redis.Planner.Builders.{
  Request, build_create_plan, build_repair_plan, build_replica_scale_in_plan,
  build_replica_scale_out_plan,
}
use llm_k8s_redis.Planner.Scaling.{
  build_image_drift_plan, build_shard_scale_out_plan, build_shard_scale_in_plan,
}
use llm_k8s_redis.Planner.Go.{build_go_plan, topology_plan, ◌or_else◌}

-- A plan for the spec: of its generation, with a final VerifyCluster whose parameters demand the spec's
-- shards and replicas, all slots, a replica of each of their owners and a cluster in order.
pub record IsFor (spec : ClusterSpec) (p : Plan) : Type 0 where
  pub version : p.dsl_version ≡ dsl_version
  pub generation : p.target_generation ≡ spec.generation
  pub before : List Step
  pub last : Step
  pub steps : p.steps ≡ before ++ last ∷ []
  pub verifies : last.action ≡ verify_cluster
  pub shards : param_int last.params "expectedShards" ≡ some (pos spec.shards)
  pub replicas :
      param_int last.params "expectedReplicasPerShard" ≡ some (pos spec.replicas_per_shard)
  pub demands :
      All
        (λ key. param last.params key ≡ some (bool true))
        ("requireClusterStateOk" ∷ "requireFullSlotCoverage" ∷ "requireAllSlotOwnersHaveReplicas"
          ∷ [])

-- Every plan that `o` may be is for the spec.
abbrev AimsAt : ClusterSpec → Option Plan → Type 0
AimsAt spec o = (p : Plan) → o ≡ some p → IsFor spec p

new_go_plan-IsFor :
    (spec : ClusterSpec) (id summary : String) (steps : List Step)
    → AimsAt spec (some (new_go_plan spec id summary steps))
unfolding new_go_plan param_int param lookup
new_go_plan-IsFor spec id summary steps p h = record {
  version = cc;
  generation = cc;
  before = steps;
  last = verify_step spec;
  steps = cc;
  verifies = refl;
  shards = refl;
  replicas = refl;
  demands = (refl, (refl, (refl, tt)));
}

-- A plan behind a test or behind a value that may be missing is still for the spec.
unless-AimsAt :
    {spec : ClusterSpec} (b : Bool) (o : Option Plan)
    → AimsAt spec o
    → AimsAt spec (if b then none else o)
unless-AimsAt true o f p h = absurd (cc)
unless-AimsAt false o f p h = f p h

when-AimsAt :
    {spec : ClusterSpec} (b : Bool) (o : Option Plan)
    → AimsAt spec o
    → AimsAt spec (if b then o else none)
when-AimsAt true o f p h = f p h
when-AimsAt false o f p h = absurd (cc)

bind-AimsAt :
    {A : Type 0} {spec : ClusterSpec} (o : Option A) (k : A → Option Plan)
    → ((a : A) → AimsAt spec (k a))
    → AimsAt spec (option_bind o k)
bind-AimsAt none k f p h = absurd (cc)
bind-AimsAt (some a) k f p h = f a p h

or_else-AimsAt :
    {spec : ClusterSpec} (o r : Option Plan)
    → AimsAt spec o
    → AimsAt spec r
    → AimsAt spec (o or_else r)
or_else-AimsAt none r f g p h = g p h
or_else-AimsAt (some q) r f g p h = f p h

create-AimsAt : (req : Request) → AimsAt req.spec (build_create_plan req)
unfolding build_create_plan
create-AimsAt req = unless-AimsAt _ _ (new_go_plan-IsFor req.spec _ _ _)

repair-AimsAt : (req : Request) (t : ObservedTopology) → AimsAt req.spec (build_repair_plan req t)
unfolding build_repair_plan
repair-AimsAt req t = search (unless-AimsAt, bind-AimsAt, new_go_plan-IsFor) depth 9

image_drift-AimsAt :
    (req : Request) (t : ObservedTopology) → AimsAt req.spec (build_image_drift_plan req t)
unfolding build_image_drift_plan
image_drift-AimsAt req t = search (unless-AimsAt, when-AimsAt, bind-AimsAt, new_go_plan-IsFor)

replica_scale_in-AimsAt :
    (req : Request) (t : ObservedTopology) → AimsAt req.spec (build_replica_scale_in_plan req t)
unfolding build_replica_scale_in_plan
replica_scale_in-AimsAt req t = search (unless-AimsAt, when-AimsAt, bind-AimsAt, new_go_plan-IsFor)

shard_scale_out-AimsAt :
    (req : Request) (t : ObservedTopology) → AimsAt req.spec (build_shard_scale_out_plan req t)
unfolding build_shard_scale_out_plan
shard_scale_out-AimsAt req t = search (unless-AimsAt, bind-AimsAt, new_go_plan-IsFor)

shard_scale_in-AimsAt :
    (req : Request) (t : ObservedTopology) → AimsAt req.spec (build_shard_scale_in_plan req t)
unfolding build_shard_scale_in_plan
shard_scale_in-AimsAt req t = search (unless-AimsAt, bind-AimsAt, new_go_plan-IsFor)

replica_scale_out-AimsAt :
    (req : Request) (t : ObservedTopology) → AimsAt req.spec (build_replica_scale_out_plan req t)
unfolding build_replica_scale_out_plan
replica_scale_out-AimsAt req t = search (unless-AimsAt, when-AimsAt, bind-AimsAt, new_go_plan-IsFor)

topology_plan-AimsAt :
    (req : Request) (t : ObservedTopology) → AimsAt req.spec (topology_plan req t)
topology_plan-AimsAt req [] = create-AimsAt req
topology_plan-AimsAt req (m ∷ t) = or_else-AimsAt _ _ (repair-AimsAt req _) (
    or_else-AimsAt _ _ (image_drift-AimsAt req _) (
      or_else-AimsAt _ _ (replica_scale_in-AimsAt req _) (
        or_else-AimsAt _ _ (shard_scale_out-AimsAt req _)
          (or_else-AimsAt _ _ (shard_scale_in-AimsAt req _) (replica_scale_out-AimsAt req _)))))

-- Every plan that the Go planner builds, whichever of its seven kinds, has the version and the generation
-- of the request's spec and ends in a VerifyCluster that demands the spec's shards and replicas, all slots
-- covered and each owner replicated; and it is built only where the spec asks for replicas.
pub build_go_plan-IsFor :
    (req : Request) (p : Plan)
    → build_go_plan req ≡ some p
    → (1 ≤ req.spec.replicas_per_shard) × IsFor req.spec p
unfolding build_go_plan
build_go_plan-IsFor req p h = elim (Bool-cases (ltb req.spec.replicas_per_shard 1)) [
  | inl none' ↦ absurd (cc (rw none' at h))
  | inr some' ↦
      (ground arith, topology_plan-AimsAt req (topology_from_observed req.nodes) p (rw some' at h))
]
