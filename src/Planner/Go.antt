-- ===== src/Planner/Go.antt =====
-- internal/planner/go_planner.go: the order in which the planner tries its plans, and `Plan`.
use llm_k8s_redis.Prelude.{Option, some, none, ltb, is_empty, if◌then◌else◌, ok, err}
use llm_k8s_redis.Plan.{Plan}
use llm_k8s_redis.Planner.Topology.{ObservedTopology, topology_from_observed}
use llm_k8s_redis.Planner.Builders.{
  Request, build_create_plan, build_repair_plan, build_replica_scale_in_plan,
  build_replica_scale_out_plan,
}
use llm_k8s_redis.Planner.Scaling.{
  build_image_drift_plan, build_shard_scale_out_plan, build_shard_scale_in_plan,
}
use llm_k8s_redis.Validator.Schema.{Checked}
use llm_k8s_redis.Validator.Simulator.State.{PlanSimulator}
use llm_k8s_redis.Validator.Simulator.Steps.{validate}

-- if p := ...; p != nil { return p }
infixr 4 ◌or_else◌
abbrev pub ◌or_else◌ : Option Plan → Option Plan → Option Plan
none or_else q = q
(some p) or_else q = some p

abbrev pub topology_plan : Request → ObservedTopology → Option Plan
topology_plan req t =
    if is_empty t
    then build_create_plan req
    else (build_repair_plan req t
        or_else build_image_drift_plan req t
        or_else build_replica_scale_in_plan req t
        or_else build_shard_scale_out_plan req t
        or_else build_shard_scale_in_plan req t
        or_else build_replica_scale_out_plan req t)

unfoldable pub build_go_plan : Request → Option Plan
build_go_plan req =
    if ltb req.spec.replicas_per_shard 1
    then none
    else topology_plan req (topology_from_observed req.nodes)

-- What `Plan` returns in place of a plan, over the errors of the fallback planner.
pub data PlannerError (E : Type 0) : Type 0 where
  not_configured : PlannerError E
  fallback_error : E → PlannerError E

-- What a Go planner returns: a plan or nil, and an error or nil.
abbrev pub Planned : Type 0 → Type 0
Planned E = Option Plan × Option E

-- A fallback is the nil of the source or another planner.
abbrev pub Fallback : Type 0 → Type 0
Fallback E = Option (Request → Planned E)

abbrev pub lift_error : {E : Type 0} → Option E → Option (PlannerError E)
lift_error none = none
lift_error (some e) = some (fallback_error e)

abbrev pub delegate : {E : Type 0} → Fallback E → Request → Planned (PlannerError E)
delegate none req = (none, some not_configured)
delegate (some plan) req = let (p, e) = plan req in (p, lift_error e)

-- The branch on the error of `Validate`.
abbrev pub if_valid :
    {E : Type 0}
    → Checked PlanSimulator
    → Plan
    → Planned (PlannerError E)
    → Planned (PlannerError E)
if_valid (ok s) p other = (some p, none)
if_valid (err e) p other = other

abbrev pub own_plan :
    {E : Type 0} → Request → Option Plan → Planned (PlannerError E) → Planned (PlannerError E)
own_plan req none other = other
own_plan req (some p) other = if_valid (validate req.spec req.nodes (some p)) p other

unfoldable pub go_plan : {E : Type 0} → Fallback E → Request → Planned (PlannerError E)
unfolding build_go_plan
go_plan fallback req = own_plan req (build_go_plan req) (delegate fallback req)
