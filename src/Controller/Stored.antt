-- ===== src/Controller/Stored.antt =====
-- internal/controller/planning.go: which plan a reconcile stores, and when the cluster is queued again.
use llm_k8s_redis.Prelude.{
  ℕ, String, List, Option, some, none, Bool, true, false, ◌&&◌, if◌then◌else◌, Result, ok, err, ◌≡◌,
  refl, inl, inr, ◌⊎◌, Bool-cases, arith,
}
use llm_k8s_redis.Plan.{Plan, ClusterSpec, ObservedNode}
use llm_k8s_redis.Api.{Condition, RedisCluster}
use llm_k8s_redis.Planner.Builders.{Request}
use llm_k8s_redis.Planner.Go.{Planned}
use llm_k8s_redis.Controller.Status.{Codec, PlanStatus, plan_to_status}
use llm_k8s_redis.Controller.Ordinal.{advance_from_steps, bump_from_observed}
use llm_k8s_redis.Controller.Execution.{Requeue, idle, after_ten_seconds}
use llm_k8s_redis.Controller.Matching.{observed_nodes_match_spec}
use llm_k8s_redis.Controller.Planning.{
  cluster_stable_wait_timed_out, planning_wait_reason, mark_waiting_for_stable_cluster,
  mark_no_plan_needed, persisted, validated, planned, ask_planner, observed, reconcile_plan,
}

module _ (json : Codec) (set_status_condition : List Condition → Condition → List Condition)
    (validate_plan : ClusterSpec → List ObservedNode → Plan → Option String)
    (planner : Request → Planned String) (now : ℕ) (moved : Bool) where
  -- A plan that the planner made from the observed nodes, that the validator passed, and that is stored.
  pub record Accepted (c : RedisCluster) (spec : ClusterSpec) (nodes : List ObservedNode)
      (after : RedisCluster) : Type 0 where
    pub plan : Plan
    pub status : PlanStatus
    pub needed : observed_nodes_match_spec nodes spec ≡ false
    pub made :
        planner (record {
          spec = spec;
          nodes = nodes;
          next_pod_ordinal = bump_from_observed c.next_pod_ordinal nodes;
        })
        ≡ (some plan, none)
    pub passed : validate_plan spec nodes plan ≡ none
    pub converted : plan_to_status json plan ≡ ok status
    pub stored : after.active_plan ≡ some status
    pub ordinal :
        after.next_pod_ordinal
        ≡ advance_from_steps (bump_from_observed c.next_pod_ordinal nodes) plan.steps

  -- How a reconcile of a cluster without a plan may end.
  pub data Outcome (c : RedisCluster) (spec : ClusterSpec)
      (found : Result String (List ObservedNode)) : RedisCluster × Requeue → Type 0 where
    no_plan_needed :
        (nodes : List ObservedNode) (after : RedisCluster)
        → found ≡ ok nodes
        → observed_nodes_match_spec nodes spec ≡ true
        → after.active_plan ≡ none
        → Outcome c spec found (after, idle)
    plan_accepted :
        (nodes : List ObservedNode) (after : RedisCluster)
        → found ≡ ok nodes
        → Accepted c spec nodes after
        → Outcome c spec found (after, idle)
    tried_later :
        (after : RedisCluster)
        → after.active_plan ≡ none
        → Outcome c spec found (after, after_ten_seconds)

  module _ (c : RedisCluster) (spec : ClusterSpec) (nodes : List ObservedNode)
      (free : c.active_plan ≡ none) (needed : observed_nodes_match_spec nodes spec ≡ false) where
    abbrev Ends : RedisCluster × Requeue → Type 0
    Ends = Outcome c spec (ok nodes)

    abbrev request : Request
    request = record {
      spec = spec;
      nodes = nodes;
      next_pod_ordinal = bump_from_observed c.next_pod_ordinal nodes;
    }

    persisted-Ends :
        (p : Plan) (r : Result String PlanStatus)
        → planner request ≡ (some p, none)
        → validate_plan spec nodes p ≡ none
        → plan_to_status json p ≡ r
        → Ends (
            persisted set_status_condition
              (record (observed c nodes) {
                next_pod_ordinal =
                    advance_from_steps (bump_from_observed c.next_pod_ordinal nodes) p.steps;
              })
              r)
    persisted-Ends p (err e) made passed conv = tried_later _ refl
    persisted-Ends p (ok ps) made passed conv = plan_accepted nodes _ refl (record {
      plan = p;
      status = ps;
      needed = needed;
      made = made;
      passed = passed;
      converted = conv;
      stored = refl;
      ordinal = refl;
    })

    validated-Ends :
        (p : Plan) (o : Option String)
        → planner request ≡ (some p, none)
        → validate_plan spec nodes p ≡ o
        → Ends (
            validated json set_status_condition validate_plan planner now moved
              (observed c nodes)
              p
              o)
    validated-Ends p (some e) made passed = tried_later _ free
    validated-Ends p none made passed = persisted-Ends p (plan_to_status json p) made passed refl

    planned-Ends :
        (o : Planned String)
        → planner request ≡ o
        → Ends (
            planned json set_status_condition validate_plan planner now moved
              (observed c nodes)
              spec
              nodes
              o)
    planned-Ends (p, some e) made = tried_later _ free
    planned-Ends (none, none) made = tried_later _ free
    planned-Ends (some p, none) made = validated-Ends p (validate_plan spec nodes p) made refl

    waits :
        (b : Bool) (reason : String)
        → Ends (
            if b
            then (
              mark_waiting_for_stable_cluster set_status_condition now moved
                  (observed c nodes)
                  reason,
              after_ten_seconds,
            )
            else ask_planner json set_status_condition validate_plan planner now moved
                (observed c nodes)
                spec
                nodes)
    unfolding mark_waiting_for_stable_cluster
    waits true reason = tried_later _ free
    waits false reason = planned-Ends (planner request) refl

  -- A reconcile of a cluster without a plan ends in one of three ways. It stores no plan and does not ask
  -- to be queued again only if the observed nodes match the spec; it stores a plan only if the planner made
  -- it from the observed nodes and the validator passed it, and then raises the next ordinal past it; and
  -- after every failure, and while it waits for the cluster, it asks to be queued again in ten seconds.
  pub reconcile_plan-Outcome :
      (c : RedisCluster) (spec : ClusterSpec) (found : Result String (List ObservedNode))
      → c.active_plan ≡ none
      → Outcome c spec found
          (reconcile_plan json set_status_condition validate_plan planner now moved c spec found)
  unfolding reconcile_plan mark_no_plan_needed
  reconcile_plan-Outcome c spec (err e) free = tried_later _ free
  reconcile_plan-Outcome c spec (ok nodes) free =
      elim (Bool-cases (observed_nodes_match_spec nodes spec)) [
        | inl matched ↦ rw matched (no_plan_needed nodes _ refl matched refl)
        | inr needed ↦ rw needed (
            waits c spec nodes free needed _
              (planning_wait_reason c.conditions c.observed_nodes nodes spec))
      ]

  and_false : (b : Bool) → b && false ≡ false
  and_false b = ground arith

  -- Where the observed nodes do not match the spec and the controller does not wait, since the cluster has
  -- settled or two minutes are over, a plan that the planner makes, that the validator passes and that can
  -- be converted is stored.
  pub reconcile_plan-stores :
      (c : RedisCluster) (spec : ClusterSpec) (nodes : List ObservedNode) (p : Plan)
      (ps : PlanStatus)
      → observed_nodes_match_spec nodes spec ≡ false
      → (planning_wait_reason c.conditions c.observed_nodes nodes spec ≡ "")
        ⊎ (cluster_stable_wait_timed_out now c.conditions ≡ true)
      → planner (record {
        spec = spec;
        nodes = nodes;
        next_pod_ordinal = bump_from_observed c.next_pod_ordinal nodes;
      })
        ≡ (some p, none)
      → validate_plan spec nodes p ≡ none
      → plan_to_status json p ≡ ok ps
      → (reconcile_plan json set_status_condition validate_plan planner now moved c spec
          (ok nodes)).0.active_plan
        ≡ some ps
  unfolding reconcile_plan
  reconcile_plan-stores c spec nodes p ps needed over made passed converted = elim over [
    | inl settled ↦ rw (needed, settled, made, passed, converted) refl
    | inr late ↦ rw (needed, late, and_false _, made, passed, converted) refl
  ]
