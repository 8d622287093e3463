-- ===== src/Examples/Reconciling.antt =====
-- One reconcile of a cluster without a plan: the controller has waited for two minutes for a node that is
-- gone, reads the cluster, and stores the Go planner's repair.
use llm_k8s_redis.Prelude.{
  ◌⊎◌, String, List, [], ◌∷◌, ◌++◌, Option, some, none, Bool, true, false, ◌&&◌, Result, ok, err,
  ◌≡◌, refl, ap, ◌∙◌, inr, arith, string_keys, cut_prefix, find, atoi,
}
use llm_k8s_redis.Plan.{Plan, Step, ObservedNode, verify_cluster}
use llm_k8s_redis.Api.{Condition}
use llm_k8s_redis.Validator.Errors.{ValidationError}
use llm_k8s_redis.Validator.WellFormed.{IsWellFormed}
use llm_k8s_redis.Validator.Simulator.State.{PlanSimulator}
use llm_k8s_redis.Validator.Simulator.Steps.{validate}
use llm_k8s_redis.Validator.Simulator.Goal.{MeetsGoal}
use llm_k8s_redis.Planner.Go.{PlannerError}
use llm_k8s_redis.Planner.Accepted.{FellBack, MeetsSpec}
use llm_k8s_redis.Controller.Status.{
  PlanStatus, plan_running, plan_to_status, steps_to_status, first_pending_id,
}
use llm_k8s_redis.Controller.Ordinal.{
  bump_from_observed, highest_observed, controller_pod_ordinal, to_int32,
}
use llm_k8s_redis.Controller.Matching.{
  Shards, Covered, observed_nodes_match_spec, node_names, masters, replicas, all_accounted,
  match_masters, match_rest,
}
use llm_k8s_redis.Controller.Planning.{reconcile_plan, cluster_stable_wait_timed_out}
use llm_k8s_redis.Controller.Stored.{Outcome, reconcile_plan-Outcome, reconcile_plan-stores}
use llm_k8s_redis.Controller.EndToEnd.{
  by_validator, by_go_planner, error_text, with_text, reconciled, reconcile_plan-MeetsGoal,
  reconcile_plan-MeetsSpec, request_for,
}
use llm_k8s_redis.Action.Observe.{pods, collect_observed_nodes}
use llm_k8s_redis.Examples.Full.{spec}
use llm_k8s_redis.Examples.Repairing.{nodes, req, plan, planned, accepted}
use llm_k8s_redis.Examples.Live.{two_pods, dials, cluster, collected, json}

-- Whatever the first loops find, the node that is gone belongs to no shard.
no_rest : (o : Option Shards) → match_rest spec nodes (node_names nodes []) o ≡ false
unfolding all_accounted
no_rest none = refl
no_rest (some shards) = ground arith

no_match :
    (o : Option (Shards × Covered)) → match_masters spec nodes (node_names nodes []) o ≡ false
no_match none = refl
no_match (some (shards, covered)) =
    rw (no_rest (replicas (node_names nodes []) nodes shards)) (and_false _)
  where
    and_false : (b : Bool) → b && false ≡ false
    and_false b = ground arith

needed : observed_nodes_match_spec nodes spec ≡ false
unfolding observed_nodes_match_spec
needed = no_match (masters spec nodes [] [])

timed_out : cluster_stable_wait_timed_out 1000 cluster.conditions ≡ true
unfolding cluster_stable_wait_timed_out find
timed_out = refl

bumped : bump_from_observed 0 nodes ≡ 2
unfolding bump_from_observed highest_observed controller_pod_ordinal cut_prefix atoi to_int32
bumped = refl

-- The texts of errors do not matter.
abbrev invalid : ValidationError → String
invalid e = "invalid"

abbrev not_planned : PlannerError String → String
not_planned e = "no plan"

abbrev add_condition : List Condition → Condition → List Condition
add_condition conditions new = new ∷ conditions

stored : PlanStatus
stored = status_or (plan_to_status json plan)
  where
    status_or : Result String PlanStatus → PlanStatus
    status_or (ok ps) = ps
    status_or (err e) = record {
      id = "";
      status = plan_running;
      target_generation = 0;
      summary = "";
      current_step = "";
      steps = [];
    }

converted : plan_to_status json plan ≡ ok stored
unfolding plan_to_status steps_to_status first_pending_id stored
converted = refl

asked : by_go_planner none not_planned req ≡ (some plan, none)
asked = ap (with_text not_planned) planned

made :
    by_go_planner none not_planned
      (record { spec = spec; nodes = nodes; next_pod_ordinal = bump_from_observed 0 nodes })
    ≡ (some plan, none)
made =
    ap
      (λ n.
        by_go_planner none not_planned
          (record { spec = spec; nodes = nodes; next_pod_ordinal = n }))
      bumped
    ∙ asked

passed : by_validator invalid spec nodes plan ≡ none
passed = ap (error_text invalid) accepted

stores :
    (reconciled json add_condition dials
      (pods two_pods)
      invalid
      1000
      false
      (by_go_planner none not_planned)
      cluster).0.active_plan
    ≡ some stored
stores =
    ap
      (λ found.
        (reconcile_plan json add_condition (by_validator invalid) (by_go_planner none not_planned)
          1000 false cluster spec found).0.active_plan)
      collected
    ∙ reconcile_plan-stores json add_condition (by_validator invalid)
        (by_go_planner none not_planned) 1000 false cluster spec nodes plan stored needed
        (inr timed_out) made passed converted

reconcile_plan-MeetsSpec_example :
    (seen : List ObservedNode) × ((p : Plan) × ((s : PlanSimulator) × ((collect_observed_nodes dials
              cluster
              (pods two_pods)
            ≡ ok seen)
          × (plan_to_status json p ≡ ok stored)
          × (validate spec seen (some p) ≡ ok s)
          × (MeetsSpec spec s ⊎ FellBack {E = String} none (request_for cluster seen) p))))
reconcile_plan-MeetsSpec_example =
    reconcile_plan-MeetsSpec json add_condition dials (pods two_pods) invalid 1000 false none
      not_planned cluster stored refl stores

reconcile_plan-MeetsGoal_example :
    (seen : List ObservedNode) × ((p : Plan) × ((s : PlanSimulator) × ((collect_observed_nodes dials
              cluster
              (pods two_pods)
            ≡ ok seen)
          × (plan_to_status json p ≡ ok stored)
          × (validate spec seen (some p) ≡ ok s)
          × IsWellFormed p
          × ((before : List Step) × (last : Step) × (p.steps ≡ before ++ last ∷ [])
              × (last.action ≡ verify_cluster)
              × MeetsGoal last s))))
reconcile_plan-MeetsGoal_example =
    reconcile_plan-MeetsGoal json add_condition dials (pods two_pods) invalid 1000 false
      (by_go_planner none not_planned) cluster stored refl stores

reconcile_plan-Outcome_example :
    Outcome json add_condition
      (by_validator invalid)
      (by_go_planner none not_planned)
      1000
      false
      cluster
      spec
      (ok nodes)
      (reconcile_plan json add_condition
        (by_validator invalid)
        (by_go_planner none not_planned)
        1000
        false
        cluster
        spec
        (ok nodes))
reconcile_plan-Outcome_example =
    reconcile_plan-Outcome json add_condition (by_validator invalid)
      (by_go_planner none not_planned) 1000 false cluster spec (ok nodes) refl
