-- ===== src/Controller/EndToEnd.antt =====
-- internal/controller/planning.go with the executor's observation, the validator and the Go planner that
-- cmd/manager wires to it: what a plan that a reconcile stores leads to.
use llm_k8s_redis.Prelude.{
  ℕ, Bool, String, List, [], ◌∷◌, ◌++◌, Option, some, none, Result, ok, err, >>=-eq-ok, ◌≡◌, subst,
  ap, ◌∙◌, ◌⊎◌, inl, inr, All, Result-cases,
}
use llm_k8s_redis.Plan.{Plan, Step, ClusterSpec, ObservedNode, verify_cluster}
use llm_k8s_redis.Api.{Condition, RedisCluster, to_cluster_spec}
use llm_k8s_redis.Validator.Errors.{ValidationError}
use llm_k8s_redis.Validator.Schema.{Checked}
use llm_k8s_redis.Validator.WellFormed.{IsWellFormed}
use llm_k8s_redis.Validator.Simulator.State.{PlanSimulator}
use llm_k8s_redis.Validator.Simulator.Steps.{validate}
use llm_k8s_redis.Validator.Simulator.Start.{IsObserved}
use llm_k8s_redis.Validator.Simulator.Goal.{MeetsGoal}
use llm_k8s_redis.Validator.Accepted.{validate-MeetsGoal}
use llm_k8s_redis.Planner.Builders.{Request}
use llm_k8s_redis.Planner.Go.{Planned, PlannerError, Fallback, go_plan}
use llm_k8s_redis.Controller.Ordinal.{bump_from_observed}
use llm_k8s_redis.Planner.Accepted.{MeetsSpec, FellBack, planned-MeetsSpec}
use llm_k8s_redis.Controller.Status.{Codec, PlanStatus, plan_to_status}
use llm_k8s_redis.Controller.Execution.{Requeue}
use llm_k8s_redis.Controller.Planning.{reconcile_plan}
use llm_k8s_redis.Controller.Stored.{
  Accepted, Outcome, no_plan_needed, plan_accepted, tried_later, reconcile_plan-Outcome,
}
use llm_k8s_redis.Action.Pods.{Pod}
use llm_k8s_redis.Action.Seen.{observed_nodes-IsObserved}
use llm_k8s_redis.Action.Seeds.{observation_seed_pods}
use llm_k8s_redis.Action.Views.{Dial, collect_best_cluster_nodes}
use llm_k8s_redis.Action.Observe.{Listing, list_managed_pods, collect_from, collect_observed_nodes}

collect_from-IsObserved :
    (dials : ℕ → Dial) (c : RedisCluster) (l seeds : List Pod) {nodes : List ObservedNode}
    → collect_from dials c l seeds ≡ ok nodes
    → All IsObserved nodes
collect_from-IsObserved dials c l [] h =
    subst (All IsObserved) (cc h) (observed_nodes-IsObserved c.topology l [])
collect_from-IsObserved dials c l (seed ∷ seeds) h =
    let (entries, _, h1) = >>=-eq-ok (collect_best_cluster_nodes dials (seed ∷ seeds)) _ h in
    subst (All IsObserved) (cc h1) (observed_nodes-IsObserved c.topology l entries)

pub collect_observed_nodes-IsObserved :
    (dials : ℕ → Dial) (c : RedisCluster) (listing : Listing) (nodes : List ObservedNode)
    → collect_observed_nodes dials c listing ≡ ok nodes
    → All IsObserved nodes
unfolding collect_observed_nodes
collect_observed_nodes-IsObserved dials c listing nodes h =
    let (l, _, h1) = >>=-eq-ok (list_managed_pods listing) _ h in
    collect_from-IsObserved dials c l (observation_seed_pods c.topology l) h1

-- What ValidatePlan returns where it is validator.Validate: the text of its error, or none for nil.
abbrev pub error_text : (ValidationError → String) → Checked PlanSimulator → Option String
error_text text (ok s) = none
error_text text (err e) = some (text e)

abbrev pub by_validator :
    (ValidationError → String) → ClusterSpec → List ObservedNode → Plan → Option String
by_validator text spec nodes p = error_text text (validate spec nodes (some p))

by_validator-none :
    (text : ValidationError → String) (spec : ClusterSpec) (nodes : List ObservedNode) (p : Plan)
    → by_validator text spec nodes p ≡ none
    → (s : PlanSimulator) × (validate spec nodes (some p) ≡ ok s)
by_validator-none text spec nodes p h = elim (Result-cases (validate spec nodes (some p))) [
  | inl (s, passed) ↦ (s, passed)
  | inr (e, bad) ↦ absurd (cc (rw bad at h))
]

-- A Go planner with its fallback; the text of its error.
abbrev pub with_text : {E : Type 0} → (E → String) → Planned E → Planned String
with_text text (p, none) = (p, none)
with_text text (p, some e) = (p, some (text e))

abbrev pub by_go_planner :
    {E : Type 0} → Fallback E → (PlannerError E → String) → Request → Planned String
by_go_planner fallback text req = with_text text (go_plan fallback req)

with_text-some :
    {E : Type 0} (text : E → String) (o : Planned E) {p : Plan}
    → with_text text o ≡ (some p, none)
    → o ≡ (some p, none)
with_text-some text (q, none) h = ap (λ (x : Planned String). (x.0, none)) h
with_text-some text (q, some e) h = absurd (cc (ap (λ x. x.1) h))

-- The request of the planner for observed nodes.
abbrev pub request_for : RedisCluster → List ObservedNode → Request
request_for c nodes = record {
  spec = to_cluster_spec c;
  nodes = nodes;
  next_pod_ordinal = bump_from_observed c.next_pod_ordinal nodes;
}

-- A reconcile that starts without a plan and ends with one.
Accepted-of :
    (json : Codec) (set_status_condition : List Condition → Condition → List Condition)
    (validate_plan : ClusterSpec → List ObservedNode → Plan → Option String)
    (planner : Request → Planned String) (now : ℕ) (moved : Bool) (c : RedisCluster)
    (spec : ClusterSpec) (found : Result String (List ObservedNode))
    (result : RedisCluster × Requeue) (ps : PlanStatus)
    → Outcome json set_status_condition validate_plan planner now moved c spec found result
    → result.0.active_plan ≡ some ps
    → (nodes : List ObservedNode) × ((found ≡ ok nodes)
        × (a : Accepted json set_status_condition validate_plan planner now moved c spec nodes
            result.0)
        × (a.status ≡ ps))
Accepted-of json ssc vp planner now moved c spec found result ps
      (no_plan_needed nodes after e m none_left) h =
    absurd (cc (none_left, h))
Accepted-of json ssc vp planner now moved c spec found result ps (plan_accepted nodes after e a) h =
    (nodes, (e, a, cc (a.stored, h)))
Accepted-of json ssc vp planner now moved c spec found result ps (tried_later after none_left) h =
    absurd (cc (none_left, h))

module _ (json : Codec) (set_status_condition : List Condition → Condition → List Condition)
    (dials : ℕ → Dial) (listing : Listing) (invalid : ValidationError → String) (now : ℕ)
    (moved : Bool) where
  -- One reconcile, from what Kubernetes and Redis answer.
  abbrev pub reconciled : (Request → Planned String) → RedisCluster → RedisCluster × Requeue
  reconciled planner c =
      reconcile_plan json set_status_condition (by_validator invalid) planner now moved c
        (to_cluster_spec c) (collect_observed_nodes dials c listing)

  -- Whatever planner the controller asks, a plan that a reconcile stores is one that, from the nodes that
  -- the executor has just observed, is well formed and whose last step, a VerifyCluster, finds the
  -- simulated cluster at its goal.
  pub reconcile_plan-MeetsGoal :
      (planner : Request → Planned String) (c : RedisCluster) (ps : PlanStatus)
      → c.active_plan ≡ none
      → (reconciled planner c).0.active_plan ≡ some ps
      → (nodes : List ObservedNode) × ((p : Plan) × ((s : PlanSimulator) × ((collect_observed_nodes
                  dials c listing
                ≡ ok nodes)
              × (plan_to_status json p ≡ ok ps)
              × (validate (to_cluster_spec c) nodes (some p) ≡ ok s)
              × IsWellFormed p
              × ((before : List Step) × (last : Step) × (p.steps ≡ before ++ last ∷ [])
                  × (last.action ≡ verify_cluster)
                  × MeetsGoal last s))))
  reconcile_plan-MeetsGoal planner c ps free h =
      let spec = to_cluster_spec c in
      let found = collect_observed_nodes dials c listing in
      let outcome =
        reconcile_plan-Outcome json set_status_condition (by_validator invalid) planner now moved c
          spec found free in
      let (nodes, (e, a, same)) =
        Accepted-of json set_status_condition (by_validator invalid) planner now moved c spec found
          (reconciled planner c) ps outcome h in
      let (s, passed) = by_validator-none invalid spec nodes a.plan a.passed in
      let (form, (before, last, e1, verify, goal, _)) =
        validate-MeetsGoal spec nodes a.plan s
          (collect_observed_nodes-IsObserved dials c listing nodes e) passed in
      (
        nodes,
        (
          a.plan,
          (s, (e, a.converted ∙ ap ok same, passed, form, (before, last, e1, verify, goal))),
        ),
      )

  -- With the Go planner and any fallback, a plan that a reconcile stores is accepted by the validator from
  -- the nodes that the executor has just observed, and there are two cases. It leads the simulated cluster
  -- to the spec of the RedisCluster: its number of serving masters, and each slot held by one of them, on the
  -- spec's image and with its number of replicas. Or it is the plan of the fallback, which returned it without
  -- an error; then the Go planner builds no plan for these nodes, or one that the validator refuses.
  pub reconcile_plan-MeetsSpec :
      {E : Type 0} (fallback : Fallback E) (not_planned : PlannerError E → String)
      (c : RedisCluster) (ps : PlanStatus)
      → c.active_plan ≡ none
      → (reconciled (by_go_planner fallback not_planned) c).0.active_plan ≡ some ps
      → (nodes : List ObservedNode) × ((p : Plan) × ((s : PlanSimulator) × ((collect_observed_nodes
                  dials c listing
                ≡ ok nodes)
              × (plan_to_status json p ≡ ok ps)
              × (validate (to_cluster_spec c) nodes (some p) ≡ ok s)
              × (MeetsSpec (to_cluster_spec c) s ⊎ FellBack fallback (request_for c nodes) p))))
  reconcile_plan-MeetsSpec fallback not_planned c ps free h =
      let spec = to_cluster_spec c in
      let planner = by_go_planner fallback not_planned in
      let found = collect_observed_nodes dials c listing in
      let outcome =
        reconcile_plan-Outcome json set_status_condition (by_validator invalid) planner now moved c
          spec found free in
      let (nodes, (e, a, same)) =
        Accepted-of json set_status_condition (by_validator invalid) planner now moved c spec found
          (reconciled planner c) ps outcome h in
      let (s, passed) = by_validator-none invalid spec nodes a.plan a.passed in
      let meets =
        planned-MeetsSpec fallback (request_for c nodes) a.plan s
          (collect_observed_nodes-IsObserved dials c listing nodes e) passed
          (with_text-some not_planned _ a.made) in
      (nodes, (a.plan, (s, (e, a.converted ∙ ap ok same, passed, meets))))
