-- ===== src/Planner/Accepted.antt =====
-- internal/planner/go_planner.go: what `Plan` returns.
use llm_k8s_redis.Prelude.{
  ℕ, ◌≤◌, List, [], ◌∷◌, ◌++◌, Option, some, none, All, ◌≡◌, refl, sym, ◌∙◌, ap, subst, inl, inr,
  ok, err, pos, ◌⊎◌,
}
use llm_k8s_redis.Plan.{Step, Plan, ClusterSpec, param_int}
use llm_k8s_redis.Cluster.Slots.{slot_range_bound}
use llm_k8s_redis.Validator.Errors.{ValidationError}
use llm_k8s_redis.Planner.Builders.{Request}
use llm_k8s_redis.Planner.Go.{
  build_go_plan, go_plan, own_plan, if_valid, delegate, lift_error, Fallback, Planned, PlannerError,
  not_configured, fallback_error,
}
use llm_k8s_redis.Planner.Goal.{build_go_plan-IsFor}
use llm_k8s_redis.Validator.Schema.{Checked}
use llm_k8s_redis.Validator.Simulator.State.{PlanSimulator}
use llm_k8s_redis.Validator.Simulator.Steps.{validate}
use llm_k8s_redis.Validator.Simulator.Start.{IsObserved}
use llm_k8s_redis.Validator.Simulator.Goal.{MeetsGoal, Serves, count_serving}
use llm_k8s_redis.Validator.Accepted.{validate-MeetsGoal}

-- The planner's own plan, which validates.
pub record IsOwn (req : Request) (p : Plan) : Type 0 where
  pub built : build_go_plan req ≡ some p
  pub final : PlanSimulator
  pub accepted : validate req.spec req.nodes (some p) ≡ ok final

-- Why the planner has no plan of its own: it builds none, or the validator refuses it.
abbrev pub HasNone : Request → Type 0
HasNone req =
    (build_go_plan req ≡ none)
    ⊎ ((p : Plan) × (e : ValidationError) × (build_go_plan req ≡ some p)
        × (validate req.spec req.nodes (some p) ≡ err e))

-- What is returned in place of the planner's own plan: an error if there is no fallback, the plan of the
-- fallback where it has no error, and otherwise its error, wrapped, with its plan.
abbrev pub Delegates : {E : Type 0} → Fallback E → Request → Planned (PlannerError E) → Type 0
Delegates {E} fallback req out =
    ((fallback ≡ none) × (out ≡ (none, some not_configured)))
    ⊎ ((plan : Request → Planned E) × (fallback ≡ some plan)
        × ((((plan req).1 ≡ none) × (out ≡ ((plan req).0, none)))
            ⊎ ((e : E) × ((plan req).1 ≡ some e)
                × (out ≡ ((plan req).0, some (fallback_error e))))))

abbrev lifted : {E : Type 0} → Planned E → Planned (PlannerError E)
lifted (p, e) = (p, lift_error e)

delegate-Delegates :
    {E : Type 0} (fallback : Fallback E) (req : Request)
    → Delegates fallback req (delegate fallback req)
delegate-Delegates none req = inl (refl, refl)
delegate-Delegates {E} (some plan) req = inr (plan, refl, by_error (plan req))
  where
    by_error :
        (r : Planned E)
        → ((r.1 ≡ none) × (lifted r ≡ (r.0, none)))
          ⊎ ((e : E) × (r.1 ≡ some e) × (lifted r ≡ (r.0, some (fallback_error e))))
    by_error (p, none) = inl (refl, refl)
    by_error (p, some e) = inr (e, refl, refl)

-- What the planner returns: its own plan without an error, or what the fallback returns.
own_plan-cases :
    {E : Type 0} (req : Request) (built : Option Plan) (other : Planned (PlannerError E))
    → build_go_plan req ≡ built
    → ((p : Plan) × IsOwn req p × (own_plan req built other ≡ (some p, none)))
      ⊎ (HasNone req × (own_plan req built other ≡ other))
own_plan-cases req none other e = inr (inl e, refl)
own_plan-cases {E} req (some p) other e = by_validity (validate req.spec req.nodes (some p)) refl
  where
    by_validity :
        (r : Checked PlanSimulator)
        → validate req.spec req.nodes (some p) ≡ r
        → ((q : Plan) × IsOwn req q × (if_valid r p other ≡ (some q, none)))
          ⊎ (HasNone req × (if_valid r p other ≡ other))
    by_validity (ok s) v = inl (p, record { built = e; final = s; accepted = v }, refl)
    by_validity (err x) v = inr (inr (p, x, e, v), refl)

-- The planner returns its own plan and no error if it builds one that the validator accepts. Otherwise,
-- since it builds none or the validator refuses it, it returns an error if it has no fallback, and else the
-- fallback's plan, with the fallback's error if there is one.
pub go_plan-cases :
    {E : Type 0} (fallback : Fallback E) (req : Request)
    → ((p : Plan) × IsOwn req p × (go_plan fallback req ≡ (some p, none)))
      ⊎ (HasNone req × Delegates fallback req (go_plan fallback req))
unfolding go_plan
go_plan-cases fallback req =
    elim (own_plan-cases req (build_go_plan req) (delegate fallback req) refl) [
      | inl own ↦ inl own
      | inr (lacks, e) ↦
          inr (lacks, subst (Delegates fallback req) (sym e) (delegate-Delegates fallback req))
    ]

-- A list has one last member.
last_is_one : {A : Type 0} (xs ys : List A) (x y : A) → xs ++ x ∷ [] ≡ ys ++ y ∷ [] → x ≡ y
last_is_one [] [] x y e = cc
last_is_one [] (b ∷ []) x y e = absurd (cc)
last_is_one [] (b ∷ c ∷ ys) x y e = absurd (cc)
last_is_one (a ∷ []) [] x y e = absurd (cc)
last_is_one (a ∷ b ∷ xs) [] x y e = absurd (cc)
last_is_one (a ∷ xs) (b ∷ ys) x y e = last_is_one xs ys x y (cc)

-- The cluster that a spec asks for: its number of serving masters, and every slot held by one of
-- them, on the spec's image and with the spec's number of replicas.
pub record MeetsSpec (spec : ClusterSpec) (s : PlanSimulator) : Type 0 where
  pub masters : count_serving s.nodes ≡ spec.shards
  pub covered : (slot : ℕ) → slot ≤ slot_range_bound → Serves s (pos spec.replicas_per_shard) slot
  pub same_spec : s.spec ≡ spec

MeetsGoal-spec :
    (spec : ClusterSpec) (last : Step) (s : PlanSimulator)
    → param_int last.params "expectedShards" ≡ some (pos spec.shards)
    → param_int last.params "expectedReplicasPerShard" ≡ some (pos spec.replicas_per_shard)
    → MeetsGoal last s
    → s.spec ≡ spec
    → MeetsSpec spec s
MeetsGoal-spec spec last s shards replicas g e =
    let same : g.replicas ≡ pos spec.replicas_per_shard = cc (g.replicas_param, replicas) in
    record {
      masters = cc (g.masters, g.shards_param, shards);
      covered = λ slot b. subst (λ r. Serves s r slot) same (g.covered slot b);
      same_spec = e;
    }

-- If the observed nodes are as the controller collects them, a plan that the Go planner built and
-- the validator accepted leads the simulated cluster to the spec of the request.
pub own-MeetsSpec :
    (req : Request) (p : Plan) (s : PlanSimulator)
    → All IsObserved req.nodes
    → build_go_plan req ≡ some p
    → validate req.spec req.nodes (some p) ≡ ok s
    → MeetsSpec req.spec s
own-MeetsSpec req p s o b v =
    let (form, (before, last, e, verify, goal, same)) =
      validate-MeetsGoal req.spec req.nodes p s o v in
    let (replicated, f) = build_go_plan-IsFor req p b in
    let ends : last ≡ f.last = last_is_one before f.before last f.last (sym e ∙ f.steps) in
    MeetsGoal-spec req.spec f.last s f.shards f.replicas
      (subst (λ step. MeetsGoal step s) ends goal) same

-- A Go planner without a fallback returns no plan, or one whose simulated run from the observed
-- nodes, if these are as the controller collects them, leads to the spec of the request.
pub go_plan-MeetsSpec :
    (E : Type 0) (req : Request) (p : Plan)
    → All IsObserved req.nodes
    → (go_plan {E = E} none req).0 ≡ some p
    → (s : PlanSimulator) × (validate req.spec req.nodes (some p) ≡ ok s) × MeetsSpec req.spec s
go_plan-MeetsSpec E req p o h = elim (go_plan-cases {E = E} none req) [
  | inl (q, own, e) ↦
      let same : q ≡ p = cc in
      let v : validate req.spec req.nodes (some p) ≡ ok own.final =
        subst (λ r. validate req.spec req.nodes (some r) ≡ ok own.final) same own.accepted in
      (own.final, v, own-MeetsSpec req p own.final o (own.built ∙ ap some same) v)
  | inr (lacks, inl (_, e)) ↦ absurd (cc (h, e))
  | inr (lacks, inr (plan, never, rest)) ↦ absurd (cc never)
]

-- A plan that is the fallback's, since the planner has none of its own.
pub record FellBack {E : Type 0} (fallback : Fallback E) (req : Request) (p : Plan) : Type 0 where
  pub lacks : HasNone req
  pub plan : Request → Planned E
  pub set : fallback ≡ some plan
  pub returns : plan req ≡ (some p, none)

-- A plan that the planner returns without an error and that the validator accepts meets the spec, or is
-- the fallback's.
pub planned-MeetsSpec :
    {E : Type 0} (fallback : Fallback E) (req : Request) (p : Plan) (s : PlanSimulator)
    → All IsObserved req.nodes
    → validate req.spec req.nodes (some p) ≡ ok s
    → go_plan fallback req ≡ (some p, none)
    → MeetsSpec req.spec s ⊎ FellBack fallback req p
planned-MeetsSpec {E} fallback req p s o v h = elim (go_plan-cases fallback req) [
  | inl (q, own, e) ↦
      let same : q ≡ p = cc (h, e) in inl (own-MeetsSpec req p s o (own.built ∙ ap some same) v)
  | inr (lacks, inl (_, e)) ↦ absurd (cc (h, e))
  | inr (lacks, inr (plan, given, inl (fine, e))) ↦ inr (record {
    lacks = lacks;
    plan = plan;
    set = given;
    returns = pair (plan req) fine (ap (λ (x : Planned (PlannerError E)). x.0) (sym e ∙ h));
  })
  | inr (lacks, inr (plan, given, inr (x, bad, e))) ↦ absurd (cc (h, e))
]
  where
    pair : (r : Planned E) → r.1 ≡ none → r.0 ≡ some p → r ≡ (some p, none)
    pair (a, b) f g = cc (f, g)
