-- ===== src/Controller/Touched.antt =====
-- internal/controller/plan_execution.go: which steps a reconcile rewrites.
use llm_k8s_redis.Prelude.{
  ℕ, zero, suc, String, List, [], ◌∷◌, Option, some, none, Bool, true, false, if◌then◌else◌, Result,
  ok, err, get_elem?, set, length, Option-cases, ◌≡◌, ◌≢◌, refl, sym, ◌∙◌, ap, subst, inl, inr,
  >>=-eq-ok, Result-cases, Map,
}
use llm_k8s_redis.Plan.{Value, Plan}
use llm_k8s_redis.Controller.Progress.{IsNext, next_pending-IsNext}
use llm_k8s_redis.Controller.Status.{
  StepState, completed, failed, running, StepStatus, PlanStatus, set_step, written,
  next_pending_step, Codec, plan_to_status, status_to_plan,
}
use llm_k8s_redis.Controller.Execution.{
  StepOutcome, Executed, left_by, persist_step_params, keep_params, with_params, params_of, persist,
  after_outcome, finished, outcome_result, has_no_error, id_at, apply_step_outcome,
  supersede_active_plan, set_current_step, execute_next_step, restored, executed,
}
use llm_k8s_redis.Api.{Condition, RedisCluster}

-- At most the step at `i` is rewritten.
pub record ChangesOnly (i : ℕ) (old new : List StepStatus) : Type 0 where
  pub same_length : length new ≡ length old
  pub others : (j : ℕ) → j ≢ i → get_elem? new j ≡ get_elem? old j

changes_none : (i : ℕ) (steps : List StepStatus) → ChangesOnly i steps steps
changes_none i steps = record { same_length = refl; others = λ j n. refl }

ChangesOnly-trans :
    {i : ℕ} {a b c : List StepStatus} → ChangesOnly i a b → ChangesOnly i b c → ChangesOnly i a c
ChangesOnly-trans x y = record {
  same_length = y.same_length ∙ x.same_length;
  others = λ j n. y.others j n ∙ x.others j n;
}

length-set :
    (steps : List StepStatus) (i : ℕ) (s : StepStatus) → length (set steps i s) ≡ length steps
length-set [] i s = refl
length-set (x ∷ steps) zero s = refl
length-set (x ∷ steps) (suc i) s = ap suc (length-set steps i s)

get_elem-set :
    (steps : List StepStatus) (i j : ℕ) (s : StepStatus)
    → j ≢ i
    → get_elem? (set steps i s) j ≡ get_elem? steps j
get_elem-set [] i j s n = refl
get_elem-set (x ∷ steps) zero zero s n = absurd (n refl)
get_elem-set (x ∷ steps) zero (suc j) s n = refl
get_elem-set (x ∷ steps) (suc i) zero s n = refl
get_elem-set (x ∷ steps) (suc i) (suc j) s n = get_elem-set steps i j s (λ e. n (ap suc e))

set-ChangesOnly :
    (i : ℕ) (steps : List StepStatus) (s : StepStatus) → ChangesOnly i steps (set steps i s)
set-ChangesOnly i steps s = record {
  same_length = length-set steps i s;
  others = λ j n. get_elem-set steps i j s n;
}

set_step-ChangesOnly :
    (now : ℕ) (ps : PlanStatus) (i : ℕ) (status : StepState) (msg : String)
    → ChangesOnly i ps.steps (set_step now ps i status msg).steps
unfolding set_step
set_step-ChangesOnly now ps i status msg = elim (Option-cases (get_elem? ps.steps i)) [
  | inl e ↦ rw e (changes_none i ps.steps)
  | inr (s, e) ↦ rw e (set-ChangesOnly i ps.steps (written now status msg s))
]

abbrev pub steps_of : Option PlanStatus → List StepStatus
steps_of none = []
steps_of (some ps) = ps.steps

with_params-ChangesOnly :
    (i : ℕ) (steps : List StepStatus) (a b : Option StepStatus)
    → ChangesOnly i steps (with_params steps i a b)
with_params-ChangesOnly i steps none b = changes_none i steps
with_params-ChangesOnly i steps (some s) none = changes_none i steps
with_params-ChangesOnly i steps (some s) (some t) =
    set-ChangesOnly i steps (record s { params = t.params })

persist-ChangesOnly :
    (json : Codec) (active : PlanStatus) (model : Plan) (i : ℕ) {ps : PlanStatus}
    → persist_step_params json active model i ≡ ok ps
    → ChangesOnly i active.steps ps.steps
unfolding persist_step_params
persist-ChangesOnly json active model i h = by_params (params_of (get_elem? model.steps i)) h
  where
    by_params :
        (o : Option (Map String Value)) {ps : PlanStatus}
        → persist json active model i o ≡ ok ps
        → ChangesOnly i active.steps ps.steps
    by_params none {ps} h =
        let same : active ≡ ps = cc in
        subst (λ q. ChangesOnly i active.steps q.steps) same (changes_none i active.steps)
    by_params (some m) {ps} h =
        let (converted, e, kept) = >>=-eq-ok (plan_to_status json model) _ h in
        let same : keep_params active i converted ≡ ps = cc in
        subst (λ q. ChangesOnly i active.steps q.steps) same
          (with_params-ChangesOnly i active.steps _ _)

pub after_outcome-steps :
    (c : RedisCluster) (status : StepState) (ps : PlanStatus)
    → steps_of (after_outcome c status ps).0.active_plan ≡ ps.steps
after_outcome-steps c completed ps = finished-steps (next_pending_step ps)
  where
    finished-steps : (o : Option ℕ) → (finished ps o).steps ≡ ps.steps
    finished-steps none = refl
    finished-steps (some i) = refl
after_outcome-steps c _ ps = refl

module _ (json : Codec) (driver : RedisCluster → Plan → ℕ → Executed)
    (set_status_condition : List Condition → Condition → List Condition) (now : ℕ) where
  apply_step_outcome-ChangesOnly :
      (active : PlanStatus) (model : Plan) (i : ℕ) (outcome : StepOutcome) (error : Option String)
      → ChangesOnly i active.steps
          (apply_step_outcome json now active model i outcome error).1.steps
  unfolding apply_step_outcome
  apply_step_outcome-ChangesOnly active model i outcome (some e) =
      set_step-ChangesOnly now active i failed e
  apply_step_outcome-ChangesOnly active model i outcome none =
      elim (Result-cases (persist_step_params json active model i)) [
        | inl (kept, e) ↦ rw e (
            ChangesOnly-trans (persist-ChangesOnly json active model i e)
              (set_step-ChangesOnly now kept i outcome.status outcome.message))
        | inr (m, e) ↦ rw e (set_step-ChangesOnly now active i failed m)
      ]

  supersede_active_plan-ChangesOnly :
      (c : RedisCluster) (active : PlanStatus) (model : Plan) (i : ℕ) (id msg : String)
      → ChangesOnly i active.steps (
          steps_of
            (supersede_active_plan json driver set_status_condition now c active model i id
              msg).0.active_plan)
  unfolding supersede_active_plan
  supersede_active_plan-ChangesOnly c active model i id msg =
      elim (Result-cases (persist_step_params json active model i)) [
        | inl (kept, e) ↦ rw e (
            ChangesOnly-trans (persist-ChangesOnly json active model i e)
              (set_step-ChangesOnly now kept i running msg))
        | inr (m, e) ↦ rw e (set_step-ChangesOnly now active i failed m)
      ]

  outcome_result-steps :
      (c : RedisCluster) (i : ℕ) (status : StepState) (b : Bool) (ps : PlanStatus)
      → steps_of
          (outcome_result json driver set_status_condition now c i status (b, ps)).0.active_plan
        ≡ ps.steps
  unfolding set_current_step
  outcome_result-steps c i status true ps = refl
  outcome_result-steps c i status false ps = after_outcome-steps c status _

  executed-ChangesOnly :
      (c : RedisCluster) (active : PlanStatus) (i : ℕ) (x : Executed)
      → ChangesOnly i active.steps
          (steps_of (executed json driver set_status_condition now c active i x).0.active_plan)
  executed-ChangesOnly c active i x =
      picked (if has_no_error x.error then x.outcome.supersede_plan else false)
    where
      picked :
          (b : Bool)
          → ChangesOnly i active.steps (
              steps_of
                (if b
                  then supersede_active_plan json driver set_status_condition now c active x.plan i
                      (id_at active.steps (some i))
                      x.outcome.message
                  else outcome_result json driver set_status_condition now c i x.outcome.status (
                      apply_step_outcome json now active x.plan i x.outcome x.error)).0.active_plan)
      picked true = supersede_active_plan-ChangesOnly c active x.plan i _ _
      picked false =
          subst (ChangesOnly i active.steps)
            (sym (
              outcome_result-steps c i x.outcome.status
                (apply_step_outcome json now active x.plan i x.outcome x.error).0
                (apply_step_outcome json now active x.plan i x.outcome x.error).1))
            (apply_step_outcome-ChangesOnly active x.plan i x.outcome x.error)

  -- A reconcile of a running plan rewrites at most its next step, which is the first that is not
  -- completed, and keeps the number of the steps, whatever the driver does.
  pub execute_next_step-ChangesOnly :
      (c : RedisCluster) (active : PlanStatus) (i : ℕ)
      → next_pending_step active ≡ some i
      → IsNext active.steps i
        × ChangesOnly i active.steps (
            steps_of
              (execute_next_step json driver set_status_condition now c active).0.active_plan)
  unfolding execute_next_step set_current_step
  execute_next_step-ChangesOnly c active i h =
      (next_pending-IsNext active.steps i h, rw h (by_plan (status_to_plan json active)))
    where
      by_plan :
          (r : Result String Plan)
          → ChangesOnly i active.steps
              (steps_of (restored json driver set_status_condition now c active i r).0.active_plan)
      by_plan (ok model) = let x = driver c model i in executed-ChangesOnly (left_by c x) active i x
      by_plan (err e) = set_step-ChangesOnly now active i failed e
