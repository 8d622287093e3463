-- ===== src/Controller/Completes.antt =====
-- internal/controller/plan_execution.go: a completed step counts.
use llm_k8s_redis.Prelude.{
  ℕ, zero, suc, ◌+◌, String, List, [], ◌∷◌, Map, Option, some, none, false, if◌then◌else◌, ok,
  >>=-eq-ok, get_elem?, set, ◌≡◌, refl, ◌∙◌, ap, subst, arith,
}
use llm_k8s_redis.Plan.{Value, Plan}
use llm_k8s_redis.Controller.Status.{
  StepState, completed, StepStatus, PlanStatus, is_completed, set_step, written, next_pending_step,
  Codec, plan_to_status, status_to_plan,
}
use llm_k8s_redis.Controller.Execution.{
  Executed, left_by, persist_step_params, persist, params_of, keep_params, with_params,
  apply_step_outcome, set_current_step, execute_next_step,
}
use llm_k8s_redis.Api.{Condition, RedisCluster}
use llm_k8s_redis.Controller.Progress.{IsNext, next_pending-IsNext}
use llm_k8s_redis.Controller.Touched.{steps_of, after_outcome-steps}

-- How many steps are completed.
pub count_done : List StepStatus → ℕ
count_done [] = 0
count_done (s ∷ steps) =
    let rest = count_done steps in if is_completed s.status then suc rest else rest

abbrev one : StepState → ℕ
one s = if is_completed s then 1 else 0

count_done-set :
    (steps : List StepStatus) (i : ℕ) (s t : StepStatus)
    → get_elem? steps i ≡ some s
    → count_done (set steps i t) + one s.status ≡ count_done steps + one t.status
unfolding count_done
count_done-set [] i s t e = absurd (cc)
count_done-set (x ∷ steps) zero s t e = ground arith
count_done-set (x ∷ steps) (suc i) s t e = ground (arith, count_done-set steps i s t e)

get_elem-set_same :
    (steps : List StepStatus) (i : ℕ) (s t : StepStatus)
    → get_elem? steps i ≡ some s
    → get_elem? (set steps i t) i ≡ some t
get_elem-set_same [] i s t e = absurd (cc)
get_elem-set_same (x ∷ steps) zero s t e = refl
get_elem-set_same (x ∷ steps) (suc i) s t e = get_elem-set_same steps i s t e

-- Still the step at `i` is not completed, and as many are.
record Keeps (i : ℕ) (old new : List StepStatus) : Type 0 where
  pub step : StepStatus
  pub found : get_elem? new i ≡ some step
  pub undone : is_completed step.status ≡ false
  pub count : count_done new ≡ count_done old

with_params-Keeps :
    (steps : List StepStatus) (i : ℕ) (s : StepStatus) (b : Option StepStatus)
    → get_elem? steps i ≡ some s
    → is_completed s.status ≡ false
    → Keeps i steps (with_params steps i (get_elem? steps i) b)
with_params-Keeps steps i s none e u =
    rw e (record { step = s; found = e; undone = u; count = refl })
with_params-Keeps steps i s (some t) e u = rw e (record {
  step = record s { params = t.params };
  found = get_elem-set_same steps i s (record s { params = t.params }) e;
  undone = u;
  count = ground (arith, count_done-set steps i s (record s { params = t.params }) e);
})

persist-Keeps :
    (json : Codec) (active : PlanStatus) (model : Plan) (i : ℕ) {ps : PlanStatus}
    → IsNext active.steps i
    → persist_step_params json active model i ≡ ok ps
    → Keeps i active.steps ps.steps
unfolding persist_step_params
persist-Keeps json active model i n h = by_params (params_of (get_elem? model.steps i)) h
  where
    by_params :
        (o : Option (Map String Value)) {ps : PlanStatus}
        → persist json active model i o ≡ ok ps
        → Keeps i active.steps ps.steps
    by_params none {ps} h =
        let same : active ≡ ps = cc in
        subst (λ q. Keeps i active.steps q.steps) same
          (record { step = n.step; found = n.found; undone = n.open'; count = refl })
    by_params (some m) {ps} h =
        let (converted, e, kept) = >>=-eq-ok (plan_to_status json model) _ h in
        let same : keep_params active i converted ≡ ps = cc in
        subst (λ q. Keeps i active.steps q.steps) same
          (with_params-Keeps active.steps i n.step _ n.found n.open')

set_step-counts :
    (now : ℕ) (ps : PlanStatus) (i : ℕ) (msg : String) {old : List StepStatus}
    → Keeps i old ps.steps
    → count_done (set_step now ps i completed msg).steps ≡ suc (count_done old)
unfolding set_step
set_step-counts now ps i msg k = rw k.found (
    ground (
      arith,
      count_done-set ps.steps i k.step (written now completed msg k.step) k.found,
      k.undone,
      k.count,
    ))

module _ (json : Codec) (driver : RedisCluster → Plan → ℕ → Executed)
    (set_status_condition : List Condition → Condition → List Condition) (now : ℕ) where
  -- What the driver and the JSON of the parameters do when the step at `i` completes.
  pub record Completes (c : RedisCluster) (active : PlanStatus) (i : ℕ) : Type 0 where
    pub model : Plan
    pub restores : status_to_plan json active ≡ ok model
    pub succeeds : (driver c model i).error ≡ none
    pub goes_on : (driver c model i).outcome.supersede_plan ≡ false
    pub done' : (driver c model i).outcome.status ≡ completed
    pub kept : PlanStatus
    pub persists : persist_step_params json active (driver c model i).plan i ≡ ok kept

  -- If the plan is restored, the driver completes the next step and the step's parameters can be
  -- written back, then the reconcile leaves one more step completed.
  pub execute_next_step-counts :
      (c : RedisCluster) (active : PlanStatus) (i : ℕ)
      → next_pending_step active ≡ some i
      → Completes c active i
      → count_done
          (steps_of (execute_next_step json driver set_status_condition now c active).0.active_plan)
        ≡ suc (count_done active.steps)
  unfolding execute_next_step apply_step_outcome set_current_step
  execute_next_step-counts c active i h d =
      simp (h, d.restores, d.succeeds, d.goes_on, d.persists, d.done')
        (ap count_done (after_outcome-steps (left_by c (driver c d.model i)) completed _)
          ∙ set_step-counts now d.kept i (driver c d.model i).outcome.message (
              persist-Keeps json active (driver c d.model i).plan i
                (next_pending-IsNext active.steps i h) d.persists))
