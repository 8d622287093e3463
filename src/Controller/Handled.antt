-- ===== src/Controller/Handled.antt =====
-- internal/controller/plan_execution.go: which active plans are executed.
use llm_k8s_redis.Prelude.{
  ℕ, List, some, false, nat_eq, ◌≡◌, ◌≢◌, refl, inl, inr, arith, ◌⊎◌, Bool-cases, ap, sym, ◌∙◌,
}
use llm_k8s_redis.Plan.{Plan}
use llm_k8s_redis.Controller.Status.{
  PlanState, plan_pending, plan_running, plan_completed, plan_failed, plan_superseded, plan_other,
  PlanStatus, plan_state, Codec,
}
use llm_k8s_redis.Controller.Execution.{
  Executed, handle_active_plan, handle_state, handle_plan, handle,
}
use llm_k8s_redis.Api.{Condition, RedisCluster}

nat_eq-differs : {a b : ℕ} → a ≢ b → nat_eq a b ≡ false
nat_eq-differs n = ground arith

module _ (json : Codec) (one two : RedisCluster → Plan → ℕ → Executed)
    (set_status_condition : List Condition → Condition → List Condition) (now : ℕ) where
  -- The driver runs no step of a plan of another generation, or of one that is completed, failed or
  -- superseded: what the reconcile leaves does not depend on the driver.
  pub handle_active_plan-same :
      (c : RedisCluster) (active : PlanStatus)
      → c.active_plan ≡ some active
      → (active.target_generation ≢ c.generation) ⊎ (plan_state active ≢ plan_running)
      → handle_active_plan json one set_status_condition now c
        ≡ handle_active_plan json two set_status_condition now c
  unfolding handle_active_plan handle_state
  handle_active_plan-same c active e o =
      ap (handle json one set_status_condition now c) e
      ∙ ap some (same_plan o)
      ∙ sym (ap (handle json two set_status_condition now c) e)
    where
      same_state :
          (p : PlanState)
          → p ≢ plan_running
          → handle_state json one set_status_condition now c active p
            ≡ handle_state json two set_status_condition now c active p
      same_state plan_running n = absurd (n refl)
      same_state plan_pending n = refl
      same_state plan_completed n = refl
      same_state plan_failed n = refl
      same_state plan_superseded n = refl
      same_state (plan_other s) n = refl

      same_plan :
          (active.target_generation ≢ c.generation) ⊎ (plan_state active ≢ plan_running)
          → handle_plan json one set_status_condition now c active
            ≡ handle_plan json two set_status_condition now c active
      same_plan (inl n) = rw (nat_eq-differs n) refl
      same_plan (inr n) = elim (Bool-cases (nat_eq active.target_generation c.generation)) [
        | inl b ↦ rw b (same_state (plan_state active) n)
        | inr b ↦ rw b refl
      ]
