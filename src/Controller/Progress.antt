-- ===== src/Controller/Progress.antt =====
-- internal/controller/plan_execution.go: plans run one step at a time, in order.
use llm_k8s_redis.Prelude.{
  ℕ, zero, suc, ◌<◌, List, [], ◌∷◌, Option, some, none, true, false, get_elem?, is_empty,
  Bool-cases, ◌≡◌, refl, subst, inl, inr, arith, ◌⊎◌,
}
use llm_k8s_redis.Controller.Status.{
  plan_running, StepStatus, PlanStatus, is_completed, is_failed, next_pending, next_pending_step,
  shift, any_failed, all_done, plan_state,
}

-- The step at `i` is the next: all before it are completed and it is neither completed nor failed.
pub record IsNext (steps : List StepStatus) (i : ℕ) : Type 0 where
  pub step : StepStatus
  pub found : get_elem? steps i ≡ some step
  pub open' : is_completed step.status ≡ false
  pub unfailed : is_failed step.status ≡ false
  pub before :
      (j : ℕ) (s : StepStatus) → j < i → get_elem? steps j ≡ some s → is_completed s.status ≡ true

first :
    (s : StepStatus) (steps : List StepStatus) (i : ℕ)
    → is_completed s.status ≡ false
    → is_failed s.status ≡ false
    → some zero ≡ some i
    → IsNext (s ∷ steps) i
first s steps zero t w h = record {
  step = s;
  found = refl;
  open' = t;
  unfailed = w;
  before = λ j x b e. absurd (omega arith);
}
first s steps (suc i) t w h = absurd (cc)

earlier :
    (s : StepStatus) (steps : List StepStatus) (i : ℕ)
    → is_completed s.status ≡ true
    → IsNext steps i
    → (j : ℕ) (x : StepStatus) → j < suc i
    → get_elem? (s ∷ steps) j ≡ some x
    → is_completed x.status ≡ true
earlier s steps i d n zero x b e = cc
earlier s steps i d n (suc j) x b e = n.before j x (omega arith) e

later :
    (s : StepStatus) (steps : List StepStatus) (i : ℕ)
    → is_completed s.status ≡ true
    → IsNext steps i
    → IsNext (s ∷ steps) (suc i)
later s steps i d n = record {
  step = n.step;
  found = n.found;
  open' = n.open';
  unfailed = n.unfailed;
  before = earlier s steps i d n;
}

next_pending-shift :
    (o : Option ℕ) (i : ℕ) → shift o ≡ some i → (k : ℕ) × (o ≡ some k) × (suc k ≡ i)
next_pending-shift none i h = absurd (cc)
next_pending-shift (some k) i h = (k, refl, cc)

pub next_pending-IsNext :
    (steps : List StepStatus) (i : ℕ) → next_pending steps ≡ some i → IsNext steps i
unfolding next_pending
next_pending-IsNext [] i h = absurd (cc)
next_pending-IsNext (s ∷ steps) i h = elim (Bool-cases (is_failed s.status)) [
  | inl broken ↦ absurd (cc (rw broken at h))
  | inr whole ↦ elim (Bool-cases (is_completed s.status)) [
    | inr todo ↦ first s steps i todo whole (rw (whole, todo) at h)
    | inl done' ↦
        let (k, e, up) = next_pending-shift (next_pending steps) i (rw (whole, done') at h) in
        subst (IsNext (s ∷ steps)) up (later s steps k done' (next_pending-IsNext steps k e))
  ]
]

has_next :
    (steps : List StepStatus)
    → any_failed steps ≡ false
    → all_done steps ≡ false
    → (i : ℕ) × (next_pending steps ≡ some i)
unfolding next_pending
has_next [] f d = absurd (cc)
has_next (s ∷ steps) f d = elim (Bool-cases (is_completed s.status)) [
  | inr todo ↦ (0, ground arith)
  | inl done' ↦
      let (i, e) = has_next steps (ground arith) (ground arith) in (suc i, ground (arith, e))
]

-- A plan that the controller takes for running has a next step to execute, unless it has no steps.
plan_state-running :
    (ps : PlanStatus)
    → plan_state ps ≡ plan_running
    → (is_empty ps.steps ≡ true) ⊎ ((i : ℕ) × (next_pending_step ps ≡ some i))
unfolding plan_state
plan_state-running ps h = elim (Bool-cases (is_empty ps.steps)) [
  | inl none' ↦ inl none'
  | inr some' ↦ elim (Bool-cases (any_failed ps.steps)) [
    | inl f ↦ absurd (ground arith)
    | inr w ↦ inr (has_next ps.steps w (ground arith))
  ]
]
