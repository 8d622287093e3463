-- ===== src/Controller/Status.antt =====
-- api/v1alpha1/rediscluster_types.go and internal/controller/status_helpers.go: the active plan as
-- the status of a cluster keeps it.
use llm_k8s_redis.Prelude.{
  ◌<>◌, err, ◌≡◌, ℕ, suc, String, List, [], ◌∷◌, Map, Option, some, none, Bool, true, false, ◌&&◌,
  ◌||◌, not, ◌==◌, string_keys, if◌then◌else◌, Result, ok, ◌>>=◌, get_elem?, set, is_blank,
  is_empty,
}
use llm_k8s_redis.Plan.{Value, ActionType, Step, Plan, dsl_version}

-- `StepState` is a string: one of the constants, or any other.
pub data StepState : Type 0 where
  pending running completed failed : StepState
  other_state : String → StepState

-- The states of a plan; `plan_other` is any other string.
pub data PlanState : Type 0 where
  plan_pending plan_running plan_completed plan_failed plan_superseded : PlanState
  plan_other : String → PlanState

-- The parameters are raw JSON text; a time is a number.
pub record StepStatus : Type 0 where
  pub id : String
  pub action : ActionType
  pub status : StepState
  pub message : String
  pub params : String
  pub last_transition_time : ℕ

pub record PlanStatus : Type 0 where
  pub id : String
  pub status : PlanState
  pub target_generation : ℕ
  pub summary : String
  pub current_step : String
  pub steps : List StepStatus

abbrev pub is_completed : StepState → Bool
is_completed completed = true
is_completed _ = false

abbrev pub is_failed : StepState → Bool
is_failed failed = true
is_failed _ = false

-- Is the state written anew?
abbrev pub same_state : StepState → StepState → Bool
same_state pending pending = true
same_state running running = true
same_state completed completed = true
same_state failed failed = true
same_state (other_state s) (other_state t) = s == t
same_state _ _ = false

abbrev pub written : ℕ → StepState → String → StepStatus → StepStatus
written now status msg s = record s {
  status = status;
  message = msg;
  last_transition_time = if same_state s.status status then s.last_transition_time else now;
}

abbrev write_step :
    ℕ → List StepStatus → ℕ → StepState → String → Option StepStatus → List StepStatus
write_step now steps idx status msg none = steps
write_step now steps idx status msg (some s) = set steps idx (written now status msg s)

-- setStep, at the time `now`. An index below 0 is not modelled: the callers pass a step's index.
unfoldable pub set_step : ℕ → PlanStatus → ℕ → StepState → String → PlanStatus
set_step now ps idx status msg = record ps {
  steps = write_step now ps.steps idx status msg (get_elem? ps.steps idx);
}

abbrev pub shift : Option ℕ → Option ℕ
shift none = none
shift (some i) = some (suc i)

-- The loop of `nextPendingStep`; none is the source's -1.
unfoldable pub next_pending : List StepStatus → Option ℕ
next_pending [] = none
next_pending (s ∷ steps) =
    let rest = shift (next_pending steps) in
    if is_failed s.status then none else if is_completed s.status then rest else some 0

abbrev pub next_pending_step : PlanStatus → Option ℕ
next_pending_step ps = next_pending ps.steps

abbrev pub any_failed : List StepStatus → Bool
any_failed [] = false
any_failed (s ∷ steps) = is_failed s.status || any_failed steps

abbrev pub all_done : List StepStatus → Bool
all_done [] = true
all_done (s ∷ steps) = is_completed s.status && all_done steps

abbrev pub is_superseded : PlanState → Bool
is_superseded plan_superseded = true
is_superseded _ = false

unfoldable pub plan_state : PlanStatus → PlanState
plan_state ps =
    if is_superseded ps.status
    then plan_superseded
    else if any_failed ps.steps
    then plan_failed
    else if all_done ps.steps && not (is_empty ps.steps)
    then plan_completed
    else plan_running

-- failedPlanMessage of an active plan.
unfoldable pub failed_message : List StepStatus → String
failed_message [] = "active plan failed"
failed_message (s ∷ steps) =
    let rest = failed_message steps in
    if is_failed s.status && not (is_blank s.message) then s.message else rest

unfoldable pub first_pending_id : List StepStatus → String
first_pending_id [] = ""
first_pending_id (s ∷ steps) =
    let rest = first_pending_id steps in if is_completed s.status then rest else s.id

-- encoding/json of a step's parameters, and the %q of fmt. Reading `null` gives the nil map.
pub record Codec : Type 0 where
  pub marshal : Option (Map String Value) → Result String String
  pub unmarshal : String → Result String (Option (Map String Value))
  pub quote : String → String

-- fmt.Errorf with the error of a step's parameters
abbrev pub about_params : {A : Type 0} → String → Result String A → Result String A
about_params text (ok a) = ok a
about_params text (err e) = err (text <> (" params: " <> e))

pub about_params-ok :
    {A : Type 0} (text : String) (r : Result String A) {a : A}
    → about_params text r ≡ ok a
    → r ≡ ok a
about_params-ok text (ok b) h = h
about_params-ok text (err e) h = cc h

module _ (json : Codec) where
  unfoldable pub steps_to_status : List Step → Result String (List StepStatus)
  steps_to_status [] = ok []
  steps_to_status (s ∷ steps) = do
    raw ← about_params ("marshal step " <> json.quote s.id) (json.marshal s.params)
    rest ← steps_to_status steps
    ok (
        record {
          id = s.id;
          action = s.action;
          status = pending;
          message = "";
          params = raw;
          last_transition_time = 0;
        }
        ∷ rest)

  unfoldable pub plan_to_status : Plan → Result String PlanStatus
  unfolding steps_to_status first_pending_id
  plan_to_status p = do
    steps ← steps_to_status p.steps
    ok (record {
      id = p.plan_id;
      status = plan_running;
      target_generation = p.target_generation;
      summary = p.summary;
      current_step = first_pending_id steps;
      steps = steps;
    })

  unfoldable pub read_params : String → Result String (Option (Map String Value))
  read_params raw = if is_blank raw then ok (some []) else json.unmarshal raw

  unfoldable pub status_to_steps : List StepStatus → Result String (List Step)
  unfolding read_params
  status_to_steps [] = ok []
  status_to_steps (s ∷ steps) = do
    params ← about_params ("unmarshal step " <> json.quote s.id) (read_params s.params)
    rest ← status_to_steps steps
    ok (record { id = s.id; action = s.action; params = params } ∷ rest)

  unfoldable pub status_to_plan : PlanStatus → Result String Plan
  unfolding status_to_steps
  status_to_plan ps = do
    steps ← status_to_steps ps.steps
    ok (record {
      dsl_version = dsl_version;
      plan_id = ps.id;
      target_generation = ps.target_generation;
      summary = ps.summary;
      steps = steps;
    })
