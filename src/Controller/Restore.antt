-- ===== src/Controller/Restore.antt =====
-- internal/controller/status_helpers.go: a plan is kept in the status and read back.
use llm_k8s_redis.Prelude.{
  ◌<>◌, sym, none, Bool, String, List, [], ◌∷◌, Map, Option, some, false, All, ok, >>=-eq-ok,
  is_blank, is_empty, ◌≡◌, refl, ◌∙◌, subst, Bool-cases, inl, inr, arith,
}
use llm_k8s_redis.Plan.{Value, bool, Step, Plan, dsl_version, param, param_string, param_int}
use llm_k8s_redis.Controller.Status.{
  about_params, about_params-ok, pending, plan_running, StepStatus, PlanStatus, next_pending,
  first_pending_id, next_pending_step, plan_state, Codec, steps_to_status, plan_to_status,
  read_params, status_to_steps, status_to_plan, any_failed, all_done,
}

-- params[key].(bool)
abbrev pub param_bool : Option Value → Option Bool
param_bool (some (bool b)) = some b
param_bool _ = none

-- Both maps give the same texts, integers and Booleans, which is all that the program reads of them. JSON
-- makes every number a float64, which the program reads as an integer again.
pub record SameParams (m n : Option (Map String Value)) : Type 0 where
  pub strings : (key : String) → param_string m key ≡ param_string n key
  pub ints : (key : String) → param_int m key ≡ param_int n key
  pub bools : (key : String) → param_bool (param m key) ≡ param_bool (param n key)

-- The JSON of these parameters is an object or null, and reads back to the same texts, integers and Booleans.
-- encoding/json does so for valid UTF-8 and for integers that a float64 holds.
abbrev pub ReadsBack : Codec → Option (Map String Value) → Type 0
ReadsBack json m =
    (raw : String)
    → json.marshal m ≡ ok raw
    → (is_blank raw ≡ false)
      × (n : Option (Map String Value)) × (json.unmarshal raw ≡ ok n)
      × SameParams m n

-- Steps with the same ids, actions and parameters, one by one.
pub SameSteps : List Step → List Step → Type 0
SameSteps [] [] = Unit
SameSteps [] (t ∷ steps') = ⊥
SameSteps (s ∷ steps) [] = ⊥
SameSteps (s ∷ steps) (t ∷ steps') =
    (s.id ≡ t.id) × (s.action ≡ t.action) × SameParams s.params t.params × SameSteps steps steps'

-- A plan that was just stored: it runs, from its first step on, and reads back to the same plan.
pub record IsStored (json : Codec) (p : Plan) (ps : PlanStatus) : Type 0 where
  pub runs : plan_state ps ≡ plan_running
  pub starts : is_empty p.steps ≡ false → next_pending_step ps ≡ some 0
  pub generation : ps.target_generation ≡ p.target_generation
  pub read : Plan
  pub reads : status_to_plan json ps ≡ ok read
  pub same_header :
      (read.plan_id ≡ p.plan_id)
      × (read.target_generation ≡ p.target_generation)
      × (read.summary ≡ p.summary)
      × (read.dsl_version ≡ p.dsl_version)
  pub same_steps : SameSteps p.steps read.steps

abbrev fresh : Step → String → StepStatus
fresh s raw = record {
  id = s.id;
  action = s.action;
  status = pending;
  message = "";
  params = raw;
  last_transition_time = 0;
}

-- A stored list of steps has no failed one, and its first step is open.
record IsFresh (steps : List Step) (stored : List StepStatus) : Type 0 where
  pub unfailed : any_failed stored ≡ false
  pub as_long : is_empty stored ≡ is_empty steps
  pub open' : is_empty steps ≡ false → (all_done stored ≡ false) × (next_pending stored ≡ some 0)

abbrev stored_plan : Plan → List StepStatus → PlanStatus
stored_plan p stored = record {
  id = p.plan_id;
  status = plan_running;
  target_generation = p.target_generation;
  summary = p.summary;
  current_step = first_pending_id stored;
  steps = stored;
}

abbrev read_plan : Plan → List Step → Plan
read_plan p steps = record {
  dsl_version = dsl_version;
  plan_id = p.plan_id;
  target_generation = p.target_generation;
  summary = p.summary;
  steps = steps;
}

module _ (json : Codec) where
  steps_read :
      (steps : List Step) {stored : List StepStatus}
      → All (λ s. ReadsBack json s.params) steps
      → steps_to_status json steps ≡ ok stored
      → (read : List Step) × (status_to_steps json stored ≡ ok read) × SameSteps steps read
  unfolding steps_to_status status_to_steps read_params SameSteps
  steps_read [] {stored} h e =
      let same : [] ≡ stored = cc in
      subst (λ l. (x : List Step) × (status_to_steps json l ≡ ok x) × SameSteps [] x) same
        ([], refl, tt)
  steps_read (s ∷ steps) {stored} h e =
      let (raw, marshals, e1) =
        >>=-eq-ok (about_params ("marshal step " <> json.quote s.id) (json.marshal s.params)) _ e in
      let m =
        about_params-ok ("marshal step " <> json.quote s.id) (json.marshal s.params) marshals in
      let (rest, r, e2) = >>=-eq-ok (steps_to_status json steps) _ e1 in
      let (read, back, same) = steps_read steps h.1 r in
      let (full, n, u, params) = h.0 raw m in
      let stored' : fresh s raw ∷ rest ≡ stored = cc in
      subst (λ l. (x : List Step) × (status_to_steps json l ≡ ok x) × SameSteps (s ∷ steps) x)
        stored'
        (
          record { id = s.id; action = s.action; params = n } ∷ read,
          rw (full, u, back) refl,
          (refl, refl, params, same),
        )

  steps-IsFresh :
      (steps : List Step) {stored : List StepStatus}
      → steps_to_status json steps ≡ ok stored
      → IsFresh steps stored
  unfolding steps_to_status next_pending
  steps-IsFresh [] {stored} e =
      let same : [] ≡ stored = cc in
      subst (IsFresh []) same (record { unfailed = refl; as_long = refl; open' = λ n. absurd (cc) })
  steps-IsFresh (s ∷ steps) {stored} e =
      let (raw, marshals, e1) =
        >>=-eq-ok (about_params ("marshal step " <> json.quote s.id) (json.marshal s.params)) _ e in
      let m =
        about_params-ok ("marshal step " <> json.quote s.id) (json.marshal s.params) marshals in
      let (rest, r, e2) = >>=-eq-ok (steps_to_status json steps) _ e1 in
      let same : fresh s raw ∷ rest ≡ stored = cc in
      subst (IsFresh (s ∷ steps)) same (record {
        unfailed = (steps-IsFresh steps r).unfailed;
        as_long = refl;
        open' = λ n. (refl, refl);
      })

  -- A plan of the current version whose parameters JSON reads back to the same texts, integers and Booleans
  -- is stored as a running plan that starts at its first step; and the stored plan is read back with the same
  -- header and, step by step in the same order, the same ids, actions, texts, integers and Booleans.
  pub plan_to_status-IsStored :
      (p : Plan) (ps : PlanStatus)
      → p.dsl_version ≡ dsl_version
      → All (λ s. ReadsBack json s.params) p.steps
      → plan_to_status json p ≡ ok ps
      → IsStored json p ps
  unfolding plan_to_status status_to_plan plan_state
  plan_to_status-IsStored p ps version h e =
      let (stored, r, e1) = >>=-eq-ok (steps_to_status json p.steps) _ e in
      let (read, back, same) = steps_read p.steps h r in
      let f = steps-IsFresh p.steps r in
      let made : stored_plan p stored ≡ ps = cc in
      subst (IsStored json p) made (record {
        runs = runs stored p.steps f;
        starts = λ n. (f.open' n).1;
        generation = refl;
        read = read_plan p read;
        reads = rw back refl;
        same_header = (refl, refl, refl, sym version);
        same_steps = same;
      })
    where
      runs :
          (stored : List StepStatus) (steps : List Step)
          → IsFresh steps stored
          → plan_state (stored_plan p stored) ≡ plan_running
      runs stored steps f = elim (Bool-cases (is_empty steps)) [
        | inl none' ↦ rw (f.unfailed, f.as_long ∙ none') (ground arith)
        | inr some' ↦ rw (f.unfailed, (f.open' some').0) refl
      ]
