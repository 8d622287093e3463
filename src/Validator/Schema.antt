-- ===== src/Validator/Schema.antt =====
-- internal/validator/validator.go: the form of a plan.
use llm_k8s_redis.Prelude.{
  ◌≡◌, ℕ, ◌+◌, String, List, [], ◌∷◌, Map, Option, some, none, Bool, true, false, ◌==◌, string_keys,
  if◌then◌else◌, ℤ, pos, Result, ok, err, ◌>>=◌, ◌>>◌, guard, insert, has, is_blank, cut_prefix,
  atoi,
}
use llm_k8s_redis.Plan.{
  Value, bool, ActionType, ensure_node, wait_node_ready, meet_node, replicate_node, add_slots,
  migrate_slots, forget_node, delete_node, verify_cluster, unknown, Step, Plan, dsl_version, param,
  param_string, param_int, or_blank,
}
use llm_k8s_redis.Cluster.Slots.{SlotSet, SlotError, parse_slot_spec, add_range}
use llm_k8s_redis.Validator.Errors.{
  ValidationError, nil_plan, no_steps, unsupported_version, empty_id, duplicate_id, in_step,
  last_not_verify, not_whitelisted, not_a_string, empty_param, not_an_integer, not_true, not_a_bool,
  bad_pod_name, invalid_slots, no_forget_target,
}

abbrev pub Checked : Type 0 → Type 0
Checked A = Result ValidationError A

abbrev pub Params : Type 0
Params = Option (Map String Value)

abbrev pub pass : Checked (Unit {0})
pass = ok tt

abbrev pub non_negative : Option ℤ → Option ℕ
non_negative (some (pos n)) = some n
non_negative _ = none

abbrev pub ordinal_of : Option String → Option ℕ
ordinal_of none = none
ordinal_of (some s) = if is_blank s then none else non_negative (atoi s)

unfoldable pub redis_pod_ordinal : String → Option ℕ
redis_pod_ordinal pod = ordinal_of (cut_prefix pod "redis-")

abbrev pub check_string : String → Option String → Checked (Unit {0})
check_string key none = err (not_a_string key)
check_string key (some s) = if is_blank s then err (empty_param key) else pass

unfoldable pub require_string_params : Params → List String → Checked (Unit {0})
require_string_params params [] = pass
require_string_params params (key ∷ keys) = do
  check_string key (param_string params key)
  require_string_params params keys

abbrev pub check_pod : String → String → Option ℕ → Checked (Unit {0})
check_pod key pod none = err (bad_pod_name key pod)
check_pod key pod (some n) = pass

unfoldable pub check_pods : Params → List String → Checked (Unit {0})
unfolding redis_pod_ordinal
check_pods params [] = pass
check_pods params (key ∷ keys) = do
  let pod = or_blank (param_string params key)
  check_pod key pod (redis_pod_ordinal pod)
  check_pods params keys

unfoldable pub require_pod_params : Params → List String → Checked (Unit {0})
unfolding require_string_params check_pods
require_pod_params params keys = do require_string_params params keys; check_pods params keys

abbrev pub check_int : String → Option ℤ → Checked (Unit {0})
check_int key none = err (not_an_integer key)
check_int key (some i) = pass

unfoldable pub require_int_params : Params → List String → Checked (Unit {0})
require_int_params params [] = pass
require_int_params params (key ∷ keys) = do
  check_int key (param_int params key)
  require_int_params params keys

abbrev pub lift_slots {ℓ} : {A : Type ℓ} → Result SlotError A → Result ValidationError A
lift_slots (ok a) = ok a
lift_slots (err e) = err (invalid_slots e)

unfoldable pub slots_set : String → Checked SlotSet
unfolding add_range
slots_set s = do slots ← lift_slots (parse_slot_spec s); ok (add_range slots [])

unfoldable pub require_slots_param : Params → String → Checked (Unit {0})
unfolding slots_set
require_slots_param params key = do _ ← slots_set (or_blank (param_string params key)); pass

abbrev pub check_true : String → Option Value → Checked (Unit {0})
check_true key none = err (not_true key)
check_true key (some (bool true)) = pass
check_true key (some (bool false)) = err (not_true key)
check_true key (some _) = err (not_a_bool key)

unfoldable pub require_true_bool_params : Params → List String → Checked (Unit {0})
require_true_bool_params params [] = pass
require_true_bool_params params (key ∷ keys) = do
  check_true key (param params key)
  require_true_bool_params params keys

abbrev pub is_present : Option Value → Bool
is_present none = false
is_present (some v) = true

-- The case of `ForgetNode`.
unfoldable pub forget_schema : Params → Checked (Unit {0})
forget_schema params = do
  require_string_params params ("namespace" ∷ [])
  (if is_present (param params "pod")
      then require_pod_params params ("pod" ∷ [])
      else guard (is_present (param params "lastKnownNodeId")) no_forget_target)
  (if is_present (param params "lastKnownNodeId")
      then require_string_params params ("lastKnownNodeId" ∷ [])
      else pass)

-- The cases of `AddSlots` and `MigrateSlots`, which differ in the pods that they name.
abbrev pub slots_schema : Params → List String → Checked (Unit {0})
slots_schema params pods = do
  require_string_params params ("namespace" ∷ "slots" ∷ [])
  require_slots_param params "slots"
  require_pod_params params pods

abbrev pub pods_schema : Params → List String → List String → Checked (Unit {0})
pods_schema params texts pods = do
  require_string_params params texts
  require_pod_params params pods

unfoldable pub step_schema : ActionType → Params → Checked (Unit {0})
unfolding forget_schema
step_schema ensure_node p = pods_schema p ("namespace" ∷ "image" ∷ "memorySize" ∷ []) ("pod" ∷ [])
step_schema wait_node_ready p = pods_schema p ("namespace" ∷ []) ("pod" ∷ [])
step_schema meet_node p = pods_schema p ("namespace" ∷ []) ("sourcePod" ∷ "targetPod" ∷ [])
step_schema replicate_node p = pods_schema p ("namespace" ∷ []) ("masterPod" ∷ "replicaPod" ∷ [])
step_schema add_slots p = slots_schema p ("pod" ∷ [])
step_schema migrate_slots p = slots_schema p ("sourcePod" ∷ "targetPod" ∷ [])
step_schema forget_node p = forget_schema p
step_schema delete_node p = pods_schema p ("namespace" ∷ []) ("pod" ∷ [])
step_schema verify_cluster p = do
  require_int_params p ("expectedShards" ∷ "expectedReplicasPerShard" ∷ [])
  require_true_bool_params p (
      "requireClusterStateOk" ∷ "requireFullSlotCoverage" ∷ "requireAllSlotOwnersHaveReplicas" ∷ [])
step_schema (unknown a) p = err (not_whitelisted a)

unfoldable pub validate_step_schema : Step → Checked (Unit {0})
unfolding step_schema
validate_step_schema s = step_schema s.action s.params

-- fmt.Errorf("step %q: %w", id, err)
abbrev pub wrap {ℓ} : {A : Type ℓ} → String → Result ValidationError A → Result ValidationError A
wrap id (ok a) = ok a
wrap id (err e) = err (in_step id e)

-- The loop over the steps, `i` the index and `seen` the ids so far.
unfoldable pub check_steps : ℕ → Map String (Unit {0}) → List Step → Checked (Unit {0})
unfolding validate_step_schema
check_steps i seen [] = pass
check_steps i seen (s ∷ steps) =
    let rest = check_steps (i + 1) (insert s.id tt seen) steps in
    if is_blank s.id
    then err (empty_id i)
    else if has s.id seen
    then err (duplicate_id i s.id)
    else (wrap s.id (validate_step_schema s) >> rest)

-- The test on the action of the last step.
abbrev pub last_is_verify : ActionType → Checked (Unit {0})
last_is_verify verify_cluster = pass
last_is_verify a = err (last_not_verify a)

unfoldable pub check_last : List Step → Checked (Unit {0})
check_last [] = err no_steps
check_last (s ∷ []) = last_is_verify s.action
check_last (s ∷ t ∷ steps) = check_last (t ∷ steps)

abbrev pub some_steps : List Step → Checked (Unit {0})
some_steps [] = err no_steps
some_steps (s ∷ steps) = pass

unfoldable pub is_plan_valid : Option Plan → Checked Plan
unfolding check_steps check_last
is_plan_valid none = err nil_plan
is_plan_valid (some p) = do
  guard (p.dsl_version == dsl_version) (unsupported_version p.dsl_version)
  some_steps p.steps
  check_steps 0 [] p.steps
  check_last p.steps
  ok p

pub wrap-eq-ok : {A : Type 0} (id : String) (r : Checked A) {a : A} → wrap id r ≡ ok a → r ≡ ok a
wrap-eq-ok id (ok b) h = h
wrap-eq-ok id (err e) h = absurd (cc)
