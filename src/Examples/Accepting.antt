-- ===== src/Examples/Accepting.antt =====
-- Plans that the validator accepts or refuses, on the cluster of one full master.
use llm_k8s_redis.Prelude.{
  List, [], ◌∷◌, ◌++◌, some, All, ok, ◌≡◌, refl, subst, ◌↔◌, lookup, split, trim_space, has_char,
  cut_at, atoi, cut_prefix, string_keys,
}
use llm_k8s_redis.Plan.{str, add_slots, verify_cluster, Step, param_string}
use llm_k8s_redis.Cluster.Slots.{parse_slot_spec, slot_token_range}
use llm_k8s_redis.Validator.Schema.{
  pass, is_plan_valid, require_string_params, require_slots_param, require_pod_params,
  validate_step_schema,
}
use llm_k8s_redis.Validator.WellFormed.{IsWellFormed, is_plan_valid_iff}
use llm_k8s_redis.Validator.Params.{HasParams, validate_step_schema-HasParams}
use llm_k8s_redis.Validator.Simulator.Start.{IsObserved, new_plan_simulator-IsConsistent}
use llm_k8s_redis.Validator.Simulator.Consistent.{IsConsistent}
use llm_k8s_redis.Validator.Simulator.Goal.{MeetsGoal}
use llm_k8s_redis.Validator.Accepted.{validate-MeetsGoal}
use llm_k8s_redis.Examples.Full.{spec, master, plan, full, starts_full, accepted}

master-IsObserved : All IsObserved (master ∷ [])
master-IsObserved = (record { ready_pod = λ r. refl; slots_seen = λ b. refl }, tt)

full-IsConsistent : IsConsistent full
full-IsConsistent =
    subst IsConsistent starts_full
      (new_plan_simulator-IsConsistent spec (master ∷ []) master-IsObserved)

validate-MeetsGoal_example :
    IsWellFormed plan
    × ((before : List Step) × (last : Step) × (plan.steps ≡ before ++ last ∷ [])
        × (last.action ≡ verify_cluster)
        × MeetsGoal last full
        × (full.spec ≡ spec))
validate-MeetsGoal_example =
    validate-MeetsGoal spec (master ∷ []) plan full master-IsObserved accepted

is_plan_valid_iff_example : (is_plan_valid (some plan) ≡ ok plan) ↔ IsWellFormed plan
is_plan_valid_iff_example = is_plan_valid_iff plan

abbrev add : Step
add = record {
  id = "a";
  action = add_slots;
  params = some (("namespace", str "demo") ∷ ("pod", str "redis-0") ∷ ("slots", str "0-3") ∷ []);
}

add_passes : validate_step_schema add ≡ pass
unfolding validate_step_schema require_string_params param_string lookup require_slots_param
    parse_slot_spec split trim_space slot_token_range has_char cut_at atoi require_pod_params
    cut_prefix
add_passes = refl

validate_step_schema-HasParams_example : HasParams add.action add.params
validate_step_schema-HasParams_example = validate_step_schema-HasParams add add_passes
