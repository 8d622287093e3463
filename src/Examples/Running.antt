-- ===== src/Examples/Running.antt =====
-- An active plan of two steps, of which the first is completed.
use llm_k8s_redis.Prelude.{
  ℕ, suc, subst, is_blank, ◌≤◌, ◌<◌, String, List, [], ◌∷◌, Map, Option, some, none, false, inl,
  Result, ok, err, ◌≡◌, refl, arith, is_char, cut_at, cut_prefix, atoi, ◌<>◌, string_keys, lookup,
}
use llm_k8s_redis.Plan.{
  Value, str, ActionType, ensure_node, wait_node_ready, Step, Plan, dsl_version, param_string,
  param,
}
use llm_k8s_redis.Controller.Status.{
  StepState, pending, completed, plan_running, StepStatus, PlanStatus, next_pending,
  next_pending_step, plan_state, Codec, plan_to_status, status_to_plan,
}
use llm_k8s_redis.Controller.Execution.{
  StepOutcome, Executed, execute_next_step, handle_active_plan, persist_step_params,
}
use llm_k8s_redis.Api.{Condition, RedisCluster}
use llm_k8s_redis.Controller.Progress.{IsNext}
use llm_k8s_redis.Controller.Touched.{ChangesOnly, steps_of, execute_next_step-ChangesOnly}
use llm_k8s_redis.Controller.Completes.{count_done, Completes, execute_next_step-counts}
use llm_k8s_redis.Controller.Handled.{handle_active_plan-same}
use llm_k8s_redis.Controller.Ordinal.{
  advance_from_steps, step_ordinal, controller_pod_ordinal, advance-above,
}
use llm_k8s_redis.Controller.Restore.{SameParams, ReadsBack, IsStored, plan_to_status-IsStored}

-- A codec for one parameter that is a text: the key, a colon and the text.
abbrev read_pair : Option (String × String) → Result String (Option (Map String Value))
read_pair none = err "no pair"
read_pair (some (k, v)) = ok (some ((k, str v) ∷ []))

abbrev write_pair : Option (Map String Value) → Result String String
write_pair (some ((k, str v) ∷ [])) = ok (k <> (":" <> v))
write_pair _ = err "not one text"

abbrev json : Codec
json = record {
  marshal = write_pair;
  unmarshal = λ raw. read_pair (cut_at (is_char b':') raw);
  quote = λ s. s;
}

abbrev outcome : StepState → StepOutcome
outcome s = record { status = s; message = "done"; supersede_plan = false }

-- A driver that completes every step, and one that fails.
abbrev completes : RedisCluster → Plan → ℕ → Executed
completes c p i = record {
  plan = p;
  topology = c.topology;
  conditions = c.conditions;
  outcome = outcome completed;
  error = none;
}

abbrev breaks : RedisCluster → Plan → ℕ → Executed
breaks c p i = record {
  plan = p;
  topology = c.topology;
  conditions = c.conditions;
  outcome = outcome completed;
  error = some "broken";
}

abbrev put_condition : List Condition → Condition → List Condition
put_condition conditions c = c ∷ []

abbrev step : String → ActionType → StepState → String → StepStatus
step id action status raw = record {
  id = id;
  action = action;
  status = status;
  message = "";
  params = raw;
  last_transition_time = 0;
}

abbrev active : PlanStatus
active = record {
  id = "p";
  status = plan_running;
  target_generation = 2;
  summary = "";
  current_step = "w";
  steps =
      step "e" ensure_node completed "pod:redis-0"
      ∷ step "w" wait_node_ready pending "pod:redis-0"
      ∷ [];
}

abbrev cluster : ℕ → RedisCluster
cluster generation = record {
  name = "c";
  generation = generation;
  shards = 1;
  replicas_per_shard = 0;
  image = "redis";
  memory_size = "1Gi";
  conditions = [];
  observed_generation = 0;
  active_plan = some active;
  topology = none;
  topology_observed_at = 0;
  observed_nodes = [];
  next_pod_ordinal = 1;
}

runs : plan_state active ≡ plan_running
unfolding plan_state
runs = refl

next : next_pending_step active ≡ some 1
unfolding next_pending
next = refl

execute_next_step-ChangesOnly_example :
    IsNext active.steps 1
    × ChangesOnly 1 active.steps (
        steps_of
          (execute_next_step json completes put_condition 5 (cluster 2) active).0.active_plan)
execute_next_step-ChangesOnly_example =
    execute_next_step-ChangesOnly json completes put_condition 5 (cluster 2) active 1 next

abbrev plan_or : Plan → Result String Plan → Plan
plan_or p (ok q) = q
plan_or p (err e) = p

abbrev pod_step : String → ActionType → Step
pod_step id action = record {
  id = id;
  action = action;
  params = some (("pod", str "redis-0") ∷ []);
}

abbrev model : Plan
model = record {
  dsl_version = dsl_version;
  plan_id = "p";
  target_generation = 2;
  summary = "";
  steps = pod_step "e" ensure_node ∷ pod_step "w" wait_node_ready ∷ [];
}

goes_well : Completes json completes put_condition 5 (cluster 2) active 1
unfolding status_to_plan cut_at persist_step_params plan_to_status
goes_well = record {
  model = model;
  restores = refl;
  succeeds = refl;
  goes_on = refl;
  done' = refl;
  kept = active;
  persists = refl;
}

execute_next_step-counts_example :
    count_done
      (steps_of (execute_next_step json completes put_condition 5 (cluster 2) active).0.active_plan)
    ≡ suc (count_done active.steps)
execute_next_step-counts_example =
    execute_next_step-counts json completes put_condition 5 (cluster 2) active 1 next goes_well

handle_active_plan-same_example :
    handle_active_plan json completes put_condition 5 (cluster 3)
    ≡ handle_active_plan json breaks put_condition 5 (cluster 3)
handle_active_plan-same_example =
    handle_active_plan-same json completes breaks put_condition 5 (cluster 3) active refl
      (inl (λ e. omega arith))

ensures : step_ordinal (pod_step "e" ensure_node) ensure_node ≡ some 0
unfolding controller_pod_ordinal param_string param lookup cut_prefix atoi
ensures = refl

advance-above_example :
    (0 ≤ advance_from_steps 0 model.steps) × (0 < advance_from_steps 0 model.steps)
advance-above_example =
    advance-above 0 model.steps (pod_step "e" ensure_node) 0 (inl refl) ensures (omega arith)

stored :
    plan_to_status json model
    ≡ ok (record active {
      current_step = "e";
      steps =
          step "e" ensure_node pending "pod:redis-0"
          ∷ step "w" wait_node_ready pending "pod:redis-0"
          ∷ [];
    })
unfolding plan_to_status
stored = refl

reads : ReadsBack json (some (("pod", str "redis-0") ∷ []))
unfolding cut_at
reads raw e =
    let same : "pod:redis-0" ≡ raw = cc in
    subst
      (λ r.
        (is_blank r ≡ false)
        × (n : Option (Map String Value)) × (json.unmarshal r ≡ ok n)
        × SameParams (some (("pod", str "redis-0") ∷ [])) n)
      same
      (
        refl,
        some (("pod", str "redis-0") ∷ []),
        refl,
        record { strings = λ key. refl; ints = λ key. refl; bools = λ key. refl },
      )

plan_to_status-IsStored_example : IsStored json model (record active {
  current_step = "e";
  steps =
      step "e" ensure_node pending "pod:redis-0"
      ∷ step "w" wait_node_ready pending "pod:redis-0"
      ∷ [];
})
plan_to_status-IsStored_example =
    plan_to_status-IsStored json model _ refl (reads, (reads, tt)) stored
