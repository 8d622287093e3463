-- ===== src/Controller/Execution.antt =====
-- internal/controller/plan_execution.go: one reconcile of the active plan. The client, the clock, the
-- driver and the library's conditions are parameters; `finish` is left to the caller, so a handler
-- returns the cluster whose status it hands to the client, and the result it asks for.
use llm_k8s_redis.Prelude.{
  ℕ, String, List, Map, Option, some, none, Bool, true, false, if◌then◌else◌, Result, ok, err,
  ◌>>=◌, get_elem?, set, nat_eq, not,
}
use llm_k8s_redis.Plan.{Value, Step, Plan}
use llm_k8s_redis.Api.{ClusterTopology, Condition, RedisCluster}
use llm_k8s_redis.Controller.Status.{
  StepState, running, completed, failed, PlanState, plan_running, plan_completed, plan_failed,
  plan_superseded, StepStatus, PlanStatus, is_failed, set_step, next_pending_step, plan_state,
  failed_message, Codec, plan_to_status, status_to_plan,
}

-- ctrl.Result: nothing, a requeue, or one after a time.
pub data Requeue : Type 0 where
  idle requeue after_second after_ten_seconds : Requeue

pub record StepOutcome : Type 0 where
  pub status : StepState
  pub message : String
  pub supersede_plan : Bool

-- What `ExecuteStep` leaves: the plan, whose parameters it may write, what it may write in the status, an
-- outcome and an error or nil.
pub record Executed : Type 0 where
  pub plan : Plan
  pub topology : Option ClusterTopology
  pub conditions : List Condition
  pub outcome : StepOutcome
  pub error : Option String

abbrev pub with_plan : RedisCluster → PlanStatus → RedisCluster
with_plan c ps = record c { active_plan = some ps }

-- The cluster as `ExecuteStep` leaves it.
abbrev pub left_by : RedisCluster → Executed → RedisCluster
left_by c x = record c { topology = x.topology; conditions = x.conditions }

abbrev pub without_plan : RedisCluster → RedisCluster
without_plan c = record c { active_plan = none }

abbrev pub id_at : List StepStatus → Option ℕ → String
id_at steps none = ""
id_at steps (some idx) = elim (get_elem? steps idx) [ none ↦ "" | some s ↦ s.id ]

unfoldable pub set_current_step : PlanStatus → PlanStatus
set_current_step ps = record ps { current_step = id_at ps.steps (next_pending_step ps) }

abbrev pub with_params :
    List StepStatus → ℕ → Option StepStatus → Option StepStatus → List StepStatus
with_params steps idx (some s) (some t) = set steps idx (record s { params = t.params })
with_params steps idx _ _ = steps

abbrev pub keep_params : PlanStatus → ℕ → PlanStatus → PlanStatus
keep_params active idx converted = record active {
  steps = with_params active.steps idx (get_elem? active.steps idx) (get_elem? converted.steps idx);
}

abbrev pub params_of : Option Step → Option (Map String Value)
params_of none = none
params_of (some s) = s.params

abbrev message_at : List StepStatus → ℕ → String
message_at steps idx = elim (get_elem? steps idx) [ none ↦ "" | some s ↦ s.message ]

abbrev pub finished : PlanStatus → Option ℕ → PlanStatus
finished ps none = record ps { status = plan_completed }
finished ps (some i) = ps

-- The switch on the status of an outcome that has not failed.
abbrev pub after_outcome : RedisCluster → StepState → PlanStatus → RedisCluster × Requeue
after_outcome c completed ps = (with_plan c (finished ps (next_pending_step ps)), requeue)
after_outcome c _ ps = (with_plan c ps, after_second)

abbrev pub has_no_error : Option String → Bool
has_no_error none = true
has_no_error (some e) = false

abbrev pub stale : String
stale = "active plan targets an older generation"

abbrev settle : ℕ → PlanStatus → ℕ → StepOutcome → Result String PlanStatus → Bool × PlanStatus
settle now active idx outcome (err e) = (true, set_step now active idx failed e)
settle now active idx outcome (ok kept) =
    (is_failed outcome.status, set_step now kept idx outcome.status outcome.message)

module _ (json : Codec) where
  abbrev pub persist : PlanStatus → Plan → ℕ → Option (Map String Value) → Result String PlanStatus
  persist active model idx none = ok active
  persist active model idx (some m) = do
    converted ← plan_to_status json model
    ok (keep_params active idx converted)

  -- persistStepParams: the plan with the step's parameters written back.
  unfoldable pub persist_step_params : PlanStatus → Plan → ℕ → Result String PlanStatus
  persist_step_params active model idx =
      persist active model idx (params_of (get_elem? model.steps idx))

  -- applyStepOutcome: whether the step failed, and the plan.
  unfoldable pub apply_step_outcome :
      ℕ → PlanStatus → Plan → ℕ → StepOutcome → Option String → Bool × PlanStatus
  apply_step_outcome now active model idx outcome (some e) =
      (true, set_step now active idx failed e)
  apply_step_outcome now active model idx outcome none =
      settle now active idx outcome (persist_step_params active model idx)

module _ (set_status_condition : List Condition → Condition → List Condition) where
  -- setCondition of internal/controller/status_helpers.go
  abbrev pub set_condition : RedisCluster → String → Bool → String → String → RedisCluster
  set_condition c kind status reason msg = record c {
    conditions = set_status_condition c.conditions (record {
      kind = kind;
      status = status;
      reason = reason;
      message = msg;
      observed_generation = c.generation;
      last_transition_time = 0;
    });
  }

module _ (json : Codec) (driver : RedisCluster → Plan → ℕ → Executed)
    (set_status_condition : List Condition → Condition → List Condition) (now : ℕ) where
  abbrev supersede :
      RedisCluster
      → PlanStatus
      → ℕ
      → String
      → String
      → Result String PlanStatus
      → RedisCluster × Requeue
  supersede c active idx step_id msg (err e) = (
    set_condition set_status_condition
        (with_plan c (record (set_step now active idx failed e) { status = plan_failed })) "Ready"
        false "StepFailed" e,
    idle,
  )
  supersede c active idx step_id msg (ok kept) =
      let ps : PlanStatus = record (set_step now kept idx running msg) {
        current_step = step_id;
        status = plan_superseded;
      } in
      (
        set_condition set_status_condition
            (set_condition set_status_condition (with_plan c ps) "Ready" false "Replanning" msg)
            "Planned" false "PlanSuperseded" msg,
        requeue,
      )

  unfoldable pub supersede_active_plan :
      RedisCluster → PlanStatus → Plan → ℕ → String → String → RedisCluster × Requeue
  supersede_active_plan c active model idx step_id msg =
      supersede c active idx step_id msg (persist_step_params json active model idx)

  abbrev pub outcome_result :
      RedisCluster → ℕ → StepState → Bool × PlanStatus → RedisCluster × Requeue
  outcome_result c idx status (broken, ps) =
      let cur = set_current_step ps in
      if broken
      then (
        set_condition set_status_condition (with_plan c (record cur { status = plan_failed }))
            "Ready" false "StepFailed" (message_at cur.steps idx),
        idle,
      )
      else after_outcome c status cur

  abbrev pub executed : RedisCluster → PlanStatus → ℕ → Executed → RedisCluster × Requeue
  executed c active idx x =
      if (if has_no_error x.error then x.outcome.supersede_plan else false)
      then supersede_active_plan c active x.plan idx (id_at active.steps (some idx))
          x.outcome.message
      else outcome_result c idx x.outcome.status
          (apply_step_outcome json now active x.plan idx x.outcome x.error)

  abbrev pub restored : RedisCluster → PlanStatus → ℕ → Result String Plan → RedisCluster × Requeue
  restored c active idx (err e) = (
    set_condition set_status_condition
        (with_plan c (set_current_step (set_step now active idx failed e))) "Ready" false
        "PlanRestoreFailed" e,
    idle,
  )
  restored c active idx (ok model) =
      let x = driver c model idx in executed (left_by c x) active idx x

  abbrev pub execute_at : RedisCluster → PlanStatus → Option ℕ → RedisCluster × Requeue
  execute_at c active none = (with_plan c (record active { status = plan_completed }), requeue)
  execute_at c active (some idx) = restored c active idx (status_to_plan json active)

  unfoldable pub execute_next_step : RedisCluster → PlanStatus → RedisCluster × Requeue
  execute_next_step c active = execute_at c active (next_pending_step active)

  -- The switch on the state of a plan of the current generation.
  unfoldable pub handle_state : RedisCluster → PlanStatus → PlanState → RedisCluster × Requeue
  unfolding execute_next_step
  handle_state c active plan_running = execute_next_step c active
  handle_state c active plan_completed = (
    set_condition set_status_condition (without_plan c) "Planned" true "PlanCompleted"
        "active plan completed",
    requeue,
  )
  handle_state c active plan_failed = (
    set_condition set_status_condition (with_plan c (record active { status = plan_failed }))
        "Ready" false "PlanFailed" (failed_message active.steps),
    idle,
  )
  handle_state c active plan_superseded = (without_plan c, requeue)
  handle_state c active _ = (c, idle)

  abbrev pub handle_plan : RedisCluster → PlanStatus → RedisCluster × Requeue
  handle_plan c active =
      if not (nat_eq active.target_generation c.generation)
      then (
        set_condition set_status_condition
            (set_condition set_status_condition (without_plan c) "Ready" false "Replanning" stale)
            "Planned" false "PlanSuperseded" stale,
        requeue,
      )
      else handle_state c active (plan_state active)

  abbrev pub handle : RedisCluster → Option PlanStatus → Option (RedisCluster × Requeue)
  handle c none = none
  handle c (some active) = some (handle_plan c active)

  -- handleActivePlan; none if there is no active plan (`handled` is false).
  unfoldable pub handle_active_plan : RedisCluster → Option (RedisCluster × Requeue)
  handle_active_plan c = handle c c.active_plan
