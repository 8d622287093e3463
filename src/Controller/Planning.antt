-- ===== src/Controller/Planning.antt =====
-- internal/controller/planning.go: one reconcile of a cluster without an active plan. The driver, the
-- planner, the validator and the library's conditions are parameters; `finish` is left to the caller, as
-- with the execution, and the event of a rejected plan is left out.
use llm_k8s_redis.Prelude.{
  ℕ, ◌-◌, String, List, [], ◌∷◌, Option, some, none, Bool, true, false, not, ◌&&◌, ◌||◌, leb, ◌==◌,
  string_keys, if◌then◌else◌, Result, ok, err, is_blank, is_empty, str_lt, sort_by, find,
}
use llm_k8s_redis.Plan.{Plan, ClusterSpec, ObservedNode}
use llm_k8s_redis.Api.{Condition, RedisCluster}
use llm_k8s_redis.Planner.Builders.{Request}
use llm_k8s_redis.Planner.Go.{Planned}
use llm_k8s_redis.Controller.Status.{Codec, PlanStatus, plan_to_status}
use llm_k8s_redis.Controller.Ordinal.{advance_from_steps, bump_from_observed}
use llm_k8s_redis.Controller.Execution.{Requeue, idle, after_ten_seconds, set_condition}
use llm_k8s_redis.Controller.Matching.{observed_nodes_match_spec, planning_instability_reason}

abbrev pub waiting_reason : String
waiting_reason = "WaitingForClusterStable"

abbrev is_waiting : Condition → Bool
is_waiting cond = cond.kind == "Planned" && cond.reason == waiting_reason

unfoldable pub cluster_stable_wait_started : List Condition → Bool
cluster_stable_wait_started conditions = elim (find is_waiting conditions) [
  | none ↦ false
  | some cond ↦ true
]

-- verifyStableTimeout in seconds
abbrev pub verify_stable_timeout : ℕ
verify_stable_timeout = 120

unfoldable pub cluster_stable_wait_timed_out : ℕ → List Condition → Bool
cluster_stable_wait_timed_out now conditions = elim (find is_waiting conditions) [
  | none ↦ false
  | some cond ↦ leb verify_stable_timeout (now - cond.last_transition_time)
]

abbrev string_lists_equal : List String → List String → Bool
string_lists_equal [] [] = true
string_lists_equal (s ∷ a) (t ∷ b) = s == t && string_lists_equal a b
string_lists_equal _ _ = false

abbrev bools_equal : Bool → Bool → Bool
bools_equal a b = if a then b else not b

-- reflect.DeepEqual of two nodes with sorted flags.
unfoldable pub node_equal : ObservedNode → ObservedNode → Bool
node_equal a b =
    a.pod == b.pod
    && bools_equal a.pod_exists b.pod_exists
    && a.image == b.image
    && bools_equal a.redis_seen b.redis_seen
    && a.node_id == b.node_id
    && a.role == b.role
    && a.slots == b.slots
    && a.master_id == b.master_id
    && a.master_pod == b.master_pod
    && bools_equal a.ready b.ready
    && bools_equal a.deleting b.deleting
    && string_lists_equal a.flags b.flags
    && a.link_state == b.link_state

unfoldable pub nodes_equal : List ObservedNode → List ObservedNode → Bool
unfolding node_equal
nodes_equal [] [] = true
nodes_equal (a ∷ rest) (b ∷ others) = node_equal a b && nodes_equal rest others
nodes_equal [] (b ∷ others) = false
nodes_equal (a ∷ rest) [] = false

abbrev status_less : ObservedNode → ObservedNode → Bool
status_less a b =
    if not (a.pod == b.pod)
    then str_lt a.pod b.pod
    else if not (a.node_id == b.node_id)
    then str_lt a.node_id b.node_id
    else if not (a.role == b.role)
    then str_lt a.role b.role
    else str_lt a.master_id b.master_id

abbrev sort_flags : List ObservedNode → List ObservedNode
sort_flags [] = []
sort_flags (n ∷ nodes) = record n { flags = sort_by str_lt n.flags } ∷ sort_flags nodes

unfoldable pub normalized_observed_status_nodes : List ObservedNode → List ObservedNode
normalized_observed_status_nodes nodes = sort_by status_less (sort_flags nodes)

-- A slice: none is nil, which DeepEqual tells from one without elements.
unfoldable pub observed_status_nodes_equal :
    Option (List ObservedNode) → Option (List ObservedNode) → Bool
unfolding nodes_equal
observed_status_nodes_equal none none = true
observed_status_nodes_equal (some a) (some b) =
    nodes_equal (normalized_observed_status_nodes a) (normalized_observed_status_nodes b)
observed_status_nodes_equal none (some b) = false
observed_status_nodes_equal (some a) none = false

-- The nodes of a status that was read from the API, which leaves out an empty list.
abbrev from_api : List ObservedNode → Option (List ObservedNode)
from_api [] = none
from_api (n ∷ nodes) = some (n ∷ nodes)

abbrev if_stable : Bool → String → String
if_stable stable reason =
    if not stable && is_blank reason
    then "waiting for stable observed nodes before planning"
    else reason

-- planningWaitReason, of the conditions, the nodes before and those that are observed.
unfoldable pub planning_wait_reason :
    List Condition → List ObservedNode → List ObservedNode → ClusterSpec → String
planning_wait_reason conditions previous nodes spec =
    if_stable
      (observed_status_nodes_equal (from_api previous) (some nodes)
        || is_empty previous && is_empty nodes && cluster_stable_wait_started conditions)
      (planning_instability_reason nodes spec)

abbrev observed_now : RedisCluster → RedisCluster
observed_now c = record c { observed_generation = c.generation }

abbrev pub find_kind : String → List Condition → Option Condition
find_kind kind conditions = find (λ cond. cond.kind == kind) conditions

abbrev pub retime : ℕ → String → List Condition → List Condition
retime now kind [] = []
retime now kind (cond ∷ conditions) =
    if cond.kind == kind
    then record cond { last_transition_time = now } ∷ conditions
    else cond ∷ retime now kind conditions

abbrev pub other_reason : Option Condition → Bool
other_reason none = false
other_reason (some cond) = not (cond.reason == waiting_reason)

-- What the controller keeps of the observed nodes; `apiObservedNodes` copies each field.
abbrev pub observed : RedisCluster → List ObservedNode → RedisCluster
observed c nodes = record c {
  observed_nodes = nodes;
  next_pod_ordinal = bump_from_observed c.next_pod_ordinal nodes;
}

abbrev pub retimed : ℕ → Bool → RedisCluster → RedisCluster
retimed now old c = record c {
  conditions = if old then retime now "Planned" c.conditions else c.conditions;
}

-- The condition that a pointer to the old Planned condition reads at the end: FindStatusCondition points
-- into the slice and SetStatusCondition writes there, unless appending the Ready condition has moved the
-- slice to another array.
abbrev pub pointed :
    Bool → Option Condition → Option Condition → Option Condition → Option Condition
pointed moved none ready after = none
pointed moved (some planned) (some ready) after = after
pointed moved (some planned) none after = if moved then some planned else after

abbrev pub old_planned : Bool → RedisCluster → RedisCluster → Option Condition
old_planned moved before after =
    pointed moved (find_kind "Planned" before.conditions) (find_kind "Ready" before.conditions)
      (find_kind "Planned" after.conditions)

module _ (set_status_condition : List Condition → Condition → List Condition) where
  -- markWaitingForStableCluster. `moved` is whether an append moves the conditions, as the runtime
  -- decides.
  unfoldable pub mark_waiting_for_stable_cluster : ℕ → Bool → RedisCluster → String → RedisCluster
  mark_waiting_for_stable_cluster now moved c reason =
      let marked =
        set_condition set_status_condition
          (set_condition set_status_condition c "Ready" false waiting_reason reason) "Planned" false
          waiting_reason reason in
      observed_now (retimed now (other_reason (old_planned moved c marked)) marked)

  unfoldable pub mark_no_plan_needed : RedisCluster → String → RedisCluster
  mark_no_plan_needed c msg =
      set_condition set_status_condition
        (set_condition set_status_condition (observed_now c) "Planned" false "NoPlanNeeded" msg)
        "Ready" true "ClusterReady" "cluster matches desired topology"

  abbrev pub unplanned : RedisCluster → String → String → RedisCluster × Requeue
  unplanned c reason msg = (
    observed_now (set_condition set_status_condition c "Planned" false reason msg),
    after_ten_seconds,
  )

  abbrev pub persisted : RedisCluster → Result String PlanStatus → RedisCluster × Requeue
  persisted c (err e) = unplanned (record c { active_plan = none }) "PlanPersistFailed" e
  persisted c (ok ps) = (
    set_condition set_status_condition (observed_now (record c { active_plan = some ps })) "Planned"
        true "PlanAccepted" "plan passed validation",
    idle,
  )

module _ (json : Codec) (set_status_condition : List Condition → Condition → List Condition)
    (validate_plan : ClusterSpec → List ObservedNode → Plan → Option String)
    (planner : Request → Planned String) (now : ℕ) (moved : Bool) where
  abbrev pub validated : RedisCluster → Plan → Option String → RedisCluster × Requeue
  validated c p (some e) = unplanned set_status_condition c "PlanRejected" e
  validated c p none =
      persisted set_status_condition
        (record c { next_pod_ordinal = advance_from_steps c.next_pod_ordinal p.steps })
        (plan_to_status json p)

  abbrev pub planned :
      RedisCluster → ClusterSpec → List ObservedNode → Planned String → RedisCluster × Requeue
  planned c spec nodes (p, some e) = unplanned set_status_condition c "PlannerFailed" e
  planned c spec nodes (none, none) = (
    set_condition set_status_condition c "Planned" false "PlannerEmpty" "planner returned no plan",
    after_ten_seconds,
  )
  planned c spec nodes (some p, none) = validated c p (validate_plan spec nodes p)

  abbrev pub ask_planner : RedisCluster → ClusterSpec → List ObservedNode → RedisCluster × Requeue
  ask_planner c spec nodes =
      planned c spec nodes
        (planner (record { spec = spec; nodes = nodes; next_pod_ordinal = c.next_pod_ordinal }))

  abbrev pub wait_or_plan :
      RedisCluster → ClusterSpec → List ObservedNode → String → RedisCluster × Requeue
  wait_or_plan c spec nodes reason =
      if not (is_blank reason) && not (cluster_stable_wait_timed_out now c.conditions)
      then (
        mark_waiting_for_stable_cluster set_status_condition now moved c reason,
        after_ten_seconds,
      )
      else ask_planner c spec nodes

  abbrev pub with_nodes :
      RedisCluster → ClusterSpec → List ObservedNode → RedisCluster → RedisCluster × Requeue
  with_nodes before spec nodes c =
      if observed_nodes_match_spec nodes spec
      then (
        mark_no_plan_needed set_status_condition (record c { active_plan = none })
            "live topology already matches spec",
        idle,
      )
      else wait_or_plan c spec nodes
          (planning_wait_reason c.conditions before.observed_nodes nodes spec)

  -- reconcilePlan, of what the driver's CollectObservedNodes returns.
  unfoldable pub reconcile_plan :
      RedisCluster → ClusterSpec → Result String (List ObservedNode) → RedisCluster × Requeue
  unfolding mark_waiting_for_stable_cluster mark_no_plan_needed planning_wait_reason
  reconcile_plan c spec (err e) = unplanned set_status_condition c "ObservedNodesFailed" e
  reconcile_plan c spec (ok nodes) = with_nodes c spec nodes (observed c nodes)
