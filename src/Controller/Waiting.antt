-- ===== src/Controller/Waiting.antt =====
-- internal/controller/planning.go: what `markWaitingForStableCluster` does to the time that the wait is
-- measured from, and one whole reconcile.
use llm_k8s_redis.Prelude.{
  ℕ, String, List, Option, some, none, Bool, true, false, ◌==◌, string_keys, if◌then◌else◌, ◌≡◌,
  refl, ap, ◌∙◌, arith, Result, str_eq_iff,
}
use llm_k8s_redis.Plan.{Plan, ClusterSpec, ObservedNode}
use llm_k8s_redis.Api.{Condition, RedisCluster, to_cluster_spec}
use llm_k8s_redis.Planner.Builders.{Request}
use llm_k8s_redis.Planner.Go.{Planned}
use llm_k8s_redis.Controller.Status.{Codec, PlanStatus}
use llm_k8s_redis.Controller.Execution.{Requeue, idle, Executed, set_condition, handle_active_plan}
use llm_k8s_redis.Controller.Reserved.{bump_next_pod_ordinal}
use llm_k8s_redis.Controller.Planning.{
  waiting_reason, find_kind, retime, pointed, old_planned, other_reason,
  mark_waiting_for_stable_cluster, reconcile_plan,
}

-- SetStatusCondition leaves a condition of the new one's kind with the new reason.
abbrev pub SetsReason : (List Condition → Condition → List Condition) → Type 0
SetsReason set =
    (conditions : List Condition) (new : Condition)
    → (cond : Condition) × ((find_kind new.kind (set conditions new) ≡ some cond)
        × (cond.reason ≡ new.reason))

other_reason_none :
    (o : Option Condition) {cond : Condition}
    → o ≡ some cond
    → cond.reason ≡ waiting_reason
    → other_reason o ≡ false
other_reason_none none h e = cc h
other_reason_none (some old) {cond} h e =
    let old≡cond : old ≡ cond = cc in
    let same : (old.reason == waiting_reason) ≡ true =
      (str_eq_iff _ _).1 (ap (λ (x : Condition). x.reason) old≡cond ∙ e) in
    ground (arith, same)

other_reason-pointed :
    (moved : Bool) (o : Option Condition) (ready : Condition) (after : Option Condition)
    → other_reason after ≡ false
    → other_reason (pointed moved o (some ready) after) ≡ false
other_reason-pointed moved none ready after h = refl
other_reason-pointed moved (some cond) ready after h = h

-- If the cluster has a Ready condition already, `markWaitingForStableCluster` leaves the times of the
-- conditions as the two calls of SetStatusCondition leave them: the test on the old Planned condition
-- reads the reason that has just been written, so the start of the wait is never written.
pub mark_waiting_for_stable_cluster-time :
    (set : List Condition → Condition → List Condition) (now : ℕ) (moved : Bool) (c : RedisCluster)
    (reason : String) (ready : Condition)
    → SetsReason set
    → find_kind "Ready" c.conditions ≡ some ready
    → (mark_waiting_for_stable_cluster set now moved c reason).conditions
      ≡ (set_condition set
          (set_condition set c "Ready" false waiting_reason reason)
          "Planned"
          false
          waiting_reason
          reason).conditions
unfolding mark_waiting_for_stable_cluster
mark_waiting_for_stable_cluster-time set now moved c reason ready sets has_ready =
    let marked =
      set_condition set (set_condition set c "Ready" false waiting_reason reason) "Planned" false
        waiting_reason reason in
    let (cond, (e, r)) = sets _ _ in
    let planned = find_kind "Planned" c.conditions in
    let after = find_kind "Planned" marked.conditions in
    let reads = other_reason-pointed moved planned ready after (other_reason_none after e r) in
    let kept : other_reason (old_planned moved c marked) ≡ false =
      ap (λ x. other_reason (pointed moved planned x after)) has_ready ∙ reads in
    ap (λ b. if b then retime now "Planned" marked.conditions else marked.conditions) kept

-- What follows `toClusterSpec` in Reconcile.
module _ (json : Codec) (driver : RedisCluster → Plan → ℕ → Executed)
    (set : List Condition → Condition → List Condition)
    (validate_plan : ClusterSpec → List ObservedNode → Plan → Option String)
    (planner : Request → Planned String) (now : ℕ) (moved : Bool) where
  abbrev unhandled :
      RedisCluster
      → (RedisCluster → Result String (List ObservedNode))
      → Option PlanStatus
      → RedisCluster × Requeue
  unhandled c collect none =
      reconcile_plan json set validate_plan planner now moved c (to_cluster_spec c) (collect c)
  unhandled c collect (some active) = (c, idle)

  abbrev or_unhandled :
      RedisCluster
      → (RedisCluster → Result String (List ObservedNode))
      → Option (RedisCluster × Requeue)
      → RedisCluster × Requeue
  or_unhandled c collect none = unhandled c collect c.active_plan
  or_unhandled c collect (some handled) = handled

  -- The status and the result of Reconcile for a cluster whose namespace and finalizer are in place.
  unfoldable pub reconcile :
      RedisCluster → (RedisCluster → Result String (List ObservedNode)) → RedisCluster × Requeue
  reconcile c collect =
      let bumped = bump_next_pod_ordinal json c in
      or_unhandled bumped collect (handle_active_plan json driver set now bumped)
