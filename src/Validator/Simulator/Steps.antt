-- ===== src/Validator/Simulator/Steps.antt =====
-- internal/validator/simulator.go: what each action does to the simulated state.
use llm_k8s_redis.Prelude.{
  ℕ, zero, suc, ◌+◌, String, List, [], ◌∷◌, Option, some, none, Bool, true, false, not, ◌&&◌, ◌||◌,
  ◌==◌, string_keys, nat_keys, if◌then◌else◌, ok, err, ◌>>=◌, ◌>>◌, guard, lookup, erase, is_blank,
  is_empty, nat_eq,
}
use llm_k8s_redis.Plan.{
  ActionType, ensure_node, wait_node_ready, meet_node, replicate_node, add_slots, migrate_slots,
  forget_node, delete_node, unknown, Step, Plan, ClusterSpec, ObservedNode, param_string, or_blank,
}
use llm_k8s_redis.Plan
use llm_k8s_redis.Cluster.Slots.{SlotSet}
use llm_k8s_redis.Prelude.{keys}
use llm_k8s_redis.Validator.Errors.{
  ValidationError, requires, wrong_image, not_declared, same_pod, not_ready, not_a_member,
  not_a_master, no_replica, owns_slots, unknown_member, unknown_pod, still_a_member, slot_taken,
  slot_unowned, slot_elsewhere, not_whitelisted,
}
use llm_k8s_redis.Validator.Schema.{Checked, Params, pass, slots_set, wrap, is_plan_valid}
use llm_k8s_redis.Validator.Simulator.State.{
  SimulatedNode, PlanSimulator, ensure_node_key, update_node, give_slot, new_plan_simulator,
}
use llm_k8s_redis.Validator.Simulator.Checks.{replica_count, check_invariants, verify_cluster}

abbrev pub nonempty_or : ValidationError → Option String → Checked String
nonempty_or e none = err e
nonempty_or e (some s) = if is_blank s then err e else ok s

-- reqP
unfoldable pub req_p : Params → String → String → Checked String
req_p params key action = nonempty_or (requires action key) (param_string params key)

unfoldable pub req_slots : Params → String → Checked SlotSet
unfolding req_p
req_slots params action = req_p params "slots" action >>= slots_set

-- n == nil || !n.ready || !n.clusterMember
abbrev pub ready_member : Option SimulatedNode → Bool
ready_member none = false
ready_member (some n) = n.ready && n.cluster_member

abbrev pub is_ready : Option SimulatedNode → Bool
is_ready none = false
is_ready (some n) = n.ready

abbrev pub role_of : Option SimulatedNode → String
role_of none = ""
role_of (some n) = n.role

abbrev pub is_master : Option SimulatedNode → Bool
is_master n = role_of n == "master"

unfoldable pub ready_master : PlanSimulator → String → Checked (Unit {0})
ready_master s pod = do
  guard (ready_member (lookup pod s.nodes)) (not_a_member pod)
  guard (is_master (lookup pod s.nodes)) (not_a_master pod)

abbrev pub declare : String → SimulatedNode → SimulatedNode
declare image n = record n { image = if n.exists then n.image else image; exists = true }

unfoldable pub ensure_node_step : Step → PlanSimulator → Checked PlanSimulator
unfolding req_p ensure_node_key update_node
ensure_node_step step s = do
  pod ← req_p step.params "pod" "EnsureNode"
  image ← req_p step.params "image" "EnsureNode"
  guard (image == s.spec.image) (wrong_image image)
  ok (update_node pod (declare image) (ensure_node_key pod s))

abbrev pub node_exists : Option SimulatedNode → Bool
node_exists none = false
node_exists (some n) = n.exists

abbrev pub make_ready : SimulatedNode → SimulatedNode
make_ready n = record n { ready = true }

unfoldable pub wait_step : Step → PlanSimulator → Checked PlanSimulator
unfolding req_p update_node
wait_step step s = do
  pod ← req_p step.params "pod" "WaitNodeReady"
  guard (node_exists (lookup pod s.nodes)) (not_declared pod)
  ok (update_node pod make_ready s)

abbrev pub join : SimulatedNode → SimulatedNode
join n = record n { cluster_member = true; role = if is_blank n.role then "master" else n.role }

unfoldable pub meet_step : Step → PlanSimulator → Checked PlanSimulator
unfolding req_p update_node
meet_step step s = do
  source ← req_p step.params "sourcePod" "MeetNode"
  target ← req_p step.params "targetPod" "MeetNode"
  guard (not (source == target)) (same_pod source)
  guard (is_ready (lookup source s.nodes)) (not_ready source)
  guard (is_ready (lookup target s.nodes)) (not_ready target)
  ok (update_node target join (update_node source join s))

abbrev pub slots_of : Option SimulatedNode → SlotSet
slots_of none = []
slots_of (some n) = n.slots

abbrev pub make_master : SimulatedNode → SimulatedNode
make_master n = record n { role = "master" }

abbrev pub make_replica : String → SimulatedNode → SimulatedNode
make_replica master n = record n { role = "replica"; replica_of = master }

-- The two pods may be one: the replica is read after the write to the master.
unfoldable pub replicate_step : Step → PlanSimulator → Checked PlanSimulator
unfolding req_p update_node
replicate_step step s = do
  master ← req_p step.params "masterPod" "ReplicateNode"
  replica ← req_p step.params "replicaPod" "ReplicateNode"
  guard (ready_member (lookup master s.nodes)) (not_a_member master)
  guard (is_blank (role_of (lookup master s.nodes)) || is_master (lookup master s.nodes))
      (not_a_master master)
  let t = update_node master make_master s
  guard (ready_member (lookup replica t.nodes)) (not_a_member replica)
  guard (is_empty (slots_of (lookup replica t.nodes))) (owns_slots replica)
  ok (update_node replica (make_replica master) t)

abbrev pub unowned : ℕ → Option String → Checked (Unit {0})
unowned slot none = pass
unowned slot (some owner) = err (slot_taken slot owner)

-- The loop of `addSlots`.
unfoldable pub assign : String → List ℕ → PlanSimulator → Checked PlanSimulator
unfolding give_slot
assign pod [] s = ok s
assign pod (slot ∷ slots) s = do
  unowned slot (lookup slot s.slot_owners)
  assign pod slots (give_slot pod slot s)

abbrev pub has_replica : PlanSimulator → String → Checked (Unit {0})
has_replica s pod = guard (not (nat_eq (replica_count s pod) 0)) (no_replica pod)

unfoldable pub add_slots_step : Step → PlanSimulator → Checked PlanSimulator
unfolding req_p ready_master replica_count req_slots assign
add_slots_step step s = do
  pod ← req_p step.params "pod" "AddSlots"
  ready_master s pod
  has_replica s pod
  slots ← req_slots step.params "AddSlots"
  assign pod (keys slots) s

abbrev pub without_slot : ℕ → SimulatedNode → SimulatedNode
without_slot slot n = record n { slots = erase slot n.slots }

-- delete(source.slots, slot), then as for a new slot of the target.
unfoldable pub move_slot : String → String → ℕ → PlanSimulator → PlanSimulator
unfolding update_node give_slot
move_slot source target slot s = give_slot target slot (update_node source (without_slot slot) s)

abbrev pub move_owned : String → String → ℕ → PlanSimulator → Option String → Checked PlanSimulator
move_owned source target slot s none = err (slot_unowned slot)
move_owned source target slot s (some owner) =
    if owner == source
    then ok (move_slot source target slot s)
    else if owner == target
    then ok s
    else err (slot_elsewhere slot owner)

-- The loop of `migrateSlots`.
unfoldable pub migrate : String → String → List ℕ → PlanSimulator → Checked PlanSimulator
unfolding move_slot
migrate source target [] s = ok s
migrate source target (slot ∷ slots) s = do
  t ← move_owned source target slot s (lookup slot s.slot_owners)
  migrate source target slots t

unfoldable pub migrate_slots_step : Step → PlanSimulator → Checked PlanSimulator
unfolding req_p ready_master replica_count req_slots migrate
migrate_slots_step step s = do
  source ← req_p step.params "sourcePod" "MigrateSlots"
  target ← req_p step.params "targetPod" "MigrateSlots"
  guard (not (source == target)) (same_pod source)
  ready_master s source
  ready_master s target
  has_replica s target
  slots ← req_slots step.params "MigrateSlots"
  migrate source target (keys slots) s

-- The first of the candidate keys that is not blank and has a node.
unfoldable pub first_known : List String → PlanSimulator → Option String
first_known [] s = none
first_known (c ∷ candidates) s =
    let rest = first_known candidates s in
    if is_blank c then rest else elim (lookup c s.nodes) [ none ↦ rest | some n ↦ some c ]

abbrev pub is_member : Option SimulatedNode → Bool
is_member none = false
is_member (some n) = n.cluster_member

abbrev pub forget : SimulatedNode → SimulatedNode
forget n = record n { cluster_member = false; forgotten = true }

abbrev pub forget_known : PlanSimulator → String → Option String → Checked PlanSimulator
forget_known s pod none = err (unknown_member pod)
forget_known s pod (some key) = do
  guard (is_member (lookup key s.nodes)) (unknown_member key)
  guard (is_empty (slots_of (lookup key s.nodes))) (owns_slots key)
  ok (update_node key forget s)

unfoldable pub forget_step : Step → PlanSimulator → Checked PlanSimulator
unfolding first_known update_node
forget_step step s =
    let pod = or_blank (param_string step.params "pod") in
    let id = or_blank (param_string step.params "lastKnownNodeId") in
    let by_id = or_blank (lookup id s.node_ids) in
    forget_known s pod (first_known (by_id ∷ id ∷ pod ∷ []) s)

abbrev pub is_forget : ActionType → Bool
is_forget forget_node = true
is_forget _ = false

-- Did one of the first `idx` steps forget the pod?
unfoldable pub forgotten_before : List Step → ℕ → String → Bool
forgotten_before [] idx pod = false
forgotten_before (t ∷ steps) zero pod = false
forgotten_before (t ∷ steps) (suc idx) pod =
    is_forget t.action && or_blank (param_string t.params "pod") == pod
    || forgotten_before steps idx pod

abbrev pub remove : SimulatedNode → SimulatedNode
remove n = record n { exists = false; ready = false }

abbrev pub delete_found :
    PlanSimulator → String → Bool → Option SimulatedNode → Checked PlanSimulator
delete_found s pod gone none = if gone then ok s else err (unknown_pod pod)
delete_found s pod gone (some n) = do
  guard (not n.cluster_member) (still_a_member pod)
  ok (update_node pod remove s)

unfoldable pub delete_step : Step → List Step → ℕ → PlanSimulator → Checked PlanSimulator
unfolding req_p forgotten_before update_node
delete_step step steps idx s = do
  pod ← req_p step.params "pod" "DeleteNode"
  delete_found s pod (forgotten_before steps idx pod) (lookup pod s.nodes)

-- `apply`: the case of the action.
unfoldable pub apply_action :
    ActionType → Step → List Step → ℕ → PlanSimulator → Checked PlanSimulator
unfolding ensure_node_step wait_step meet_step replicate_step add_slots_step migrate_slots_step
    forget_step delete_step verify_cluster
apply_action ensure_node step steps idx s = ensure_node_step step s
apply_action wait_node_ready step steps idx s = wait_step step s
apply_action meet_node step steps idx s = meet_step step s
apply_action replicate_node step steps idx s = replicate_step step s
apply_action add_slots step steps idx s = add_slots_step step s
apply_action migrate_slots step steps idx s = migrate_slots_step step s
apply_action forget_node step steps idx s = forget_step step s
apply_action delete_node step steps idx s = delete_step step steps idx s
apply_action Plan.verify_cluster step steps idx s = verify_cluster step s >> ok s
apply_action (unknown a) step steps idx s = err (not_whitelisted a)

unfoldable pub apply : Step → List Step → ℕ → PlanSimulator → Checked PlanSimulator
unfolding apply_action
apply step steps idx s = apply_action step.action step steps idx s

-- The loop of `simulatePlan` over the steps that are left, from the index `idx` on; `steps` is the
-- whole plan. The last state is returned, which the source keeps to itself.
unfoldable pub simulate_from : List Step → List Step → ℕ → PlanSimulator → Checked PlanSimulator
simulate_from [] steps idx s = ok s
simulate_from (step ∷ left) steps idx s = do
  t ← wrap step.id (apply step steps idx s)
  wrap step.id (check_invariants t)
  simulate_from left steps (idx + 1) t

unfoldable pub simulate_plan : ClusterSpec → List ObservedNode → Plan → Checked PlanSimulator
unfolding new_plan_simulator simulate_from
simulate_plan spec nodes p = simulate_from p.steps p.steps 0 (new_plan_simulator spec nodes)

-- Validate; a nil plan is none.
unfoldable pub validate : ClusterSpec → List ObservedNode → Option Plan → Checked PlanSimulator
unfolding is_plan_valid simulate_plan
validate spec nodes p = do valid ← is_plan_valid p; simulate_plan spec nodes valid
