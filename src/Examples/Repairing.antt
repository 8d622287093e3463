-- ===== src/Examples/Repairing.antt =====
-- The Go planner repairs a cluster of one full master with a replica, of which Redis still lists a
-- node that is gone: it plans to forget the node, and the validator accepts the plan.
use llm_k8s_redis.Prelude.{
  String, List, [], ◌∷◌, Map, some, none, Bool, true, false, not, ◌&&◌, ◌==◌, All, In, lookup,
  insert, has, length, nat_eq, ◌≡◌, ◌⊎◌, refl, inl, inr, arith, sym, ◌∙◌, ap, subst, ok,
  string_keys, nat_keys, Bool-cases, str_eq_iff, equal_fold, show, dec_lt, digit_char, split,
  trim_space,
}
use llm_k8s_redis.Plan.{
  Step, Plan, ObservedNode, param, param_string, param_int, str, forget_node, dsl_version,
}
use llm_k8s_redis.Observor.{
  observed_node_healthy, observed_has_flag, observed_node_forgettable_ghost,
}
use llm_k8s_redis.Cluster.Slots.{parse_slot_spec, slots_between}
use llm_k8s_redis.Cluster.Ranges.{constant, keys-constant, lookup-constant}
use llm_k8s_redis.Planner.Steps.{make_step, verify_step, new_go_plan}
use llm_k8s_redis.Planner.Builders.{Request, build_repair_plan, ghost_steps, clean}
use llm_k8s_redis.Planner.Topology.{
  topology_from_observed, ghost_nodes, has_ambiguous_no_slot_node, uniform_replica_count,
  live_pod_exists,
}
use llm_k8s_redis.Planner.Go.{build_go_plan, go_plan}
use llm_k8s_redis.Planner.Accepted.{MeetsSpec, go_plan-MeetsSpec}
use llm_k8s_redis.Validator.Schema.{
  is_plan_valid, require_int_params, require_true_bool_params, require_string_params, slots_set,
}
use llm_k8s_redis.Validator.Simulator.State.{
  SimulatedNode, PlanSimulator, update_node, add_keys, add_observed, add_all_observed,
  add_observed_nodes, new_plan_simulator, empty_simulator, give_parsed, observe, blank_node,
  ensure_node_key,
}
use llm_k8s_redis.Validator.Simulator.Checks.{
  is_active, check_invariants, count_masters, check_members, replica_count,
}
use llm_k8s_redis.Validator.Simulator.Checks
use llm_k8s_redis.Validator.Simulator.Steps.{
  apply, apply_action, simulate_from, simulate_plan, validate,
}
use llm_k8s_redis.Validator.Simulator.Exclusive.{
  IsExclusive, SlotsAreExclusive, check_invariants_iff,
}
use llm_k8s_redis.Validator.Simulator.Consistent.{IsConsistent, IsConsistent-IsKeyed}
use llm_k8s_redis.Validator.Simulator.Preserved.{apply-IsConsistent}
use llm_k8s_redis.Validator.Simulator.Start.{IsObserved, new_plan_simulator-IsConsistent}
use llm_k8s_redis.Examples.Full.{
  spec, master, all_slots, node_with, state_with, give_parsed-full, not_idle,
}

abbrev pub replica : ObservedNode
replica = record master {
  pod = "redis-1";
  node_id = "b";
  role = "replica";
  slots = "";
  master_id = "a";
  master_pod = "redis-0";
  flags = "slave" ∷ [];
}

abbrev pub ghost : ObservedNode
ghost = record {
  pod = "";
  pod_exists = false;
  image = "";
  redis_seen = true;
  node_id = "g";
  role = "master";
  slots = "";
  master_id = "";
  master_pod = "";
  ready = false;
  deleting = false;
  flags = "fail" ∷ [];
  link_state = "disconnected";
}

abbrev pub nodes : List ObservedNode
nodes = master ∷ replica ∷ ghost ∷ []

abbrev pub req : Request
req = record { spec = spec; nodes = nodes; next_pod_ordinal = 2 }

pub nodes-IsObserved : All IsObserved nodes
nodes-IsObserved = (
  record { ready_pod = λ r. refl; slots_seen = λ b. refl },
  (
    record { ready_pod = λ r. refl; slots_seen = λ b. refl },
    (record { ready_pod = λ r. absurd (cc); slots_seen = λ b. refl }, tt),
  ),
)

abbrev forget : Step
forget =
    make_step "forget-g" forget_node (("namespace", str "demo") ∷ ("lastKnownNodeId", str "g") ∷ [])

abbrev pub plan : Plan
plan = record {
  dsl_version = dsl_version;
  plan_id = "go-repair-1";
  target_generation = 1;
  summary = "Repair Redis Cluster topology";
  steps = forget ∷ verify_step spec ∷ [];
}

built : build_go_plan req ≡ some plan
unfolding build_go_plan topology_from_observed build_repair_plan observed_node_healthy
    observed_has_flag equal_fold lookup insert ghost_nodes observed_node_forgettable_ghost
    ghost_steps clean has_ambiguous_no_slot_node uniform_replica_count live_pod_exists new_go_plan
    show dec_lt digit_char
built = refl

abbrev replica_node : SimulatedNode
replica_node = record {
  exists = true;
  ready = true;
  cluster_member = true;
  forgotten = false;
  role = "replica";
  replica_of = "redis-0";
  image = "redis:7";
  slots = [];
}

-- The node that is gone, while Redis lists it and after.
abbrev ghost_node : Bool → SimulatedNode
ghost_node listed = record {
  exists = false;
  ready = false;
  cluster_member = listed;
  forgotten = not listed;
  role = "master";
  replica_of = "";
  image = "";
  slots = [];
}

abbrev others : Bool → Map String SimulatedNode
others listed = ("redis-1", replica_node) ∷ ("g", ghost_node listed) ∷ []

abbrev ids : Map String String
ids = ("a", "redis-0") ∷ ("b", "redis-1") ∷ ("g", "g") ∷ []

pub state : Bool → PlanSimulator
state listed =
    state_with (others listed) ids (constant tt all_slots)
      (constant {V = String} "redis-0" all_slots)

abbrev blanks : Map String SimulatedNode
blanks = ("redis-1", blank_node) ∷ ("g", blank_node) ∷ []

keyed : PlanSimulator
keyed = add_keys nodes (empty_simulator spec)

placed :
    update_node "redis-0" (observe master keyed.node_ids) (ensure_node_key "redis-0" keyed)
    ≡ state_with blanks ids [] []
unfolding keyed add_keys update_node state_with node_with observed_node_healthy observed_has_flag
    equal_fold insert lookup
placed = refl

abbrev held : PlanSimulator
held = state_with blanks ids (constant tt all_slots) (constant {V = String} "redis-0" all_slots)

first_given : add_observed master keyed ≡ held
unfolding add_observed
first_given = ap (give_parsed "redis-0" (slots_set "0-16383")) placed ∙ give_parsed-full blanks ids

others_placed : add_observed ghost (add_observed replica held) ≡ state true
unfolding add_observed update_node state state_with node_with observed_node_healthy
    observed_has_flag equal_fold insert lookup slots_set parse_slot_spec split trim_space
others_placed = refl

starts : new_plan_simulator spec nodes ≡ state true
unfolding new_plan_simulator add_observed_nodes add_all_observed keyed
starts = ap (λ s. add_observed ghost (add_observed replica s)) first_given ∙ others_placed

state-IsConsistent : IsConsistent (state true)
state-IsConsistent =
    subst IsConsistent starts (new_plan_simulator-IsConsistent spec nodes nodes-IsObserved)

forgets : apply forget plan.steps 0 (state true) ≡ ok (state false)
unfolding apply apply_action state state_with node_with update_node insert lookup param_string
forgets = refl

forgotten-IsConsistent : IsConsistent (state false)
forgotten-IsConsistent =
    apply-IsConsistent forget plan.steps 0 (state true) forgets state-IsConsistent

-- A node of the state is the master, the replica or the ghost.
node_cases :
    (listed : Bool) (pod : String) (n : SimulatedNode)
    → lookup pod (state listed).nodes ≡ some n
    → ((node_with (constant tt all_slots) ≡ n) × ("redis-0" ≡ pod))
      ⊎ ((replica_node ≡ n) ⊎ (ghost_node listed ≡ n))
unfolding state state_with lookup
node_cases listed pod n l = elim (Bool-cases ("redis-0" == pod)) [
  | inl same ↦ inl (cc (rw same at l), (str_eq_iff "redis-0" pod).0 same)
  | inr other ↦ elim (Bool-cases ("redis-1" == pod)) [
    | inl same ↦ inr (inl (cc (rw (other, same) at l)))
    | inr second ↦ elim (Bool-cases ("g" == pod)) [
      | inl same ↦ inr (inr (cc (rw (other, second, same) at l)))
      | inr third ↦ absurd (cc (rw (other, second, third) at l))
    ]
  ]
]

master-IsExclusive :
    (listed : Bool)
    → IsExclusive (state listed).slot_owners "redis-0" (node_with (constant tt all_slots))
unfolding state state_with node_with
master-IsExclusive listed = record {
  placed = unplaced _;
  indexed = λ slot i.
      lookup-constant {V = String} "redis-0" slot all_slots
        (subst (λ l. In slot l) (keys-constant tt all_slots) i);
}
  where
    unplaced : (b : Bool) → (b && false) ≡ false
    unplaced b = ground arith

exclusive : (listed : Bool) → SlotsAreExclusive (state listed)
exclusive listed pod n l a = elim (node_cases listed pod n l) [
  | inl (node, name) ↦
      subst (λ p. IsExclusive (state listed).slot_owners p n) name
        (subst (λ m. IsExclusive (state listed).slot_owners "redis-0" m) node
          (master-IsExclusive listed))
  | inr (inl node) ↦
      subst (λ m. IsExclusive (state listed).slot_owners pod m) node
        (record { placed = refl; indexed = λ slot i. absurd i })
  | inr (inr node) ↦ absurd (gone (subst (λ m. is_active m ≡ true) (sym node) a))
]
  where
    gone : is_active (ghost_node listed) ≡ true → ⊥
    gone h = cc

invariants_pass :
    (listed : Bool) → IsConsistent (state listed) → check_invariants (state listed) ≡ ok tt
invariants_pass listed c =
    (check_invariants_iff (state listed) (IsConsistent-IsKeyed c)).1 (exclusive listed)

abbrev verify : Step
verify = verify_step spec

coverage : nat_eq (length (state false).slot_owners) 16384 ≡ true
unfolding state state_with constant all_slots slots_between
coverage = refl

verified : Checks.verify_cluster verify (state false) ≡ ok tt
unfolding Checks.verify_cluster count_masters check_members replica_count state state_with node_with
    param_int param lookup
verified = rw (not_idle, coverage, invariants_pass false forgotten-IsConsistent) refl

valid : is_plan_valid (some plan) ≡ ok plan
unfolding is_plan_valid require_int_params require_true_bool_params param_int param param_string
    lookup insert has require_string_params
valid = refl

ends : apply verify plan.steps 1 (state false) ≡ ok (state false)
unfolding apply apply_action
ends = rw verified refl

pub accepted : validate spec nodes (some plan) ≡ ok (state false)
unfolding validate simulate_plan simulate_from
accepted = rw (valid, starts, forgets, invariants, ends, invariants) refl
  where
    invariants : check_invariants (state false) ≡ ok tt
    invariants = invariants_pass false forgotten-IsConsistent

pub planned : go_plan {E = String} none req ≡ (some plan, none)
unfolding go_plan
planned = rw (built, accepted) refl

go_plan-MeetsSpec_example :
    (s : PlanSimulator) × (validate spec nodes (some plan) ≡ ok s) × MeetsSpec spec s
go_plan-MeetsSpec_example =
    go_plan-MeetsSpec String req plan nodes-IsObserved (ap (λ r. r.0) planned)
