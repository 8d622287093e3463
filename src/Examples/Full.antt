-- ===== src/Examples/Full.antt =====
-- A cluster of one master that holds all 16384 slots, and a plan of one VerifyCluster step that the
-- validator accepts for it. The state after it is found by lemmas, since a run would walk the
-- slots some hundred million times.
use llm_k8s_redis.Prelude.{
  ℕ, String, List, [], ◌∷◌, Map, some, Bool, true, false, ◌==◌, In, lookup, insert, keys, Distinct,
  ◌≡◌, refl, inl, inr, arith, ◌∙◌, ap, subst, ok, ◌>>=◌, string_keys, nat_keys, pos, cut_at,
  is_char, has_char, split, trim_space, atoi, equal_fold, Bool-cases, str_eq_iff, has, length, ◌&&◌,
  is_empty, nat_eq,
}
use llm_k8s_redis.Plan.{
  int, bool, verify_cluster, Step, Plan, dsl_version, ClusterSpec, ObservedNode, param_int, param,
}
use llm_k8s_redis.Observor.{observed_node_healthy, observed_has_flag}
use llm_k8s_redis.Cluster.Slots.{
  SlotSet, slot_token_range, parse_slot_spec, add_range, slots_between,
}
use llm_k8s_redis.Cluster.Ranges.{
  constant, keys-constant, insert_all, insert_all-range, add_range-insert_all, lookup-constant,
  Distinct-range, parse_slot_spec-range,
}
use llm_k8s_redis.Validator.Schema.{
  slots_set, lift_slots, is_plan_valid, require_int_params, require_true_bool_params,
}
use llm_k8s_redis.Validator.Simulator.State.{
  SimulatedNode, PlanSimulator, ensure_node_key, update_node, give_slot, add_keys, give_parsed,
  observe, give_slots, add_observed, add_all_observed, add_observed_nodes, new_plan_simulator,
  empty_simulator,
}
use llm_k8s_redis.Validator.Simulator.Checks.{
  check_invariants, replica_count, count_replicas, count_masters, check_members, is_active,
}
use llm_k8s_redis.Validator.Simulator.Checks
use llm_k8s_redis.Validator.Simulator.Steps.{
  apply, apply_action, simulate_from, simulate_plan, validate,
}
use llm_k8s_redis.Validator.Simulator.Exclusive.{
  IsExclusive, IsKeyed, SlotsAreExclusive, check_invariants_iff,
}

abbrev pub spec : ClusterSpec
spec = record {
  name = "demo";
  generation = 1;
  shards = 1;
  replicas_per_shard = 1;
  image = "redis:7";
  memory_size = "1Gi";
}

abbrev pub master : ObservedNode
master = record {
  pod = "redis-0";
  pod_exists = true;
  image = "redis:7";
  redis_seen = true;
  node_id = "a";
  role = "master";
  slots = "0-16383";
  master_id = "";
  master_pod = "";
  ready = true;
  deleting = false;
  flags = "master" ∷ [];
  link_state = "connected";
}

abbrev pub verify_step : Step
verify_step = record {
  id = "v";
  action = verify_cluster;
  params = some (
      ("expectedShards", int (pos 1))
      ∷ ("expectedReplicasPerShard", int (pos 0))
      ∷ ("requireClusterStateOk", bool true)
      ∷ ("requireFullSlotCoverage", bool true)
      ∷ ("requireAllSlotOwnersHaveReplicas", bool true)
      ∷ []);
}

abbrev pub plan : Plan
plan = record {
  dsl_version = dsl_version;
  plan_id = "p";
  target_generation = 1;
  summary = "";
  steps = verify_step ∷ [];
}

unfoldable pub all_slots : List ℕ
all_slots = slots_between 0 16383

unfoldable pub node_with : SlotSet → SimulatedNode
node_with slots = record {
  exists = true;
  ready = true;
  cluster_member = true;
  forgotten = false;
  role = "master";
  replica_of = "";
  image = "redis:7";
  slots = slots;
}

-- That master beside other nodes, with the ids that Redis gave.
unfoldable pub state_with :
    Map String SimulatedNode → Map String String → SlotSet → Map ℕ String → PlanSimulator
state_with others ids slots owners = record {
  spec = spec;
  nodes = ("redis-0", node_with slots) ∷ others;
  node_ids = ids;
  slot_owners = owners;
}

abbrev ids : Map String String
ids = ("a", "redis-0") ∷ []

-- The state that the simulator builds from the one observed master.
pub full : PlanSimulator
unfolding state_with
full = state_with [] ids (constant tt all_slots) (constant {V = String} "redis-0" all_slots)

token_reads : slot_token_range "0-16383" ≡ ok (0, 16383)
unfolding slot_token_range has_char cut_at trim_space atoi
token_reads = refl

text_is_plain :
    (split (is_char b',') "0-16383" ≡ "0-16383" ∷ []) × (trim_space "0-16383" ≡ "0-16383")
unfolding split trim_space
text_is_plain = (refl, refl)

pub full_text_parses : parse_slot_spec "0-16383" ≡ ok (slots_between 0 16383)
full_text_parses =
    parse_slot_spec-range "0-16383" 0 16383 text_is_plain.0 text_is_plain.1 refl token_reads

between-insert_all : insert_all tt (slots_between 0 16383) [] ≡ constant tt (slots_between 0 16383)
unfolding slots_between
between-insert_all = insert_all-range tt 0 16384

owners-insert_all :
    insert_all {V = String} "redis-0" (slots_between 0 16383) []
    ≡ constant {V = String} "redis-0" (slots_between 0 16383)
unfolding slots_between
owners-insert_all = insert_all-range "redis-0" 0 16384

slots_set-full : slots_set "0-16383" ≡ ok (constant tt all_slots)
unfolding slots_set all_slots
slots_set-full =
    ap (λ r. lift_slots r >>= λ slots. ok (add_range slots [])) full_text_parses
    ∙ ap ok (add_range-insert_all (slots_between 0 16383) [] ∙ between-insert_all)

module _ (others : Map String SimulatedNode) (ids : Map String String) where
  give_slot-alone :
      (k : ℕ) (slots : SlotSet) (owners : Map ℕ String)
      → give_slot "redis-0" k (state_with others ids slots owners)
        ≡ state_with others ids (insert k tt slots) (insert k "redis-0" owners)
  unfolding give_slot update_node state_with node_with lookup insert
  give_slot-alone k slots owners = refl

  -- Slots are given to the one node in turn.
  pub give_slots-alone :
      (l : List ℕ) (slots : SlotSet) (owners : Map ℕ String)
      → give_slots "redis-0" l (state_with others ids slots owners)
        ≡ state_with others ids (insert_all tt l slots) (insert_all {V = String} "redis-0" l owners)
  unfolding give_slots insert_all
  give_slots-alone [] slots owners = refl
  give_slots-alone (k ∷ l) slots owners =
      ap (give_slots "redis-0" l) (give_slot-alone k slots owners)
      ∙ give_slots-alone l (insert k tt slots) (insert k "redis-0" owners)

  -- The slots of the observed text are given to the one node.
  pub give_parsed-full :
      give_parsed "redis-0" (slots_set "0-16383") (state_with others ids [] [])
      ≡ state_with others ids (constant tt all_slots) (constant {V = String} "redis-0" all_slots)
  unfolding all_slots
  give_parsed-full =
      ap (λ r. give_parsed "redis-0" r (state_with others ids [] [])) slots_set-full
      ∙ ap (λ l. give_slots "redis-0" l (state_with others ids [] [])) (keys-constant tt all_slots)
      ∙ give_slots-alone all_slots [] []
      ∙ ap
          (λ m.
            state_with others ids m (insert_all {V = String} "redis-0" (slots_between 0 16383) []))
          between-insert_all
      ∙ ap (λ m. state_with others ids (constant tt (slots_between 0 16383)) m) owners-insert_all

keyed : PlanSimulator
keyed = add_keys (master ∷ []) (empty_simulator spec)

placed :
    update_node "redis-0" (observe master keyed.node_ids) (ensure_node_key "redis-0" keyed)
    ≡ state_with [] ids [] []
unfolding keyed add_keys update_node state_with node_with observed_node_healthy observed_has_flag
    equal_fold insert lookup
placed = refl

pub starts_full : new_plan_simulator spec (master ∷ []) ≡ full
unfolding new_plan_simulator add_observed_nodes add_all_observed full all_slots lookup keyed
starts_full = added ∙ give_parsed-full [] ids
  where
    added :
        add_observed master keyed
        ≡ give_parsed "redis-0" (slots_set "0-16383") (state_with [] ids [] [])
    added = ap (give_parsed "redis-0" (slots_set "0-16383")) placed

only_node :
    (pod : String) (n : SimulatedNode)
    → lookup pod full.nodes ≡ some n
    → (node_with (constant tt all_slots) ≡ n) × ("redis-0" ≡ pod)
unfolding full state_with lookup
only_node pod n l = elim (Bool-cases ("redis-0" == pod)) [
  | inl same ↦ (cc (rw same at l), (str_eq_iff "redis-0" pod).0 same)
  | inr other ↦ absurd (cc (rw other at l))
]

Distinct-all_slots : Distinct all_slots
unfolding all_slots slots_between
Distinct-all_slots = Distinct-range 0 16384

full-IsKeyed : IsKeyed full
unfolding full state_with node_with
full-IsKeyed = record {
  pods = (tt, tt);
  owned = rw (keys-constant {V = String} "redis-0" all_slots) Distinct-all_slots;
  sets = λ pod n l.
      subst (λ (m : SimulatedNode). Distinct (keys m.slots)) (only_node pod n l).0
        (rw (keys-constant tt all_slots) Distinct-all_slots);
}

full_exclusive : SlotsAreExclusive full
unfolding full state_with node_with
full_exclusive pod n l a =
    let (node, name) = only_node pod n l in
    subst (λ p. IsExclusive full.slot_owners p n) name
      (subst (λ m. IsExclusive full.slot_owners "redis-0" m) node
        (record {
          placed = and_false _;
          indexed = λ slot i.
              lookup-constant {V = String} "redis-0" slot all_slots
                (subst (λ l. In slot l) (keys-constant tt all_slots) i);
        }))
  where
    and_false : (b : Bool) → (b && false) ≡ false
    and_false b = ground arith

invariants_pass : check_invariants full ≡ ok tt
invariants_pass = (check_invariants_iff full full-IsKeyed).1 full_exclusive

pub not_idle : is_empty (constant {V = Unit {0}} tt all_slots) ≡ false
unfolding constant all_slots slots_between
not_idle = refl

coverage : nat_eq (length full.slot_owners) 16384 ≡ true
unfolding full state_with constant all_slots slots_between
coverage = refl

pub verified : Checks.verify_cluster verify_step full ≡ ok tt
unfolding Checks.verify_cluster count_masters check_members replica_count full state_with node_with
    param_int param lookup
verified = rw (not_idle, coverage, invariants_pass) refl

valid : is_plan_valid (some plan) ≡ ok plan
unfolding is_plan_valid require_int_params require_true_bool_params param_int param lookup has
valid = refl

pub accepted : validate spec (master ∷ []) (some plan) ≡ ok full
unfolding validate simulate_plan simulate_from apply apply_action
accepted = rw (valid, starts_full, verified, invariants_pass) refl
