-- ===== src/Validator/Simulator/Checks.antt =====
-- internal/validator/simulator.go: the checks on a simulated state, which change nothing.
use llm_k8s_redis.Prelude.{
  ℕ, suc, String, List, [], ◌∷◌, Map, Option, some, none, Bool, false, not, ◌&&◌, ◌||◌, ◌==◌,
  string_keys, nat_keys, if◌then◌else◌, ℤ, pos, int_eq, nat_eq, ok, err, ◌>>=◌, ◌>>◌, guard, lookup,
  insert, is_blank, is_empty, length,
}
use llm_k8s_redis.Plan.{Step, param_int}
use llm_k8s_redis.Prelude.{keys}
use llm_k8s_redis.Validator.Errors.{
  requires, outside_cluster, idle_master, empty_image, wrong_pod_image, not_forgotten,
  wrong_replicas, wrong_shards, wrong_coverage, slots_without_master, slot_twice, owner_index,
}
use llm_k8s_redis.Validator.Schema.{Checked, pass}
use llm_k8s_redis.Validator.Simulator.State.{SimulatedNode, PlanSimulator}

abbrev pub Nodes : Type 0
Nodes = Map String SimulatedNode

abbrev pub owned_by : String → Option String → Bool
owned_by pod none = false
owned_by pod (some owner) = owner == pod

abbrev pub not_seen : ℕ → String → Option String → Checked (Unit {0})
not_seen slot pod none = pass
not_seen slot pod (some prev) = err (slot_twice slot prev pod)

-- The loop of `checkInvariants` over the slots of one node; `seen` comes back for the next node.
unfoldable pub check_slots : Map ℕ String → String → List ℕ → Map ℕ String → Checked (Map ℕ String)
check_slots owners pod [] seen = ok seen
check_slots owners pod (slot ∷ slots) seen = do
  not_seen slot pod (lookup slot seen)
  guard (owned_by pod (lookup slot owners)) (owner_index slot)
  check_slots owners pod slots (insert slot pod seen)

abbrev pub is_active : SimulatedNode → Bool
is_active n = n.exists && n.cluster_member

-- `len(n.slots) > 0 && n.role != "master"`
abbrev pub misplaced : SimulatedNode → Bool
misplaced n = not (is_empty n.slots) && not (n.role == "master")

unfoldable pub check_nodes : Map ℕ String → Nodes → Map ℕ String → Checked (Unit {0})
unfolding check_slots
check_nodes owners [] seen = pass
check_nodes owners ((pod, n) ∷ nodes) seen =
    let skip = check_nodes owners nodes seen in
    let look : Checked (Unit {0}) = (do
      guard (not (misplaced n)) (slots_without_master pod)
      seen' ← check_slots owners pod (keys n.slots) seen
      check_nodes owners nodes seen') in
    if is_active n then look else skip

unfoldable pub check_invariants : PlanSimulator → Checked (Unit {0})
unfolding check_nodes
check_invariants s = check_nodes s.slot_owners s.nodes []

-- Is the node a replica that counts for the master?
abbrev pub serves : String → SimulatedNode → Bool
serves master n =
    n.exists && n.cluster_member && n.ready && n.role == "replica" && n.replica_of == master

unfoldable pub count_replicas : String → Nodes → ℕ
count_replicas master [] = 0
count_replicas master ((pod, n) ∷ nodes) =
    let rest = count_replicas master nodes in if serves master n then suc rest else rest

unfoldable pub replica_count : PlanSimulator → String → ℕ
unfolding count_replicas
replica_count s master = count_replicas master s.nodes

abbrev pub serving_master : SimulatedNode → Bool
serving_master n = n.exists && n.cluster_member && n.ready && n.role == "master"

-- The first loop of `verifyCluster`: it returns the number of masters.
unfoldable pub count_masters : PlanSimulator → ℤ → Nodes → Checked ℕ
unfolding replica_count
count_masters s expected [] = ok 0
count_masters s expected ((pod, n) ∷ nodes) =
    let rest = count_masters s expected nodes in
    let master : Checked ℕ = (do
      guard (not (is_empty n.slots)) (idle_master pod)
      guard (int_eq (pos (replica_count s pod)) expected)
          (wrong_replicas pod (replica_count s pod) expected)
      masters ← rest
      ok (suc masters)) in
    if n.exists && not n.cluster_member && not n.forgotten
    then err (outside_cluster pod)
    else if serving_master n
    then master
    else rest

-- The second loop of `verifyCluster`.
unfoldable pub check_members : String → Nodes → Checked (Unit {0})
check_members image [] = pass
check_members image ((pod, n) ∷ nodes) = do
  guard (not (n.exists && is_blank n.image)) (empty_image pod)
  guard (not (n.exists && not (n.image == image))) (wrong_pod_image pod)
  guard (not (n.cluster_member && not n.forgotten && (not n.exists || not n.ready)))
      (not_forgotten pod)
  check_members image nodes

abbrev pub need_int : String → Option ℤ → Checked ℤ
need_int key none = err (requires "VerifyCluster" key)
need_int key (some i) = ok i

-- The step leaves the state as it is.
unfoldable pub verify_cluster : Step → PlanSimulator → Checked (Unit {0})
verify_cluster step s = do
  shards ← need_int "expectedShards" (param_int step.params "expectedShards")
  replicas ← need_int "expectedReplicasPerShard" (param_int step.params "expectedReplicasPerShard")
  masters ← count_masters s replicas s.nodes
  guard (int_eq (pos masters) shards) (wrong_shards masters shards)
  guard (nat_eq (length s.slot_owners) 16384) (wrong_coverage (length s.slot_owners))
  check_members s.spec.image s.nodes
  check_invariants s
