-- ===== src/Action/Deletes.antt =====
-- internal/action/delete_node.go: which pod a DeleteNode deletes.
use llm_k8s_redis.Prelude.{
  some, String, List, [], ◌∷◌, true, false, not, ◌==◌, string_keys, ok, >>=-eq-ok, guard,
  guard-eq-ok, ◌≡◌, subst, ap, inl, inr, arith, In, Bool-cases, Result-cases, not_sound, str_eq_iff,
}
use llm_k8s_redis.Plan.{Step, param_string}
use llm_k8s_redis.Api.{RedisCluster}
use llm_k8s_redis.Cluster.Entries.{Entry, is_master, parse_nodes, master_has_healthy_replica}
use llm_k8s_redis.Cluster.Markers.{has_slots}
use llm_k8s_redis.Cluster.Marked.{master_has_healthy_replica_nonempty}
use llm_k8s_redis.Action.Pods.{Pod, pod_redis_addr}
use llm_k8s_redis.Action.Seeds.{pick_seed_pod_except}
use llm_k8s_redis.Action.Observe.{list_managed_pods}
use llm_k8s_redis.Action.World.{
  Call, delete_pod, World, PodReply, pod_found, pod_not_found, get_failed, pods_or_end, no_error,
  or_end, some_or_end, require_string, require_string_sound,
}
use llm_k8s_redis.Action.Delete.{
  is_managed, bare_master, no_bare_master, target_pod, member_by_ip, member_by_id, last_known,
  delete_reads, delete_checked, delete_node, slashed,
}
use llm_k8s_redis.Action.Forgets.{or_end_sound}

-- The deletion of a pod that is no member of the cluster, while each master with slots has a healthy
-- replica.
pub record IsSafeDelete (w : World) (c : RedisCluster) (step : Step) (call : Call) : Type 0 where
  pub pod : String
  pub asks : param_string step.params "pod" ≡ some pod
  pub target : Pod
  pub seed_addr : String
  pub raw : String
  pub deletes : call ≡ delete_pod c.name pod
  pub got : w.get_pod [] c.name pod ≡ pod_found target
  pub managed : is_managed c.name target ≡ true
  pub read : w.cluster_nodes [] seed_addr ≡ ok raw
  pub no_address : member_by_ip (parse_nodes raw) target ≡ false
  pub replicated :
      (e : Entry)
      → In e (parse_nodes raw)
      → is_master e ≡ true
      → has_slots e ≡ true
      → master_has_healthy_replica (parse_nodes raw) e.id ≡ true

target_pod_sound :
    (path : String) (r : PodReply) {p : Pod} → target_pod path r ≡ ok p → r ≡ pod_found p
target_pod_sound path (pod_found q) h = ap pod_found (cc h)
target_pod_sound path pod_not_found h = cc h
target_pod_sound path (get_failed e) h = cc h

no_bare_master_sound :
    (path : String) (all entries : List Entry) {u : Unit {0}} (e : Entry)
    → no_bare_master path all entries ≡ ok u
    → In e entries
    → bare_master all e ≡ false
unfolding no_bare_master
no_bare_master_sound path all [] e h i = absurd i
no_bare_master_sound path all (d ∷ entries) e h i = elim (Bool-cases (bare_master all d)) [
  | inl bare ↦ absurd (cc (rw bare at h))
  | inr fine ↦ elim i [
    | inl same ↦ subst (λ x. bare_master all x ≡ false) same fine
    | inr j ↦ no_bare_master_sound path all entries e (rw fine at h) j
  ]
]

replica_of :
    (entries : List Entry) (e : Entry)
    → bare_master entries e ≡ false
    → is_master e ≡ true
    → has_slots e ≡ true
    → master_has_healthy_replica entries e.id ≡ true
replica_of entries e fine master slots =
    ground (arith, master_has_healthy_replica_nonempty entries e.id, fine, master, slots)

-- What the reading of the cluster has shown.
record Shown (w : World) (target : Pod) : Type 0 where
  seed_addr : String
  raw : String
  read : w.cluster_nodes [] seed_addr ≡ ok raw
  no_address : member_by_ip (parse_nodes raw) target ≡ false
  replicated : (e : Entry) → In e (parse_nodes raw) → bare_master (parse_nodes raw) e ≡ false

module _ (quote : String → String) (w : World) (c : RedisCluster) (step : Step) where
  delete_reads-Shown :
      (path pod : String) (target : Pod) {u : Unit {0}}
      → delete_reads quote w c step path pod target ≡ ok u
      → Shown w target
  unfolding delete_reads
  delete_reads-Shown path pod target h =
      let (pods, _, h1) = >>=-eq-ok (pods_or_end (list_managed_pods (w.list_pods []))) _ h in
      let (seed, _, h2) = >>=-eq-ok (some_or_end (pick_seed_pod_except pods pod) _) _ h1 in
      let (_, _, h3) = >>=-eq-ok (no_error (w.dial [] (pod_redis_addr seed)) _) _ h2 in
      let (raw, read, h4) = >>=-eq-ok (or_end (w.cluster_nodes [] (pod_redis_addr seed)) _) _ h3 in
      let (_, absent, h5) =
        >>=-eq-ok (guard (not (member_by_ip (parse_nodes raw) target)) _) _ h4 in
      let (_, _, h6) =
        >>=-eq-ok (guard (not (member_by_id (parse_nodes raw) (last_known quote w c step pod))) _) _
          h5 in
      record {
        seed_addr = pod_redis_addr seed;
        raw = raw;
        read = or_end_sound _ _ read;
        no_address = not_sound _ (guard-eq-ok _ _ absent);
        replicated = λ e i. no_bare_master_sound path (parse_nodes raw) (parse_nodes raw) e h6 i;
      }

  deletes_of :
      (ns pod n p : String) (target : Pod) (call : Call)
      → (ns == c.name) ≡ true
      → param_string step.params "pod" ≡ some pod
      → w.get_pod [] ns pod ≡ pod_found target
      → is_managed c.name target ≡ true
      → Shown w target
      → ns ≡ n
      → pod ≡ p
      → delete_pod n p ≡ call
      → IsSafeDelete w c step call
  deletes_of ns pod n p target call same asks got managed shown first second writes =
      let named : ns ≡ c.name = (str_eq_iff ns c.name).0 same in
      record {
        pod = pod;
        asks = asks;
        target = target;
        seed_addr = shown.seed_addr;
        raw = shown.raw;
        deletes = cc (writes, named, first, second);
        got = subst (λ x. w.get_pod [] x pod ≡ pod_found target) named got;
        managed = managed;
        read = shown.read;
        no_address = shown.no_address;
        replicated = λ e i master slots.
            replica_of (parse_nodes shown.raw) e (shown.replicated e i) master slots;
      }

  delete_checked-writes :
      (n p : String) (call : Call)
      → delete_checked quote w c step ≡ ok (n, p)
      → delete_pod n p ≡ call
      → IsSafeDelete w c step call
  unfolding delete_checked
  delete_checked-writes n p call e writes =
      let (ns, _, h1) = >>=-eq-ok (require_string quote step.params "namespace") _ e in
      let (pod, asks, h2) = >>=-eq-ok (require_string quote step.params "pod") _ h1 in
      let (_, same, h3) = >>=-eq-ok (guard (ns == c.name) _) _ h2 in
      let (target, got, h4) = >>=-eq-ok (target_pod (slashed ns pod) (w.get_pod [] ns pod)) _ h3 in
      let (_, managed, h5) = >>=-eq-ok (guard (is_managed c.name target) _) _ h4 in
      let (_, reads, h6) =
        >>=-eq-ok (delete_reads quote w c step (slashed ns pod) pod target) _ h5 in
      deletes_of ns pod n p target call (guard-eq-ok _ _ same)
        (require_string_sound quote step.params "pod" pod asks)
        (target_pod_sound (slashed ns pod) (w.get_pod [] ns pod) got) (guard-eq-ok _ _ managed)
        (delete_reads-Shown (slashed ns pod) pod target reads) (cc h6) (cc h6) writes

-- Every write of a DeleteNode, however it ends, is the deletion of the step's pod in the cluster's
-- namespace; the pod carries the controller's labels, CLUSTER NODES lists no node at its address, and each
-- master that it lists with slots has a healthy replica.
pub delete_node-IsSafeDelete :
    (quote : String → String) (w : World) (c : RedisCluster) (step : Step) (call : Call)
    → In call (delete_node quote w c step).1
    → IsSafeDelete w c step call
unfolding delete_node
delete_node-IsSafeDelete quote w c step call i =
    elim (Result-cases (delete_checked quote w c step)) [
      | inr (end, e) ↦ absurd (rw e at i)
      | inl ((n, p), e) ↦ elim (rw e at i) [
        | inr never ↦ absurd never
        | inl writes ↦ delete_checked-writes quote w c step n p call e writes
      ]
    ]
