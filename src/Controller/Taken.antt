-- ===== src/Controller/Taken.antt =====
-- internal/controller/pod_ordinal.go: what the status keeps the ordinals of, and that the next ordinal comes
-- above them.
use llm_k8s_redis.Prelude.{
  ℕ, Bool-cases, In-map, In-append, cut_prefix, true, false, refl, ap, ◌∙◌, ◌^◌, ◌≤◌, ◌<◌, String,
  List, [], ◌∷◌, ◌++◌, map, Option, some, none, ok, is_blank, ◌≡◌, arith, inl, inr, In, subst, sym,
}
use llm_k8s_redis.Plan.{Step, Plan, ObservedNode, ensure_node, param_string}
use llm_k8s_redis.Api.{NodeTopology, ShardTopology, ClusterTopology, RedisCluster}
use llm_k8s_redis.Controller.Status.{PlanStatus, Codec, status_to_plan}
use llm_k8s_redis.Controller.Ordinal.{controller_pod_ordinal, to_int32, raise, above, step_ordinal}
use llm_k8s_redis.Controller.Reserved.{
  named, replica_pods, shard_pods, status_topology_pods, highest, plan_ordinals, active_ordinals,
  taken_ordinals, bump_next_pod_ordinal,
}

highest_grows : (bound : ℕ) (l : List (Option ℕ)) → bound ≤ highest bound l
unfolding highest
highest_grows bound [] = omega arith
highest_grows bound (none ∷ l) = highest_grows bound l
highest_grows bound (some n ∷ l) = ground (arith, highest_grows (above bound (some n)) l)

highest-above : (bound n : ℕ) (l : List (Option ℕ)) → In (some n) l → n < highest bound l
unfolding highest
highest-above bound n [] i = absurd i
highest-above bound n (o ∷ l) (inl e) =
    let first : n < above bound (some n) = ground arith in
    let rest = highest_grows (above bound (some n)) l in
    subst (λ x. n < highest (above bound x) l) (sym e) (omega (arith, first, rest))
highest-above bound n (o ∷ l) (inr i) = highest-above (above bound o) n l i

raise-to : (next n : ℕ) → n < 2 ^ 31 → next ≤ n → raise next (to_int32 n) ≡ n
unfolding to_int32
raise-to next n h le = ground arith

-- The pods that the status keeps the ordinals of: the masters and the replicas of its topology, the pods
-- of its observed nodes, and the pods that its plan ensures.
pub data Takes (json : Codec) (c : RedisCluster) : String → Type 0 where
  as_master :
      (t : ClusterTopology) (sh : ShardTopology)
      → c.topology ≡ some t
      → In sh t.shards
      → Takes json c sh.master.pod
  as_replica :
      (t : ClusterTopology) (sh : ShardTopology) (r : NodeTopology)
      → c.topology ≡ some t
      → In sh t.shards
      → In r sh.replicas
      → Takes json c r.pod
  as_observed : (n : ObservedNode) → In n c.observed_nodes → Takes json c n.pod
  as_planned :
      (active : PlanStatus) (p : Plan) (s : Step) (pod : String)
      → c.active_plan ≡ some active
      → status_to_plan json active ≡ ok p
      → In s p.steps
      → s.action ≡ ensure_node
      → param_string s.params "pod" ≡ some pod
      → Takes json c pod

blank_ordinal :
    (pod : String) {n : ℕ} → is_blank pod ≡ true → controller_pod_ordinal pod ≡ some n → ⊥
unfolding controller_pod_ordinal cut_prefix
blank_ordinal String.[] blank h = cc h
blank_ordinal (String.◌∷◌ x pod) blank h = cc blank

module _ (pod : String) (ordinal : is_blank pod ≡ false) where
  In-named_same : (pods : List String) → In pod (named pod pods)
  In-named_same pods = rw ordinal (inl refl)

  In-named : (other : String) (pods : List String) → In pod pods → In pod (named other pods)
  In-named other pods i = elim (Bool-cases (is_blank other)) [
    | inl blank ↦ rw blank i
    | inr text ↦ rw text (inr i)
  ]

  In-replica_pods_rest :
      (replicas : List NodeTopology) (pods : List String)
      → In pod pods
      → In pod (replica_pods replicas pods)
  In-replica_pods_rest [] pods i = i
  In-replica_pods_rest (r ∷ replicas) pods i =
      In-named r.pod (replica_pods replicas pods) (In-replica_pods_rest replicas pods i)

  In-replica_pods :
      (r : NodeTopology) (replicas : List NodeTopology) (pods : List String)
      → r.pod ≡ pod
      → In r replicas
      → In pod (replica_pods replicas pods)
  In-replica_pods r [] pods e i = absurd i
  In-replica_pods r (q ∷ replicas) pods e (inl same) =
      let here : q.pod ≡ pod = ap (λ (x : NodeTopology). x.pod) same ∙ e in
      subst (λ x. In pod (named x (replica_pods replicas pods))) (sym here)
        (In-named_same (replica_pods replicas pods))
  In-replica_pods r (q ∷ replicas) pods e (inr i) =
      In-named q.pod (replica_pods replicas pods) (In-replica_pods r replicas pods e i)

  In-shard_pods_master :
      (sh : ShardTopology) (shards : List ShardTopology)
      → sh.master.pod ≡ pod
      → In sh shards
      → In pod (shard_pods shards)
  In-shard_pods_master sh [] e i = absurd i
  In-shard_pods_master sh (q ∷ shards) e (inl same) =
      let here : q.master.pod ≡ pod = ap (λ (x : ShardTopology). x.master.pod) same ∙ e in
      subst (λ x. In pod (named x (replica_pods q.replicas (shard_pods shards)))) (sym here)
        (In-named_same (replica_pods q.replicas (shard_pods shards)))
  In-shard_pods_master sh (q ∷ shards) e (inr i) =
      In-named q.master.pod (replica_pods q.replicas (shard_pods shards))
        (In-replica_pods_rest q.replicas (shard_pods shards) (In-shard_pods_master sh shards e i))

  In-shard_pods_replica :
      (r : NodeTopology) (sh : ShardTopology) (shards : List ShardTopology)
      → r.pod ≡ pod
      → In r sh.replicas
      → In sh shards
      → In pod (shard_pods shards)
  In-shard_pods_replica r sh [] e j i = absurd i
  In-shard_pods_replica r sh (q ∷ shards) e j (inl same) =
      In-named q.master.pod (replica_pods q.replicas (shard_pods shards)) (
        In-replica_pods r q.replicas (shard_pods shards) e
          (subst (λ (x : ShardTopology). In r x.replicas) (sym same) j))
  In-shard_pods_replica r sh (q ∷ shards) e j (inr i) =
      In-named q.master.pod (replica_pods q.replicas (shard_pods shards)) (
        In-replica_pods_rest q.replicas (shard_pods shards)
          (In-shard_pods_replica r sh shards e j i))

module _ (json : Codec) (c : RedisCluster) where
  abbrev by_topology : List (Option ℕ)
  by_topology = map controller_pod_ordinal (status_topology_pods c.topology)

  abbrev by_nodes : List (Option ℕ)
  by_nodes = map (λ (n : ObservedNode). controller_pod_ordinal n.pod) c.observed_nodes

  named_pod : (pod : String) {n : ℕ} → controller_pod_ordinal pod ≡ some n → is_blank pod ≡ false
  named_pod pod h = elim (Bool-cases (is_blank pod)) [
    | inl blank ↦ absurd (blank_ordinal pod blank h)
    | inr text ↦ text
  ]

  of_topology :
      (t : ClusterTopology) (pod : String) (n : ℕ)
      → c.topology ≡ some t
      → In pod (shard_pods t.shards)
      → controller_pod_ordinal pod ≡ some n
      → In (some n) (taken_ordinals json c)
  unfolding status_topology_pods
  of_topology t pod n e i o =
      let there : In pod (status_topology_pods c.topology) =
        subst (λ x. In pod (status_topology_pods x)) (sym e) i in
      In-append (some n) (by_topology ++ by_nodes) (active_ordinals json c.active_plan) (
        inl (
          In-append (some n) by_topology by_nodes (
            inl (
              subst (λ x. In x by_topology) o
                (In-map controller_pod_ordinal pod (status_topology_pods c.topology) there)))))

  -- What the status keeps the ordinal of is among the taken ones.
  Takes-taken :
      {pod : String} (n : ℕ)
      → Takes json c pod
      → controller_pod_ordinal pod ≡ some n
      → In (some n) (taken_ordinals json c)
  Takes-taken n (as_master t sh e i) o =
      of_topology t sh.master.pod n e
        (In-shard_pods_master sh.master.pod (named_pod sh.master.pod o) sh t.shards refl i) o
  Takes-taken n (as_replica t sh r e i j) o =
      of_topology t r.pod n e
        (In-shard_pods_replica r.pod (named_pod r.pod o) r sh t.shards refl j i) o
  Takes-taken n (as_observed m i) o =
      In-append (some n) (by_topology ++ by_nodes) (active_ordinals json c.active_plan) (
        inl (
          In-append (some n) by_topology by_nodes (
            inr (
              subst (λ x. In x by_nodes) o
                (In-map (λ (x : ObservedNode). controller_pod_ordinal x.pod) m c.observed_nodes
                  i)))))
  Takes-taken n (as_planned active p s pod e reads i ensures asks) o =
      let ordinal : step_ordinal s s.action ≡ some n = rw (ensures, asks) o in
      let there : In (some n) (plan_ordinals (ok p)) =
        subst (λ x. In x (plan_ordinals (ok p))) ordinal
          (In-map (λ (x : Step). step_ordinal x x.action) s p.steps i) in
      let planned : In (some n) (plan_ordinals (status_to_plan json active)) =
        subst (λ r. In (some n) (plan_ordinals r)) (sym reads) there in
      In-append (some n) (by_topology ++ by_nodes) (active_ordinals json c.active_plan)
        (inr (subst (λ a. In (some n) (active_ordinals json a)) (sym e) planned))

-- At the start of a reconcile the next ordinal is not lowered and comes above the ordinal of every master and
-- replica of the status's topology, of every observed node and of every pod that its plan ensures, if those
-- are below 2^31 - 1 and it is an int32 itself.
pub bump_next_pod_ordinal-above :
    (json : Codec) (c : RedisCluster) (pod : String) (n : ℕ)
    → highest c.next_pod_ordinal (taken_ordinals json c) < 2 ^ 31
    → Takes json c pod
    → controller_pod_ordinal pod ≡ some n
    → (c.next_pod_ordinal ≤ (bump_next_pod_ordinal json c).next_pod_ordinal)
      × (n < (bump_next_pod_ordinal json c).next_pod_ordinal)
unfolding bump_next_pod_ordinal
bump_next_pod_ordinal-above json c pod n h takes ordinal =
    let top = highest c.next_pod_ordinal (taken_ordinals json c) in
    let up = highest_grows c.next_pod_ordinal (taken_ordinals json c) in
    let i = Takes-taken json c n takes ordinal in
    let over = highest-above c.next_pod_ordinal n (taken_ordinals json c) i in
    let same = raise-to c.next_pod_ordinal top h up in
    (omega (arith, up, same), omega (arith, over, same))
