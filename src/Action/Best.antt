-- ===== src/Action/Best.antt =====
-- internal/action/topology_observer.go: which view of the cluster is taken, and the topology of it.
use llm_k8s_redis.Prelude.{
  ℕ, suc, ◌≤◌, List, [], ◌∷◌, map, true, false, ◌&&◌, if◌then◌else◌, length, ◌≡◌, refl, inl, inr,
  In, Bool-cases, arith, subst, sym, ap, map-In, In-map, show, ◌<>◌,
}
use llm_k8s_redis.Api.{NodeTopology, ShardTopology}
use llm_k8s_redis.Cluster.Entries.{Entry, is_master, healthy, replicates}
use llm_k8s_redis.Cluster.Markers.{healthy_masters, healthy_replicas_of}
use llm_k8s_redis.Cluster.Marked.{healthy_masters-In, In-healthy_masters, healthy_replicas_of_iff}
use llm_k8s_redis.Action.Pods.{PodsByIp}
use llm_k8s_redis.Action.Views.{owns_all_slots, ClusterView, better, best_cluster_view}
use llm_k8s_redis.Action.Topology.{master_node, replica_node, build_shards, rebuild_topology}

abbrev size : ClusterView → ℕ
size v = length v.entries

abbrev Full : ClusterView → Type 0
Full v = owns_all_slots v.entries ≡ true

not_better : (best v : ClusterView) → Full best → size v ≤ size best → better best v ≡ false
not_better best v full le = ground arith

kept_best :
    (best : ClusterView) (views : List ClusterView)
    → Full best
    → ((u : ClusterView) → In u views → size u ≤ size best)
    → Full (best_cluster_view best views)
unfolding best_cluster_view
kept_best best [] full le = full
kept_best best (v ∷ views) full le =
    rw (best_cluster_view, not_better best v full (le v (inl refl)))
      (kept_best best views full (λ u i. le u (inr i)))

Full-best :
    (best v : ClusterView) (views : List ClusterView)
    → In v views
    → Full v
    → ((u : ClusterView) → In u (best ∷ views) → size u ≤ size v)
    → Full (best_cluster_view best views)
unfolding best_cluster_view
Full-best best v [] i full le = absurd i
Full-best best v (u ∷ views) (inl same) full le = elim (Bool-cases (better best u)) [
  | inl yes_better ↦
      rw (best_cluster_view, yes_better)
        (kept_best u views (subst Full (sym same) full)
          (λ w i. subst (λ x. size w ≤ size x) (sym same) (le w (inr (inr i)))))
  | inr no_better ↦
      rw (best_cluster_view, no_better)
        (kept_best best views (as_good no_better (subst Full (sym same) full)).0 (λ w i.
          let below = le w (inr (inr i)) in
          let above = (as_good no_better (subst Full (sym same) full)).1 in
          let u≡v = ap size same in omega (arith, below, above, u≡v)))
]
  where
    as_good : better best u ≡ false → Full u → Full best × (size u ≤ size best)
    as_good no_better whole = ground arith
Full-best best v (u ∷ views) (inr i) full le =
    Full-best (if better best u then u else best) v views i full (λ w j. bound w j)
  where
    bound : (w : ClusterView) → In w ((if better best u then u else best) ∷ views) → size w ≤ size v
    bound w (inl same) = elim (Bool-cases (better best u)) [
      | inl yes_better ↦ le w (inr (inl (rw yes_better at same)))
      | inr no_better ↦ le w (inl (rw no_better at same))
    ]
    bound w (inr j) = le w (inr (inr j))

-- If a view owns all slots and no view has more lines, then the view that `bestClusterView` takes owns all
-- slots.
pub best_cluster_view-full :
    (first : ClusterView) (views : List ClusterView) (v : ClusterView)
    → In v (first ∷ views)
    → owns_all_slots v.entries ≡ true
    → ((u : ClusterView) → In u (first ∷ views) → length u.entries ≤ length v.entries)
    → owns_all_slots (best_cluster_view first views).entries ≡ true
best_cluster_view-full first views v (inl same) full le =
    kept_best first views (subst Full (sym same) full)
      (λ u i. subst (λ w. size u ≤ size w) (sym same) (le u (inr i)))
best_cluster_view-full first views v (inr i) full le = Full-best first v views i full le

-- What a shard of the status says of a master and its replicas.
pub record Describes (entries : List Entry) (sh : ShardTopology) (m : Entry) : Type 0 where
  pub listed : In m entries
  pub good : is_master m && healthy m ≡ true
  pub master : sh.master.node_id ≡ m.id
  pub replicas :
      (r : NodeTopology)
      → In r sh.replicas
      → (e : Entry) × (In e entries × ((replicates m.id e ≡ true) × (r.node_id ≡ e.id)))
  pub all_replicas :
      (e : Entry)
      → In e entries
      → replicates m.id e ≡ true
      → (r : NodeTopology) × (In r sh.replicas × (r.node_id ≡ e.id))

module _ (entries : List Entry) (pods : PodsByIp) where
  abbrev shard : ℕ → Entry → ShardTopology
  shard idx m = record {
    id = "shard-" <> show idx;
    master = master_node pods m;
    replicas = map (replica_node pods) (healthy_replicas_of entries m.id);
  }

  shard-Describes :
      (idx : ℕ) (m : Entry)
      → In m entries
      → is_master m && healthy m ≡ true
      → Describes entries (shard idx m) m
  shard-Describes idx m i good = record {
    listed = i;
    good = good;
    master = refl;
    replicas = λ r j.
        let (e, (k, same)) = map-In (replica_node pods) r (healthy_replicas_of entries m.id) j in
        let (there, fits) = (healthy_replicas_of_iff entries m.id e).0 k in
        (e, (there, (fits, ap (λ (x : NodeTopology). x.node_id) (sym same))));
    all_replicas = λ e j fits. (
      replica_node pods e,
      (
        In-map (replica_node pods) e (healthy_replicas_of entries m.id)
            ((healthy_replicas_of_iff entries m.id e).1 (j, fits)),
        refl,
      ),
    );
  }

  shards-of :
      (idx : ℕ) (masters : List Entry) (sh : ShardTopology)
      → In sh (build_shards entries pods idx masters)
      → (m : Entry) × ((i : ℕ) × (In m masters × (shard i m ≡ sh)))
  unfolding build_shards
  shards-of idx [] sh i = absurd i
  shards-of idx (m ∷ masters) sh (inl same) = (m, (idx, (inl refl, same)))
  shards-of idx (m ∷ masters) sh (inr i) =
      let (n, (j, (there, same))) = shards-of (suc idx) masters sh i in (n, (j, (inr there, same)))

  shard-of :
      (idx : ℕ) (masters : List Entry) (m : Entry)
      → In m masters
      → (i : ℕ) × In (shard i m) (build_shards entries pods idx masters)
  unfolding build_shards
  shard-of idx [] m i = absurd i
  shard-of idx (n ∷ masters) m (inl same) = (idx, inl (ap (shard idx) same))
  shard-of idx (n ∷ masters) m (inr i) =
      let (j, there) = shard-of (suc idx) masters m i in (j, inr there)

-- The rebuilt topology has a shard for each healthy master among the lines and for nothing else, and the
-- shard's replicas are the healthy replicas of that master.
pub rebuild_topology-shards :
    (entries : List Entry) (pods : PodsByIp)
    → ((sh : ShardTopology)
        → In sh (rebuild_topology entries pods).shards
        → (m : Entry) × Describes entries sh m)
      × ((m : Entry)
          → In m entries
          → is_master m && healthy m ≡ true
          → (sh : ShardTopology) × (In sh (rebuild_topology entries pods).shards
              × Describes entries sh m))
unfolding rebuild_topology
rebuild_topology-shards entries pods = (
  λ sh i.
      let (m, (j, (k, same))) = shards-of entries pods 0 (healthy_masters entries) sh i in
      let (there, good) = healthy_masters-In entries m k in
      (m, subst (λ x. Describes entries x m) same (shard-Describes entries pods j m there good)),
  λ m i good.
      let (j, there) =
        shard-of entries pods 0 (healthy_masters entries) m (In-healthy_masters entries m i good) in
      (shard entries pods j m, (there, shard-Describes entries pods j m i good)),
)
