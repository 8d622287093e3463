-- ===== src/Action/Seen.antt =====
-- internal/action/topology_observer.go: what each observed node says, and where it stands in the list.
use llm_k8s_redis.Prelude.{
  String, List, [], ◌∷◌, Option, some, none, true, false, ◌==◌, string_keys, ◌≡◌, ◌⊎◌, inl, inr,
  refl, sym, subst, ap, In, All, All-append, All-sort_by, find-In, Bool-cases, has, is_blank,
  join_with,
}
use llm_k8s_redis.Plan.{ObservedNode}
use llm_k8s_redis.Api.{ClusterTopology}
use llm_k8s_redis.Cluster.Entries.{Entry, find_by_ip, find_by_id}
use llm_k8s_redis.Validator.Simulator.Start.{IsObserved}
use llm_k8s_redis.Action.Pods.{Pod, pod_ready, is_deleting, pod_redis_image}
use llm_k8s_redis.Action.Observed.{
  NodeMaps, redis_role, fill_observed_node, pod_node, or_by_id, pod_entry, filled, Seen, pod_nodes,
  ghost, ghosts, observed_less, node_maps, unsorted_nodes, observed_nodes,
}

-- The node that stands for a pod.
pub record Shows (p : Pod) (n : ObservedNode) : Type 0 where
  pub pod : n.pod ≡ p.name
  pub exists_yes : n.pod_exists ≡ true
  pub image : n.image ≡ pod_redis_image p
  pub ready : n.ready ≡ pod_ready p
  pub deleting : n.deleting ≡ is_deleting p

-- The node that says what a line of CLUSTER NODES says.
pub record Tells (e : Entry) (n : ObservedNode) : Type 0 where
  pub redis_seen : n.redis_seen ≡ true
  pub node_id : n.node_id ≡ e.id
  pub role : n.role ≡ redis_role e
  pub slots : n.slots ≡ join_with "," e.slots
  pub flags : n.flags ≡ e.flags
  pub link_state : n.link_state ≡ e.link_state

module _ (maps : NodeMaps) (entries : List Entry) where
  pub filled-Shows : (p : Pod) (e : Option Entry) → Shows p (filled maps (pod_node maps p) e)
  unfolding fill_observed_node
  filled-Shows p none = record {
    pod = refl;
    exists_yes = refl;
    image = refl;
    ready = refl;
    deleting = refl;
  }
  filled-Shows p (some e) = record {
    pod = refl;
    exists_yes = refl;
    image = refl;
    ready = refl;
    deleting = refl;
  }

  pub fill-Tells :
      (n : ObservedNode) (e : Entry) → Tells e (fill_observed_node n e maps.node_id_to_pod)
  unfolding fill_observed_node
  fill-Tells n e = record {
    redis_seen = refl;
    node_id = refl;
    role = refl;
    slots = refl;
    flags = refl;
    link_state = refl;
  }

  filled-IsObserved : (p : Pod) (e : Option Entry) → IsObserved (filled maps (pod_node maps p) e)
  unfolding fill_observed_node
  filled-IsObserved p none = record { ready_pod = λ h. refl; slots_seen = λ h. cc }
  filled-IsObserved p (some e) = record { ready_pod = λ h. refl; slots_seen = λ h. refl }

  pod_nodes-IsObserved : (pods : List Pod) → All IsObserved (pod_nodes maps entries pods)
  unfolding pod_nodes
  pod_nodes-IsObserved [] = tt
  pod_nodes-IsObserved (p ∷ pods) =
      (filled-IsObserved p (pod_entry maps entries p), pod_nodes-IsObserved pods)

  ghost-IsObserved : (e : Entry) → IsObserved (ghost maps e)
  unfolding fill_observed_node
  ghost-IsObserved e = record { ready_pod = λ h. cc; slots_seen = λ h. refl }

  ghosts-IsObserved : (seen : Seen) (l : List Entry) → All IsObserved (ghosts maps seen l)
  unfolding ghosts
  ghosts-IsObserved seen [] = tt
  ghosts-IsObserved seen (e ∷ l) = elim (Bool-cases (has e.id seen)) [
    | inl known ↦ rw known (ghosts-IsObserved seen l)
    | inr fresh ↦ rw fresh (ghost-IsObserved e, ghosts-IsObserved seen l)
  ]

-- The observed nodes are what the simulator's start asks of them: a node that is ready has a pod, and
-- one with slots is listed by Redis.
pub observed_nodes-IsObserved :
    (topology : Option ClusterTopology) (pods : List Pod) (entries : List Entry)
    → All IsObserved (observed_nodes topology pods entries)
unfolding observed_nodes
observed_nodes-IsObserved topology pods entries =
    let maps = node_maps topology pods entries in
    All-sort_by observed_less IsObserved (unsorted_nodes maps pods entries) (
      All-append IsObserved (pod_nodes maps entries pods) _ (pod_nodes-IsObserved maps entries pods)
        (ghosts-IsObserved maps entries _ entries))

module _ (maps : NodeMaps) (entries : List Entry) where
  pub In-pod_nodes :
      (p : Pod) (pods : List Pod)
      → In p pods
      → In (filled maps (pod_node maps p) (pod_entry maps entries p)) (pod_nodes maps entries pods)
  unfolding pod_nodes
  In-pod_nodes p [] i = i
  In-pod_nodes p (q ∷ pods) (inl e) =
      inl (ap (λ r. filled maps (pod_node maps r) (pod_entry maps entries r)) e)
  In-pod_nodes p (q ∷ pods) (inr i) = inr (In-pod_nodes p pods i)

  pub pod_nodes-In :
      (n : ObservedNode) (pods : List Pod)
      → In n (pod_nodes maps entries pods)
      → (p : Pod) × (In p pods × (filled maps (pod_node maps p) (pod_entry maps entries p) ≡ n))
  unfolding pod_nodes
  pod_nodes-In n [] i = absurd i
  pod_nodes-In n (p ∷ pods) (inl e) = (p, (inl refl, e))
  pod_nodes-In n (p ∷ pods) (inr i) =
      let (q, (there, e)) = pod_nodes-In n pods i in (q, (inr there, e))

  pub In-ghosts :
      (e : Entry) (seen : Seen) (l : List Entry)
      → In e l
      → has e.id seen ≡ false
      → In (ghost maps e) (ghosts maps seen l)
  unfolding ghosts
  In-ghosts e seen [] i fresh = absurd i
  In-ghosts e seen (d ∷ l) (inl same) fresh =
      let new : has d.id seen ≡ false =
        subst (λ (x : Entry). has x.id seen ≡ false) (sym same) fresh in
      rw new (inl (ap (ghost maps) same))
  In-ghosts e seen (d ∷ l) (inr i) fresh = elim (Bool-cases (has d.id seen)) [
    | inl known ↦ rw known (In-ghosts e seen l i fresh)
    | inr new ↦ rw new (inr (In-ghosts e seen l i fresh))
  ]

  pub ghosts-In :
      (n : ObservedNode) (seen : Seen) (l : List Entry)
      → In n (ghosts maps seen l)
      → (e : Entry) × (In e l × ((ghost maps e ≡ n) × (has e.id seen ≡ false)))
  unfolding ghosts
  ghosts-In n seen [] i = absurd i
  ghosts-In n seen (d ∷ l) i = elim (Bool-cases (has d.id seen)) [
    | inl known ↦ let (e, (there, q)) = ghosts-In n seen l (rw known at i) in (e, (inr there, q))
    | inr new ↦ elim (rw new at i) [
      | inl q ↦ (d, (inl refl, (q, new)))
      | inr j ↦ let (e, (there, q)) = ghosts-In n seen l j in (e, (inr there, q))
    ]
  ]

  or_by_id-In :
      (first : Option Entry) (id : String) (e : Entry)
      → or_by_id first id entries ≡ some e
      → (first ≡ some e) ⊎ In e entries
  unfolding find_by_id
  or_by_id-In (some d) id e h = inl h
  or_by_id-In none id e h = elim (Bool-cases (is_blank id)) [
    | inl blank ↦ absurd (cc (rw blank at h))
    | inr named ↦ inr (find-In (λ d. d.id == id) e entries (rw named at h)).0
  ]

  find_by_ip-In : (ip : String) (e : Entry) → find_by_ip entries ip ≡ some e → In e entries
  unfolding find_by_ip
  find_by_ip-In ip e h = elim (Bool-cases (is_blank ip)) [
    | inl blank ↦ absurd (cc (rw blank at h))
    | inr named ↦ (find-In _ e entries (rw named at h)).0
  ]

  pub pod_entry-In : (p : Pod) (e : Entry) → pod_entry maps entries p ≡ some e → In e entries
  unfolding pod_entry
  pod_entry-In p e h = elim (or_by_id-In (find_by_ip entries p.pod_ip) _ e h) [
    | inl found ↦ find_by_ip-In p.pod_ip e found
    | inr there ↦ there
  ]
