-- ===== src/Validator/Simulator/Written.antt =====
-- internal/validator/simulator.go: what the writes of each action leave at the pods that they are at.
use llm_k8s_redis.Prelude.{
  String, Option, some, none, true, false, ◌==◌, string_keys, nat_keys, lookup, is_blank, is_empty,
  Option-cases, Bool-cases, ◌≡◌, refl, inl, inr, arith, ◌∙◌, str_eq_iff, ◌⊎◌,
}
use llm_k8s_redis.Validator.Simulator.State.{
  SimulatedNode, PlanSimulator, blank_node, ensure_node_key, update_node,
}
use llm_k8s_redis.Validator.Simulator.Steps.{
  ready_member, is_ready, declare, node_exists, make_ready, join, slots_of, make_master,
  make_replica, is_member, forget,
}
use llm_k8s_redis.Validator.Simulator.Lookups.{lookup-update, lookup-ensure}
use llm_k8s_redis.Validator.Simulator.Demands.{At, Ensured, Joined, IsReplicaOf}

pub written :
    (pod : String) (f : SimulatedNode → SimulatedNode) (s : PlanSimulator) {m : SimulatedNode}
    → lookup pod s.nodes ≡ some m
    → lookup pod (update_node pod f s).nodes ≡ some (f m)
written pod f s e = ground (arith, lookup-update pod f s pod, str_eq_iff pod pod, e)

unwritten :
    (key pod : String) (f : SimulatedNode → SimulatedNode) (s : PlanSimulator)
    → (key == pod) ≡ false
    → lookup pod (update_node key f s).nodes ≡ lookup pod s.nodes
unwritten key pod f s ne = ground (arith, lookup-update key f s pod, ne)

ready_at : (o : Option SimulatedNode) → is_ready o ≡ true → (n : SimulatedNode) × (o ≡ some n)
ready_at none h = absurd (cc)
ready_at (some n) h = (n, refl)

ready_member_at :
    (o : Option SimulatedNode)
    → ready_member o ≡ true
    → (n : SimulatedNode) × (o ≡ some n) × (n.cluster_member ≡ true)
ready_member_at none h = absurd (cc)
ready_member_at (some n) h = (n, refl, ground arith)

-- The node that is declared is the one that was there, or a new one.
declared :
    (s : PlanSimulator) (pod : String)
    → At (ensure_node_key pod s) pod (λ m. (m.exists ≡ false) ⊎ (lookup pod s.nodes ≡ some m))
declared s pod = elim (Option-cases (lookup pod s.nodes)) [
  | inl e ↦ (blank_node, ground (arith, lookup-ensure pod s pod, str_eq_iff pod pod, e), inl refl)
  | inr (m, e) ↦ (m, ground (arith, lookup-ensure pod s pod, str_eq_iff pod pod, e), inr e)
]

module _ (s : PlanSimulator) (image : String) (same : image ≡ s.spec.image) where
  declared_image :
      (pod : String) (m : SimulatedNode)
      → (m.exists ≡ false) ⊎ (lookup pod s.nodes ≡ some m)
      → ((declare image m).image ≡ s.spec.image)
        ⊎ At s pod (λ x. (x.exists ≡ true) × ((declare image m).image ≡ x.image))
  declared_image pod m (inl fresh) = inl (rw fresh same)
  declared_image pod m (inr known) = elim (Bool-cases m.exists) [
    | inl there ↦ inr (m, known, (there, rw there refl))
    | inr gone ↦ inl (rw gone same)
  ]

joined : (n : SimulatedNode) → Joined (join n)
joined n = elim (Bool-cases (is_blank n.role)) [
  | inl blank ↦ (refl, rw blank refl)
  | inr named ↦ (refl, rw named named)
]

swap : (i j : String) → (i == j) ≡ false → (j == i) ≡ false
swap i j ne = ground (arith, str_eq_iff i j, str_eq_iff j i, ne)

module _ (s t : PlanSimulator) where
  pub Ensured-of :
      (pod image : String)
      → image ≡ s.spec.image
      → t ≡ update_node pod (declare image) (ensure_node_key pod s)
      → Ensured s t pod
  Ensured-of pod image same e =
      let (m, there, before) = declared s pod in
      (
        declare image m,
        rw e (written pod (declare image) _ there),
        (refl, declared_image s image same pod m before),
      )

  pub readied :
      (pod : String)
      → node_exists (lookup pod s.nodes) ≡ true
      → t ≡ update_node pod make_ready s
      → At t pod (λ n. n.ready ≡ true)
  readied pod g e =
      let (n, there) = node_at (lookup pod s.nodes) g in
      (make_ready n, rw e (written pod make_ready s there), refl)
    where
      node_at :
          (o : Option SimulatedNode) → node_exists o ≡ true → (n : SimulatedNode) × (o ≡ some n)
      node_at none f = absurd (cc)
      node_at (some n) f = (n, refl)

  pub met :
      (source target : String)
      → (source == target) ≡ false
      → is_ready (lookup source s.nodes) ≡ true
      → is_ready (lookup target s.nodes) ≡ true
      → t ≡ update_node target join (update_node source join s)
      → At t source Joined × At t target Joined
  met source target apart f g e =
      let (m, at_source) = ready_at (lookup source s.nodes) f in
      let (n, at_target) = ready_at (lookup target s.nodes) g in
      let first =
        unwritten target source join (update_node source join s) (swap source target apart)
        ∙ written source join s at_source in
      let second =
        written target join (update_node source join s)
          (unwritten source target join s apart ∙ at_target) in
      ((join m, rw e first, joined m), (join n, rw e second, joined n))

  pub replicated :
      (master replica : String)
      → ready_member (lookup master s.nodes) ≡ true
      → ready_member (lookup replica (update_node master make_master s).nodes) ≡ true
      → is_empty (slots_of (lookup replica (update_node master make_master s).nodes)) ≡ true
      → t ≡ update_node replica (make_replica master) (update_node master make_master s)
      → At t replica (IsReplicaOf master)
        × ((master ≡ replica) ⊎ At t master (λ n. n.role ≡ "master"))
  replicated master replica c f g e =
      let u = update_node master make_master s in
      let (m, at_master, _) = ready_member_at (lookup master s.nodes) c in
      let (n, there, member) = ready_member_at (lookup replica u.nodes) f in
      let empty : is_empty n.slots ≡ true = rw there at g in
      let first = written replica (make_replica master) u there in
      (
        (make_replica master n, rw e first, (refl, refl, member, empty)),
        elim (Bool-cases (master == replica)) [
          | inl same ↦ inl ((str_eq_iff master replica).0 same)
          | inr apart ↦
              let second =
                unwritten replica master (make_replica master) u (swap master replica apart)
                ∙ written master make_master s at_master in
              inr (make_master m, rw e second, refl)
        ],
      )

  pub forgotten_at :
      (key : String)
      → is_member (lookup key s.nodes) ≡ true
      → is_empty (slots_of (lookup key s.nodes)) ≡ true
      → t ≡ update_node key forget s
      → At t key (λ n. (n.cluster_member ≡ false) × (is_empty n.slots ≡ true))
  forgotten_at key a b e =
      let (n, there) = node_at (lookup key s.nodes) a in
      let empty : is_empty n.slots ≡ true = rw there at b in
      (forget n, rw e (written key forget s there), (refl, empty))
    where
      node_at : (o : Option SimulatedNode) → is_member o ≡ true → (n : SimulatedNode) × (o ≡ some n)
      node_at none f = absurd (cc)
      node_at (some n) f = (n, refl)
