-- ===== src/Controller/Masters.antt =====
-- internal/controller/topology_status.go: what the first loop of `observedNodesMatchSpec` has found
-- when it comes to its end.
use llm_k8s_redis.Prelude.{
  ℕ, String, List, [], ◌∷◌, some, none, true, false, not, ◌&&◌, ◌||◌, ◌==◌, string_keys, nat_keys,
  if◌then◌else◌, ok, insert, lookup, lookup-insert_fresh, lookup-insert_same, lookup-insert_cases,
  has, is_blank, ◌≡◌, sym, subst, ◌∙◌, inl, inr, ◌⊎◌, arith, In, All, keys, Distinct,
  Distinct-insert, Bool-cases, Option-cases, Result-cases, str_eq_iff,
}
use llm_k8s_redis.Plan.{ClusterSpec, ObservedNode}
use llm_k8s_redis.Cluster.Slots.{parse_slot_spec}
use llm_k8s_redis.Cluster.Bounds.{InBounds, AllKeys-insert}
use llm_k8s_redis.Observor.{observed_node_healthy}
use llm_k8s_redis.Controller.Matching.{
  Shards, Covered, serving_node, cover, add_master, master_step,
}

-- A healthy master on a pod, and a slot that it holds.
pub record Holds (n : ObservedNode) (slot : ℕ) : Type 0 where
  pub serving : serving_node n ≡ true
  pub healthy : observed_node_healthy n ≡ true
  pub slots : List ℕ
  pub parsed : parse_slot_spec n.slots ≡ ok slots
  pub held : In slot slots

-- A step that counts a master.
pub record Added (n : ObservedNode) (shards : Shards) (covered : Covered) (more : Shards)
    (wider : Covered) : Type 0 where
  pub serving : serving_node n ≡ true
  pub healthy : observed_node_healthy n ≡ true
  pub fresh : has n.pod shards ≡ false
  pub slots : List ℕ
  pub parsed : parse_slot_spec n.slots ≡ ok slots
  pub covers : cover slots n.pod covered ≡ some wider
  pub adds : insert n.pod 0 shards ≡ more

module _ (spec : ClusterSpec) (n : ObservedNode) (shards : Shards) (covered : Covered) where
  add_master-some :
      (slots : List ℕ) {more : Shards} {wider : Covered}
      → add_master n.pod shards covered (ok slots) ≡ some (more, wider)
      → (cover slots n.pod covered ≡ some wider) × (insert n.pod 0 shards ≡ more)
  add_master-some [] h = cc
  add_master-some (s ∷ slots) h = elim (Option-cases (cover (s ∷ slots) n.pod covered)) [
    | inl bad ↦ absurd (cc (rw bad at h))
    | inr (w, good) ↦
        let pair : some (insert n.pod 0 shards, w) ≡ some _ = rw good at h in
        (good ∙ (cc pair), cc pair)
  ]

  pub master_step-cases :
      (more : Shards) (wider : Covered)
      → master_step spec n shards covered ≡ some (more, wider)
      → (n.pod_exists ≡ true → n.image ≡ spec.image)
        × (((serving_node n ≡ false) × (shards ≡ more) × (covered ≡ wider))
            ⊎ Added n shards covered more wider)
  master_step-cases more wider h = elim (Bool-cases (n.pod_exists && not (n.image == spec.image))) [
    | inl old ↦ absurd (cc (rw old at h))
    | inr current ↦ (
      λ there. (str_eq_iff n.image spec.image).0 (ground (arith, current, there)),
      elim (Bool-cases (serving_node n)) [
        | inr idle ↦
            let same : some (shards, covered) ≡ some (more, wider) = rw (current, idle) at h in
            inl (idle, cc same, cc same)
        | inl serving ↦ inr (added_of serving (rw (current, serving) at h))
      ],
    )
  ]
    where
      added_of :
          serving_node n ≡ true
          → (if is_blank n.pod || not (observed_node_healthy n) || has n.pod shards
              then none
              else add_master n.pod shards covered (parse_slot_spec n.slots))
            ≡ some (more, wider)
          → Added n shards covered more wider
      added_of serving k =
          elim (Bool-cases (is_blank n.pod || not (observed_node_healthy n) || has n.pod shards)) [
            | inl bad ↦ absurd (cc (rw bad at k))
            | inr good ↦ elim (Result-cases (parse_slot_spec n.slots)) [
              | inr (e, bad) ↦ absurd (cc (rw (good, bad) at k))
              | inl (slots, parsed) ↦
                  let (covers, adds) = add_master-some slots (rw (good, parsed) at k) in
                  record {
                    serving = serving;
                    healthy = ground (arith, good);
                    fresh = ground (arith, good);
                    slots = slots;
                    parsed = parsed;
                    covers = covers;
                    adds = adds;
                  }
            ]
          ]

-- What the loop over a master's slots leaves.
pub record Covers (slots : List ℕ) (pod : String) (covered wider : Covered) : Type 0 where
  pub keeps : (k : ℕ) (v : String) → lookup k covered ≡ some v → lookup k wider ≡ some v
  pub gives : (k : ℕ) → In k slots → lookup k wider ≡ some pod
  pub from :
      (k : ℕ) (v : String)
      → lookup k wider ≡ some v
      → (lookup k covered ≡ some v) ⊎ (In k slots × (v ≡ pod))
  pub bounds : All InBounds (keys covered) → All InBounds (keys wider)
  pub distinct : Distinct (keys covered) → Distinct (keys wider)

pub cover-Covers :
    (slots : List ℕ) (pod : String) (covered : Covered) {wider : Covered}
    → All InBounds slots
    → cover slots pod covered ≡ some wider
    → Covers slots pod covered wider
unfolding cover
cover-Covers [] pod covered {wider} b h =
    let same : covered ≡ wider = cc in
    subst (Covers [] pod covered) same (record {
      keeps = λ k v l. l;
      gives = λ k i. absurd i;
      from = λ k v l. inl l;
      bounds = λ m. m;
      distinct = λ d. d;
    })
cover-Covers (s ∷ slots) pod covered {wider} b h = elim (Bool-cases (has s covered)) [
  | inl taken ↦ absurd (cc (rw taken at h))
  | inr free ↦
      let rest = cover-Covers slots pod (insert s pod covered) b.1 (rw free at h) in
      record {
        keeps = λ k v l. rest.keeps k v (lookup-insert_fresh s k pod v covered free l);
        gives = λ k i. elim i [
          | inl same ↦ rest.keeps k pod (
              subst (λ j. lookup j (insert s pod covered) ≡ some pod) same
                (lookup-insert_same s pod covered))
          | inr there ↦ rest.gives k there
        ];
        from = λ k v l. elim (rest.from k v l) [
          | inl before ↦ elim (lookup-insert_cases s k pod v covered before) [
            | inl (same, named) ↦ inr (inl same, sym named)
            | inr old ↦ inl old
          ]
          | inr (there, named) ↦ inr (inr there, named)
        ];
        bounds = λ m. rest.bounds (AllKeys-insert InBounds s pod covered b.0 m);
        distinct = λ d. rest.distinct (Distinct-insert s pod covered d);
      }
]
