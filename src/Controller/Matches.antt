-- ===== src/Controller/Matches.antt =====
-- internal/controller/topology_status.go: what the observed nodes are when they match the spec.
use llm_k8s_redis.Prelude.{
  ℕ, ◌<◌, String, List, [], ◌∷◌, Option, some, none, Bool, true, false, not, ◌&&◌, ◌||◌, ◌==◌,
  string_keys, nat_keys, lookup, lookup_nothing, has, lookup_of_has, is_blank, is_empty, length,
  ◌≡◌, refl, sym, subst, ◌∙◌, inl, inr, ◌⊎◌, arith, In, Bool-cases, str_eq_iff, nat_eq_iff, nat_eq,
  leb, and_left, and_right,
}
use llm_k8s_redis.Plan.{ClusterSpec, ObservedNode}
use llm_k8s_redis.Cluster.Full.{full_has}
use llm_k8s_redis.Controller.Matching.{
  Shards, Covered, node_names, serving_node, masters, master_of, replicas, accounted, all_accounted,
  all_replicated, match_rest, match_masters, observed_nodes_match_spec,
}
use llm_k8s_redis.Controller.Masters.{Holds}
use llm_k8s_redis.Controller.Found.{Found, serving_count, masters-Found}
use llm_k8s_redis.Controller.Counts.{Names, replica_count, replicas-count, replicas-has}

-- The cluster that the spec asks for, as the nodes show it.
pub record Matches (spec : ClusterSpec) (nodes : List ObservedNode) : Type 0 where
  pub images : (n : ObservedNode) → In n nodes → n.pod_exists ≡ true → n.image ≡ spec.image
  pub masters : serving_count nodes ≡ spec.shards
  pub covered : (slot : ℕ) → slot < 16384 → (n : ObservedNode) × (In n nodes × Holds n slot)
  pub exclusive :
      (n m : ObservedNode) (slot : ℕ)
      → In n nodes
      → In m nodes
      → Holds n slot
      → Holds m slot
      → n.pod ≡ m.pod
  pub replicated :
      (n : ObservedNode)
      → In n nodes
      → serving_node n ≡ true
      → replica_count (node_names nodes []) n.pod nodes ≡ spec.replicas_per_shard
  pub belong :
      (n : ObservedNode)
      → In n nodes
      → (n.pod_exists ≡ true) ⊎ (n.redis_seen ≡ true)
      → (m : ObservedNode) × (In m nodes
          × (serving_node m ≡ true)
          × (((n.role ≡ "master") × (m.pod ≡ n.pod))
              ⊎ ((n.role ≡ "replica") × (m.pod ≡ master_of (node_names nodes []) n))))

all_replicated-In :
    (count : ℕ) (shards : Shards) (pod : String) (c : ℕ)
    → all_replicated count shards ≡ true
    → lookup pod shards ≡ some c
    → c ≡ count
unfolding all_replicated lookup
all_replicated-In count [] pod c h l = absurd (lookup_nothing pod l)
all_replicated-In count ((p, d) ∷ shards) pod c h l = elim (Bool-cases (p == pod)) [
  | inl same ↦
      let d≡c : some d ≡ some c = rw same at l in
      let equal : d ≡ count = (nat_eq_iff d count).0 (ground (arith, h)) in cc
  | inr other ↦
      let rest : all_replicated count shards ≡ true = ground (arith, h) in
      all_replicated-In count shards pod c rest (rw other at l)
]

all_accounted-In :
    (names : Names) (shards : Shards) (nodes : List ObservedNode) (n : ObservedNode)
    → all_accounted names shards nodes ≡ true
    → In n nodes
    → accounted names shards n ≡ true
unfolding all_accounted
all_accounted-In names shards [] n h i = absurd i
all_accounted-In names shards (m ∷ nodes) n h (inl same) =
    subst (λ x. accounted names shards x ≡ true) same (ground (arith, h))
all_accounted-In names shards (m ∷ nodes) n h (inr i) =
    let rest : all_accounted names shards nodes ≡ true = ground (arith, h) in
    all_accounted-In names shards nodes n rest i

accounted-cases :
    (names : Names) (shards : Shards) (n : ObservedNode)
    → accounted names shards n ≡ true
    → (n.pod_exists ≡ true) ⊎ (n.redis_seen ≡ true)
    → ((n.role ≡ "master") × (has n.pod shards ≡ true))
      ⊎ ((n.role ≡ "replica") × (has (master_of names n) shards ≡ true))
accounted-cases names shards n h there =
    elim (Bool-cases (n.role == "master" && not (is_blank n.slots) && has n.pod shards)) [
      | inl master ↦
          let role : (n.role == "master") ≡ true = ground (arith, master) in
          let found : has n.pod shards ≡ true = ground (arith, master) in
          inl ((str_eq_iff n.role "master").0 role, found)
      | inr other ↦ elim (Bool-cases (n.role == "replica" && has (master_of names n) shards)) [
        | inl replica ↦
            let role : (n.role == "replica") ≡ true = ground (arith, replica) in
            let found : has (master_of names n) shards ≡ true = ground (arith, replica) in
            inr ((str_eq_iff n.role "replica").0 role, found)
        | inr neither ↦ absurd (gone (rw (other, neither) at h) there)
      ]
    ]
  where
    gone :
        not n.pod_exists && not n.redis_seen || false || false ≡ true
        → (n.pod_exists ≡ true) ⊎ (n.redis_seen ≡ true)
        → ⊥
    gone a (inl b) = cc (rw b at a)
    gone a (inr b) = ground (arith, a, b)

module _ (spec : ClusterSpec) (nodes : List ObservedNode) where
  abbrev names : Names
  names = node_names nodes []

  -- What the loops have left where the answer is yes.
  record Parts : Type 0 where
    shards : Shards
    covered : Covered
    counted : Shards
    found : masters spec nodes [] [] ≡ some (shards, covered)
    count : replicas names nodes shards ≡ some counted
    size : length shards ≡ spec.shards
    full : length covered ≡ 16384
    accounts : all_accounted names counted nodes ≡ true
    counts : all_replicated spec.replicas_per_shard counted ≡ true

  rest_parts :
      (shards : Shards) (o : Option Shards)
      → replicas names nodes shards ≡ o
      → match_rest spec nodes names o ≡ true
      → (counted : Shards) × ((replicas names nodes shards ≡ some counted)
          × (all_accounted names counted nodes ≡ true)
          × (all_replicated spec.replicas_per_shard counted ≡ true))
  rest_parts shards none e h = cc h
  rest_parts shards (some counted) e h = (counted, (e, and_left _ _ h, and_right _ _ h))

  master_parts :
      (o : Option (Shards × Covered))
      → masters spec nodes [] [] ≡ o
      → match_masters spec nodes names o ≡ true
      → Parts
  master_parts none e h = cc h
  master_parts (some (shards, covered)) e h =
      let sizes : Bool = nat_eq (length shards) spec.shards && nat_eq (length covered) 16384 in
      let more = and_left sizes (match_rest spec nodes names (replicas names nodes shards)) h in
      let rest = and_right sizes (match_rest spec nodes names (replicas names nodes shards)) h in
      let (counted, (count, accounts, counts)) =
        rest_parts shards (replicas names nodes shards) refl rest in
      record {
        shards = shards;
        covered = covered;
        counted = counted;
        found = e;
        count = count;
        size =
            (nat_eq_iff _ _).0
              (and_left (nat_eq (length shards) spec.shards) (nat_eq (length covered) 16384) more);
        full =
            (nat_eq_iff _ _).0
              (and_right (nat_eq (length shards) spec.shards) (nat_eq (length covered) 16384) more);
        accounts = accounts;
        counts = counts;
      }

  match_parts : observed_nodes_match_spec nodes spec ≡ true → Parts
  unfolding observed_nodes_match_spec
  match_parts h =
      let found : Bool = match_masters spec nodes names (masters spec nodes [] []) in
      master_parts (masters spec nodes [] []) refl
        (and_right (not (is_empty nodes) && leb 1 spec.shards) found h)

  owner_of :
      (p : Parts)
      → Found spec nodes [] p.shards [] p.covered
      → (pod : String) → has pod p.counted ≡ true
      → (m : ObservedNode) × (In m nodes × (serving_node m ≡ true) × (m.pod ≡ pod))
  owner_of p f pod there =
      let (c, l) =
        lookup_of_has pod p.shards
          (replicas-has names nodes p.shards p.counted pod p.count there) in
      elim (f.of pod c l) [
        | inl none_before ↦ absurd (lookup_nothing pod none_before)
        | inr (m, (j, (serving, _, same))) ↦ (m, (j, serving, same))
      ]

-- Where `observedNodesMatchSpec` says yes, the nodes are the cluster of the spec: as many serving masters
-- as it has shards, each slot held by a healthy one and by no two pods, as many healthy replicas of each
-- as the spec asks for, every pod on its image, and no other node that has a pod or is in the cluster.
pub observed_nodes_match_spec-Matches :
    (nodes : List ObservedNode) (spec : ClusterSpec)
    → observed_nodes_match_spec nodes spec ≡ true
    → Matches spec nodes
observed_nodes_match_spec-Matches nodes spec h =
    let p = match_parts spec nodes h in
    let f = masters-Found spec nodes [] [] p.shards p.covered p.found in
    record {
      images = f.images;
      masters = omega (arith, f.count, p.size);
      covered = λ slot lt.
          let (v, l) =
            lookup_of_has slot p.covered
              (full_has p.covered slot (f.bounds tt) (f.distinct tt) p.full lt) in
          elim (f.from slot v l) [
            | inl none_before ↦ absurd (lookup_nothing slot none_before)
            | inr (n, (i, (holds, _))) ↦ (n, (i, holds))
          ];
      exclusive = λ n m slot i j a b.
          let one : some n.pod ≡ some m.pod = sym (f.owner n slot i a) ∙ f.owner m slot j b in
          cc one;
      replicated = λ n i serving.
          let c =
            replicas-count (names spec nodes) nodes p.shards p.counted n.pod 0 p.count
              (f.shard n i serving) in
          let all = all_replicated-In spec.replicas_per_shard p.counted n.pod _ p.counts c in
          omega (arith, all);
      belong = λ n i there.
          let k =
            accounted-cases (names spec nodes) p.counted n
              (all_accounted-In (names spec nodes) p.counted nodes n p.accounts i) there in
          elim k [
            | inl (role, shard) ↦
                let (m, (j, serving, same)) = owner_of spec nodes p f n.pod shard in
                (m, (j, serving, inl (role, same)))
            | inr (role, shard) ↦
                let (m, (j, serving, same)) =
                  owner_of spec nodes p f (master_of (names spec nodes) n) shard in
                (m, (j, serving, inr (role, same)))
          ];
    }
