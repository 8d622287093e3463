-- ===== src/Controller/Found.antt =====
-- internal/controller/topology_status.go: what the first loop of `observedNodesMatchSpec` has found
-- when it comes to its end.
use llm_k8s_redis.Prelude.{
  ℕ, suc, ◌+◌, String, List, [], ◌∷◌, some, true, false, string_keys, nat_keys, if◌then◌else◌,
  insert, lookup, lookup-insert_fresh, lookup-insert_same, lookup-insert_cases, length-insert_fresh,
  length, ◌≡◌, refl, sym, subst, ap, ◌∙◌, inl, inr, ◌⊎◌, arith, In, All, keys, Distinct,
  Distinct-insert, Option-cases,
}
use llm_k8s_redis.Plan.{ClusterSpec, ObservedNode}
use llm_k8s_redis.Cluster.Slots.{parse_slot_spec}
use llm_k8s_redis.Cluster.Bounds.{InBounds, parse_slot_spec-InBounds}
use llm_k8s_redis.Observor.{observed_node_healthy}
use llm_k8s_redis.Controller.Matching.{Shards, Covered, serving_node, master_step, masters}
use llm_k8s_redis.Controller.Masters.{Holds, Added, master_step-cases, cover-Covers}

abbrev pub serving_count : List ObservedNode → ℕ
serving_count [] = 0
serving_count (n ∷ nodes) =
    let rest = serving_count nodes in if serving_node n then suc rest else rest

-- What the first loop has found between two of its states.
pub record Found (spec : ClusterSpec) (nodes : List ObservedNode) (shards more : Shards)
    (covered wider : Covered) : Type 0 where
  pub images : (n : ObservedNode) → In n nodes → n.pod_exists ≡ true → n.image ≡ spec.image
  pub keeps : (k : ℕ) (v : String) → lookup k covered ≡ some v → lookup k wider ≡ some v
  pub owner : (n : ObservedNode) (k : ℕ) → In n nodes → Holds n k → lookup k wider ≡ some n.pod
  pub from :
      (k : ℕ) (v : String)
      → lookup k wider ≡ some v
      → (lookup k covered ≡ some v)
        ⊎ ((n : ObservedNode) × (In n nodes × (Holds n k × (n.pod ≡ v))))
  pub stays : (pod : String) (c : ℕ) → lookup pod shards ≡ some c → lookup pod more ≡ some c
  pub shard : (n : ObservedNode) → In n nodes → serving_node n ≡ true → lookup n.pod more ≡ some 0
  pub of :
      (pod : String) (c : ℕ)
      → lookup pod more ≡ some c
      → (lookup pod shards ≡ some c)
        ⊎ ((n : ObservedNode) × (In n nodes
              × ((serving_node n ≡ true) × (observed_node_healthy n ≡ true) × (n.pod ≡ pod))))
  pub count : length more ≡ serving_count nodes + length shards
  pub bounds : All InBounds (keys covered) → All InBounds (keys wider)
  pub distinct : Distinct (keys covered) → Distinct (keys wider)
  pub once : Distinct (keys shards) → Distinct (keys more)

pass_on : {n m : ObservedNode} → n ≡ m → (P : ObservedNode → Type 0) → P n → P m
pass_on same P p = subst P same p

apart : {n m : ObservedNode} → n ≡ m → serving_node n ≡ false → serving_node m ≡ true → ⊥
apart same idle serving = cc (ap serving_node same, idle, serving)

module _ (spec : ClusterSpec) (n : ObservedNode) (nodes : List ObservedNode) where
  Found-skip :
      (shards more : Shards) (covered wider : Covered)
      → (n.pod_exists ≡ true → n.image ≡ spec.image)
      → serving_node n ≡ false
      → Found spec nodes shards more covered wider
      → Found spec (n ∷ nodes) shards more covered wider
  Found-skip shards more covered wider image idle f = record {
    images = λ m i there. elim i [
      | inl same ↦ pass_on same (λ x. x.pod_exists ≡ true → x.image ≡ spec.image) image there
      | inr j ↦ f.images m j there
    ];
    keeps = f.keeps;
    owner = λ m k i holds. elim i [
      | inl same ↦ absurd (apart same idle holds.serving)
      | inr j ↦ f.owner m k j holds
    ];
    from = λ k v l. elim (f.from k v l) [
      | inl before ↦ inl before
      | inr (m, (i, found)) ↦ inr (m, (inr i, found))
    ];
    stays = f.stays;
    shard = λ m i serving. elim i [
      | inl same ↦ absurd (apart same idle serving)
      | inr j ↦ f.shard m j serving
    ];
    of = λ pod c l. elim (f.of pod c l) [
      | inl before ↦ inl before
      | inr (m, (i, found)) ↦ inr (m, (inr i, found))
    ];
    count = rw idle f.count;
    bounds = f.bounds;
    distinct = f.distinct;
    once = f.once;
  }

  Found-add :
      (shards mid more : Shards) (covered seen wider : Covered)
      → (n.pod_exists ≡ true → n.image ≡ spec.image)
      → Added n shards covered mid seen
      → Found spec nodes mid more seen wider
      → Found spec (n ∷ nodes) shards more covered wider
  Found-add shards mid more covered seen wider image a f =
      let c =
        cover-Covers a.slots n.pod covered (parse_slot_spec-InBounds n.slots a.parsed) a.covers in
      record {
        images = λ m i there. elim i [
          | inl same ↦ pass_on same (λ x. x.pod_exists ≡ true → x.image ≡ spec.image) image there
          | inr j ↦ f.images m j there
        ];
        keeps = λ k v l. f.keeps k v (c.keeps k v l);
        owner = λ m k i holds. elim i [
          | inl same ↦
              let one : a.slots ≡ holds.slots =
                cc (
                  a.parsed,
                  holds.parsed,
                  ap (λ (x : ObservedNode). parse_slot_spec x.slots) same,
                ) in
              f.keeps k m.pod (
                c.gives k (subst (In k) (sym one) holds.held)
                ∙ ap (λ (x : ObservedNode). some x.pod) same)
          | inr j ↦ f.owner m k j holds
        ];
        from = λ k v l. elim (f.from k v l) [
          | inl before ↦ elim (c.from k v before) [
            | inl old ↦ inl old
            | inr (held, named) ↦ inr (
              n,
              (
                inl refl,
                (
                  record {
                    serving = a.serving;
                    healthy = a.healthy;
                    slots = a.slots;
                    parsed = a.parsed;
                    held = held;
                  },
                  sym named,
                ),
              ),
            )
          ]
          | inr (m, (i, found)) ↦ inr (m, (inr i, found))
        ];
        stays = λ pod d l.
            f.stays pod d (added pod d (lookup-insert_fresh n.pod pod 0 d shards a.fresh l));
        shard = λ m i serving. elim i [
          | inl same ↦
              pass_on same (λ x. lookup x.pod more ≡ some 0)
                (f.stays n.pod 0 (added n.pod 0 (lookup-insert_same n.pod 0 shards)))
          | inr j ↦ f.shard m j serving
        ];
        of = λ pod d l. elim (f.of pod d l) [
          | inl before ↦ elim (lookup-insert_cases n.pod pod 0 d shards (old pod d before)) [
            | inl (named, _) ↦ inr (n, (inl refl, (a.serving, a.healthy, named)))
            | inr kept ↦ inl kept
          ]
          | inr (m, (i, found)) ↦ inr (m, (inr i, found))
        ];
        count = rw a.serving (omega (arith, f.count, longer));
        bounds = λ b. f.bounds (c.bounds b);
        distinct = λ d. f.distinct (c.distinct d);
        once = λ d.
            f.once
              (subst (λ (x : Shards). Distinct (keys x)) a.adds (Distinct-insert n.pod 0 shards d));
      }
    where
      longer : length mid ≡ suc (length shards)
      longer = sym (ap length a.adds) ∙ length-insert_fresh n.pod 0 shards a.fresh

      added :
          (pod : String) (d : ℕ)
          → lookup pod (insert n.pod 0 shards) ≡ some d
          → lookup pod mid ≡ some d
      added pod d l = subst (λ x. lookup pod x ≡ some d) a.adds l

      old :
          (pod : String) (d : ℕ)
          → lookup pod mid ≡ some d
          → lookup pod (insert n.pod 0 shards) ≡ some d
      old pod d l = subst (λ x. lookup pod x ≡ some d) (sym a.adds) l

Found-nil :
    (spec : ClusterSpec) (shards : Shards) (covered : Covered)
    → Found spec [] shards shards covered covered
Found-nil spec shards covered = record {
  images = λ n i there. absurd i;
  keeps = λ k v l. l;
  owner = λ n k i holds. absurd i;
  from = λ k v l. inl l;
  stays = λ pod c l. l;
  shard = λ n i serving. absurd i;
  of = λ pod c l. inl l;
  count = omega arith;
  bounds = λ b. b;
  distinct = λ d. d;
  once = λ d. d;
}

pub masters-Found :
    (spec : ClusterSpec) (nodes : List ObservedNode) (shards : Shards) (covered : Covered)
    (more : Shards) (wider : Covered)
    → masters spec nodes shards covered ≡ some (more, wider)
    → Found spec nodes shards more covered wider
unfolding masters
masters-Found spec [] shards covered more wider h =
    let shards≡more : shards ≡ more = cc h in
    let covered≡wider : covered ≡ wider = cc h in
    subst (λ x. Found spec [] shards x covered wider) shards≡more
      (subst (λ y. Found spec [] shards shards covered y) covered≡wider
        (Found-nil spec shards covered))
masters-Found spec (n ∷ nodes) shards covered more wider h =
    elim (Option-cases (master_step spec n shards covered)) [
      | inl bad ↦ absurd (cc (rw (masters, bad) at h))
      | inr ((mid, seen), good) ↦
          let rest = masters-Found spec nodes mid seen more wider (rw (masters, good) at h) in
          let (image, cases) = master_step-cases spec n shards covered mid seen good in
          elim cases [
            | inl (idle, same_shards, same_covered) ↦
                Found-skip spec n nodes shards more covered wider image idle (
                  subst (λ x. Found spec nodes x more covered wider) (sym same_shards)
                    (subst (λ y. Found spec nodes mid more y wider) (sym same_covered) rest))
            | inr a ↦ Found-add spec n nodes shards mid more covered seen wider image a rest
          ]
    ]
