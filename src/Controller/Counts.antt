-- ===== src/Controller/Counts.antt =====
-- internal/controller/topology_status.go: what the second loop of `observedNodesMatchSpec`
-- has counted when it comes to its end.
use llm_k8s_redis.Prelude.{
  ℕ, suc, ◌+◌, String, List, [], ◌∷◌, Map, some, Bool, true, false, not, ◌&&◌, ◌==◌, string_keys,
  nat_keys, if◌then◌else◌, insert, lookup, lookup-insert_same, lookup-insert_cases,
  lookup-insert_other, has, has_of_lookup, lookup_of_has, is_blank, ◌≡◌, refl, sym, subst, ap, ◌∙◌,
  inl, inr, ◌⊎◌, arith, Bool-cases, Option-cases, str_eq_iff,
}
use llm_k8s_redis.Plan.{ObservedNode}
use llm_k8s_redis.Observor.{observed_node_healthy}
use llm_k8s_redis.Controller.Matching.{Shards, master_of, replica_node, replica_step, replicas}

abbrev pub Names : Type 0
Names = Map String String

-- A healthy replica of a pod.
abbrev pub follows : Names → String → ObservedNode → Bool
follows names pod n = replica_node n && observed_node_healthy n && master_of names n == pod

abbrev pub replica_count : Names → String → List ObservedNode → ℕ
replica_count names pod [] = 0
replica_count names pod (n ∷ nodes) =
    let rest = replica_count names pod nodes in if follows names pod n then suc rest else rest

-- A step of the second loop that counts a replica.
record Counted (names : Names) (n : ObservedNode) (shards counted : Shards) : Type 0 where
  replica : replica_node n ≡ true
  healthy : observed_node_healthy n ≡ true
  before : ℕ
  known : lookup (master_of names n) shards ≡ some before
  adds : insert (master_of names n) (suc before) shards ≡ counted

module _ (names : Names) (n : ObservedNode) (shards counted : Shards) where
  replica_step-cases :
      replica_step names n shards ≡ some counted
      → ((replica_node n && has (master_of names n) shards ≡ false) × (shards ≡ counted))
        ⊎ Counted names n shards counted
  unfolding has
  replica_step-cases h = elim (Bool-cases (replica_node n)) [
    | inr other ↦ inl (rw other refl, cc (rw other at h))
    | inl replica ↦ elim (Option-cases (lookup (master_of names n) shards)) [
      | inl unknown_pod ↦
          let same : some shards ≡ some counted = rw (replica, unknown_pod) at h in
          inl (rw (replica, has, unknown_pod) refl, cc same)
      | inr (d, known) ↦ elim (Bool-cases (not (is_blank n.pod) && observed_node_healthy n)) [
        | inr bad ↦ absurd (cc (rw (replica, known, bad) at h))
        | inl good ↦
            let same : some (insert (master_of names n) (suc d) shards) ≡ some counted =
              rw (replica, known, good) at h in
            inr (record {
              replica = replica;
              healthy = ground (arith, good);
              before = d;
              known = known;
              adds = cc same;
            })
      ]
    ]
  ]

  idle-follows :
      (pod : String)
      → replica_node n && has (master_of names n) shards ≡ false
      → has pod shards ≡ true
      → follows names pod n ≡ false
  idle-follows pod idle there = elim (Bool-cases (follows names pod n)) [
    | inr apart ↦ apart
    | inl meets ↦
        let m : master_of names n ≡ pod = (str_eq_iff _ pod).0 (ground (arith, meets)) in
        let found : has (master_of names n) shards ≡ true =
          subst (λ x. has x shards ≡ true) (sym m) there in
        let replica : replica_node n ≡ true = ground (arith, meets) in
        absurd (cc (rw (replica, found) at idle))
  ]

  counts :
      (pod : String) (c before : ℕ)
      → replica_node n ≡ true
      → observed_node_healthy n ≡ true
      → lookup (master_of names n) shards ≡ some before
      → lookup pod shards ≡ some c
      → lookup pod (insert (master_of names n) (suc before) shards)
        ≡ some (if follows names pod n then suc c else c)
  counts pod c before replica healthy known l = elim (Bool-cases (master_of names n == pod)) [
    | inl same ↦
        let m : master_of names n ≡ pod = (str_eq_iff _ pod).0 same in
        let meets : follows names pod n ≡ true = rw (replica, healthy, same) refl in
        let one : before ≡ c = cc (ap (λ x. lookup x shards) m, known, l) in
        rw meets (
          subst (λ x. lookup x (insert (master_of names n) (suc before) shards) ≡ some (suc c)) m
            (lookup-insert_same (master_of names n) (suc before) shards
              ∙ ap (λ x. some (suc x)) one))
    | inr other ↦
        let apart : follows names pod n ≡ false = ground (arith, other) in
        rw apart (
          lookup-insert_other (master_of names n) pod (suc before) shards
            (λ m. cc (other, (str_eq_iff _ pod).1 m))
          ∙ l)
  ]

  -- What a step does to the count of a shard.
  replica_step-count :
      (pod : String) (c : ℕ)
      → replica_step names n shards ≡ some counted
      → lookup pod shards ≡ some c
      → lookup pod counted ≡ some (if follows names pod n then suc c else c)
  replica_step-count pod c h l = elim (replica_step-cases h) [
    | inl (idle, same) ↦
        rw (idle-follows pod idle (has_of_lookup pod c shards l))
          (subst (λ x. lookup pod x ≡ some c) same l)
    | inr k ↦
        subst (λ x. lookup pod x ≡ some (if follows names pod n then suc c else c)) k.adds
          (counts pod c k.before k.replica k.healthy k.known l)
  ]

  -- No step adds a shard.
  replica_step-has :
      (pod : String)
      → replica_step names n shards ≡ some counted
      → has pod counted ≡ true
      → has pod shards ≡ true
  replica_step-has pod h there = elim (replica_step-cases h) [
    | inl (idle, same) ↦ subst (λ x. has pod x ≡ true) (sym same) there
    | inr k ↦
        let (d, l) =
          lookup_of_has pod (insert (master_of names n) (suc k.before) shards)
            (subst (λ x. has pod x ≡ true) (sym k.adds) there) in
        elim (lookup-insert_cases (master_of names n) pod (suc k.before) d shards l) [
          | inl (m, _) ↦
              subst (λ x. has x shards ≡ true) m
                (has_of_lookup (master_of names n) k.before shards k.known)
          | inr before ↦ has_of_lookup pod d shards before
        ]
  ]

pub replicas-count :
    (names : Names) (nodes : List ObservedNode) (shards counted : Shards) (pod : String) (c : ℕ)
    → replicas names nodes shards ≡ some counted
    → lookup pod shards ≡ some c
    → lookup pod counted ≡ some (replica_count names pod nodes + c)
unfolding replicas
replicas-count names [] shards counted pod c h l =
    let same : shards ≡ counted = cc h in
    subst (λ x. lookup pod x ≡ some (0 + c)) same (l ∙ ap (λ x. some x) (omega arith))
replicas-count names (n ∷ nodes) shards counted pod c h l =
    elim (Option-cases (replica_step names n shards)) [
      | inl bad ↦ absurd (cc (rw (replicas, bad) at h))
      | inr (mid, good) ↦
          replicas-count names nodes mid counted pod _ (rw (replicas, good) at h)
            (replica_step-count names n shards mid pod c good l)
          ∙ ap (λ x. some x) (sum (follows names pod n) (replica_count names pod nodes))
    ]
  where
    sum :
        (b : Bool) (rest : ℕ) → rest + (if b then suc c else c) ≡ (if b then suc rest else rest) + c
    sum true rest = omega arith
    sum false rest = omega arith

pub replicas-has :
    (names : Names) (nodes : List ObservedNode) (shards counted : Shards) (pod : String)
    → replicas names nodes shards ≡ some counted
    → has pod counted ≡ true
    → has pod shards ≡ true
unfolding replicas
replicas-has names [] shards counted pod h there =
    let same : shards ≡ counted = cc h in subst (λ x. has pod x ≡ true) (sym same) there
replicas-has names (n ∷ nodes) shards counted pod h there =
    elim (Option-cases (replica_step names n shards)) [
      | inl bad ↦ absurd (cc (rw (replicas, bad) at h))
      | inr (mid, good) ↦
          replica_step-has names n shards mid pod good
            (replicas-has names nodes mid counted pod (rw (replicas, good) at h) there)
    ]
