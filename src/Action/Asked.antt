-- ===== src/Action/Asked.antt =====
-- internal/action/topology_observer.go: that every ready pod with an address is asked.
use llm_k8s_redis.Prelude.{
  String, List, [], ◌∷◌, Option, some, none, Bool, true, false, not, ◌&&◌, ◌==◌, string_keys,
  insert, lookup, lookup-insert_cases, lookup_nothing, same_of_key, ◌≡◌, inl, inr, ◌⊎◌, In,
  Bool-cases, Option-cases, In-append, append-In, In-sort_by, sort_by-In, In-filter, filter-In,
  and_right, and_right, arith, str_eq_iff, refl, subst, ap, ◌∙◌, ◌↔◌, Distinct, map,
}
use llm_k8s_redis.Api.{ShardTopology, ClusterTopology}
use llm_k8s_redis.Action.Pods.{Pod, usable}
use llm_k8s_redis.Action.Seeds.{
  Pods, index_by_name, seed_of, master_seeds, known_seeds, named_in, seed_less, seeds_after,
  observation_seed_pods,
}

index_sound :
    (name : String) (p : Pod) (pods : List Pod) (out : Pods)
    → lookup name (index_by_name pods out) ≡ some p
    → (lookup name out ≡ some p) ⊎ In p pods
unfolding index_by_name
index_sound name p [] out h = inl h
index_sound name p (q ∷ pods) out h = elim (index_sound name p pods (insert q.name q out) h) [
  | inl there ↦ elim (lookup-insert_cases q.name name q p out there) [
    | inl (_, same) ↦ inr (inl same)
    | inr before ↦ inl before
  ]
  | inr behind ↦ inr (inr behind)
]

seed_of-some : (o : Option Pod) (p : Pod) → seed_of o ≡ some p → (o ≡ some p) × (usable p ≡ true)
seed_of-some none p h = cc
seed_of-some (some q) p h = elim (Bool-cases (usable q)) [
  | inl good ↦
      let same : some q ≡ some p = rw good at h in
      let q≡p : q ≡ p = cc in (same, subst (λ x. usable x ≡ true) q≡p good)
  | inr bad ↦ absurd (cc (rw bad at h))
]

master_seeds-In :
    (p : Pod) (by_name : Pods) (shards : List ShardTopology)
    → In p (master_seeds by_name shards)
    → (name : String) × ((lookup name by_name ≡ some p) × (usable p ≡ true))
unfolding master_seeds
master_seeds-In p by_name [] i = absurd i
master_seeds-In p by_name (sh ∷ shards) i =
    elim (Option-cases (seed_of (lookup sh.master.pod by_name))) [
      | inl passed ↦ master_seeds-In p by_name shards (rw passed at i)
      | inr (q, found) ↦ elim (rw found at i) [
        | inl same ↦
            (sh.master.pod, seed_of-some (lookup sh.master.pod by_name) p (found ∙ ap some same))
        | inr there ↦ master_seeds-In p by_name shards there
      ]
    ]

named_sound :
    (name : String) (pods : List Pod)
    → named_in name pods ≡ true
    → (q : Pod) × (In q pods × (q.name ≡ name))
unfolding named_in
named_sound name [] h = cc
named_sound name (p ∷ pods) h = elim (Bool-cases (p.name == name)) [
  | inl same ↦ (p, (inl refl, (str_eq_iff p.name name).0 same))
  | inr other ↦ let (q, (there, e)) = named_sound name pods (rw other at h) in (q, (inr there, e))
]

and_both : (a b : Bool) → a ≡ false → b ≡ true → not a && b ≡ true
and_both a b p q = ground arith

module _ (pods : List Pod) (topology : Option ClusterTopology) where
  abbrev known : List Pod
  known = known_seeds (index_by_name pods []) topology

  known-In : (p : Pod) → In p known → In p pods × (usable p ≡ true)
  known-In p i = go topology i
    where
      go :
          (t : Option ClusterTopology)
          → In p (known_seeds (index_by_name pods []) t)
          → In p pods × (usable p ≡ true)
      go none j = absurd j
      go (some t) j =
          let (name, (found, good)) = master_seeds-In p (index_by_name pods []) t.shards j in
          (
            elim (index_sound name p pods [] found) [
              | inl empty ↦ absurd (lookup_nothing name empty)
              | inr there ↦ there
            ],
            good,
          )

  -- A pod with the name of a seed is that seed, if no two pods have one name.
  named_known :
      (p : Pod)
      → Distinct (map (λ (q : Pod). q.name) pods)
      → In p pods
      → named_in p.name known ≡ true
      → In p known
  named_known p d i h =
      let (q, (j, same)) = named_sound p.name known h in
      let q≡p : q ≡ p = same_of_key (λ (x : Pod). x.name) q p pods d (known-In q j).0 i same in
      subst (λ x. In x known) q≡p j

  seeds-In : (p : Pod) → In p (seeds_after known pods) → In p pods × (usable p ≡ true)
  seeds-In p i = elim (append-In p known _ i) [
    | inl j ↦ known-In p j
    | inr j ↦
        let (there, good) = filter-In _ p pods (sort_by-In seed_less p _ j) in
        (there, and_right _ _ good)
  ]

  In-seeds :
      (p : Pod)
      → Distinct (map (λ (q : Pod). q.name) pods)
      → In p pods
      → usable p ≡ true
      → In p (seeds_after known pods)
  In-seeds p d i good = In-append p known _ (elim (Bool-cases (named_in p.name known)) [
    | inl named ↦ inl (named_known p d i named)
    | inr fresh ↦ inr (In-sort_by seed_less p _ (In-filter _ p pods i (and_both _ _ fresh good)))
  ])

-- The pods that are asked for CLUSTER NODES are the ready pods with an address, where no two pods
-- have one name.
pub observation_seed_pods_iff :
    (topology : Option ClusterTopology) (pods : List Pod) (p : Pod)
    → Distinct (map (λ (q : Pod). q.name) pods)
    → In p (observation_seed_pods topology pods) ↔ (In p pods × (usable p ≡ true))
unfolding observation_seed_pods
observation_seed_pods_iff topology pods p d =
    (λ i. seeds-In pods topology p i, λ (i, good). In-seeds pods topology p d i good)
