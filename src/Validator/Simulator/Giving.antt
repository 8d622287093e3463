-- ===== src/Validator/Simulator/Giving.antt =====
-- Giving and moving slots keeps the invariant of the simulated state.
use llm_k8s_redis.Prelude.{
  ℕ, String, [], ◌∷◌, Map, some, true, false, ◌==◌, string_keys, nat_keys, lookup, erase, keys,
  has-insert, has-erase, Distinct, Distinct-insert, Distinct-erase, is_empty, Option-cases,
  Bool-cases, ◌≡◌, ◌≢◌, refl, inl, inr, arith, subst, nat_eq_iff, str_eq_iff,
}
use llm_k8s_redis.Cluster.Bounds.{InBounds}
use llm_k8s_redis.Validator.Simulator.State.{
  SimulatedNode, PlanSimulator, update_node, give_slot, with_slot,
}
use llm_k8s_redis.Validator.Simulator.Steps.{without_slot, move_slot, is_member}
use llm_k8s_redis.Validator.Simulator.Lookups.{
  lookup-update, owners-update, lookup-give, owners-give,
}
use llm_k8s_redis.Validator.Simulator.Ownership.{owner}
use llm_k8s_redis.Validator.Simulator.Consistent.{
  IsSound, Holds, IsConsistent, pods-update, IsSound-update, Holds-update,
}

abbrev pub Member : PlanSimulator → String → Type 0
Member s pod = is_member (lookup pod s.nodes) ≡ true

pub with_slot-IsSound :
    (slot : ℕ) (n : SimulatedNode)
    → n.cluster_member ≡ true
    → IsSound n
    → IsSound (with_slot slot n)
with_slot-IsSound slot n m p = record {
  set = Distinct-insert slot tt n.slots p.set;
  held_by_member = λ h. m;
  ready_exists = p.ready_exists;
  rejoined = p.rejoined;
}

erase-is_empty :
    (slot : ℕ) (set : Map ℕ (Unit {0})) → is_empty (erase slot set) ≡ false → is_empty set ≡ false
unfolding erase
erase-is_empty slot [] h = h
erase-is_empty slot ((k, u) ∷ set) h = refl

pub without_slot-IsSound :
    (slot : ℕ) (n : SimulatedNode) → IsSound n → IsSound (without_slot slot n)
without_slot-IsSound slot n p = record {
  set = Distinct-erase slot n.slots p.set;
  held_by_member = λ h. p.held_by_member (erase-is_empty slot n.slots h);
  ready_exists = p.ready_exists;
  rejoined = p.rejoined;
}

-- A state in which every slot but the one that is about to be given is held by its owner.
record IsConsistentBut (slot : ℕ) (s : PlanSimulator) : Type 0 where
  pods : Distinct (keys s.nodes)
  owned : Distinct (keys s.slot_owners)
  sound : (pod : String) (n : SimulatedNode) → lookup pod s.nodes ≡ some n → IsSound n
  held : (k : ℕ) (pod : String) → slot ≢ k → owner s k ≡ some pod → Holds s pod k
  bounded : (k : ℕ) (pod : String) → slot ≢ k → owner s k ≡ some pod → InBounds k

module _ (pod : String) (slot : ℕ) (s : PlanSimulator) where
  Holds-given : Member s pod → Holds (give_slot pod slot s) pod slot
  Holds-given m = elim (Option-cases (lookup pod s.nodes)) [
    | inl e ↦ absurd (cc (rw e at m))
    | inr (n, e) ↦ (
      with_slot slot n,
      ground (arith, lookup-give pod slot s pod, e, str_eq_iff pod pod),
      ground (arith, has-insert slot slot tt n.slots, nat_eq_iff slot slot),
    )
  ]

  give_from :
      InBounds slot → Member s pod → IsConsistentBut slot s → IsConsistent (give_slot pod slot s)
  unfolding give_slot
  give_from b m c = record {
    pods = pods-update pod (with_slot slot) s c.pods;
    owned = Distinct-insert slot pod s.slot_owners c.owned;
    sound =
        IsSound-update pod (with_slot slot) s (λ n l p. with_slot-IsSound slot n (member n l) p)
          c.sound;
    held = λ k q o. held_after k q o;
    bounded = λ k q o. bounded_after k q o;
  }
    where
      member : (n : SimulatedNode) → lookup pod s.nodes ≡ some n → n.cluster_member ≡ true
      member n l = rw l at m

      held_after :
          (k : ℕ) (q : String)
          → owner (give_slot pod slot s) k ≡ some q
          → Holds (give_slot pod slot s) q k
      held_after k q o = elim (Bool-cases (slot == k)) [
        | inl same ↦
            let pod≡q : pod ≡ q = ground (arith, owners-give pod slot s k, same, o) in
            subst (λ j. Holds (give_slot pod slot s) q j) ((nat_eq_iff slot k).0 same)
              (subst (λ r. Holds (give_slot pod slot s) r slot) pod≡q (Holds-given m))
        | inr other ↦
            Holds-update pod (with_slot slot) s
              (λ n j h. ground (arith, has-insert slot j tt n.slots, h)) q k
              (c.held k q (λ e. cc (other, (nat_eq_iff slot k).1 e))
                (ground (arith, owners-give pod slot s k, other, o)))
      ]

      bounded_after : (k : ℕ) (q : String) → owner (give_slot pod slot s) k ≡ some q → InBounds k
      bounded_after k q o = elim (Bool-cases (slot == k)) [
        | inl same ↦ subst InBounds ((nat_eq_iff slot k).0 same) b
        | inr other ↦
            c.bounded k q (λ e. cc (other, (nat_eq_iff slot k).1 e))
              (ground (arith, owners-give pod slot s k, other, o))
      ]

  -- A slot is given to a member of the cluster.
  pub give-IsConsistent :
      InBounds slot → Member s pod → IsConsistent s → IsConsistent (give_slot pod slot s)
  give-IsConsistent b m c = give_from b m (record {
    pods = c.pods;
    owned = c.owned;
    sound = c.sound;
    held = λ k q ne o. c.held k q o;
    bounded = λ k q ne o. c.bounded k q o;
  })

pub Member-update :
    (key : String) (f : SimulatedNode → SimulatedNode) (s : PlanSimulator) (pod : String)
    → ((n : SimulatedNode) → n.cluster_member ≡ true → (f n).cluster_member ≡ true)
    → Member s pod
    → Member (update_node key f s) pod
Member-update key f s pod keeps m = elim (Option-cases (lookup pod s.nodes)) [
  | inl e ↦ absurd (cc (rw e at m))
  | inr (n, e) ↦ ground (arith, lookup-update key f s pod, e, m, keeps n)
]

module _ (source target : String) (slot : ℕ) (s : PlanSimulator) where
  -- A slot is moved from one node to another, a member of the cluster.
  pub move-IsConsistent :
      InBounds slot
      → Member s target
      → IsConsistent s
      → IsConsistent (move_slot source target slot s)
  unfolding move_slot
  move-IsConsistent b m c =
      give_from target slot (update_node source (without_slot slot) s) b
        (Member-update source (without_slot slot) s target (λ n h. h) m)
        (record {
          pods = pods-update source (without_slot slot) s c.pods;
          owned = rw (owners-update source (without_slot slot) s) c.owned;
          sound =
              IsSound-update source (without_slot slot) s (λ n l p. without_slot-IsSound slot n p)
                c.sound;
          held = λ k q ne o.
              holds_other k q ne
                (c.held k q (rw (owners-update source (without_slot slot) s) at o));
          bounded =
              λ k q ne o. c.bounded k q (rw (owners-update source (without_slot slot) s) at o);
        })
    where
      holds_other :
          (k : ℕ) (q : String)
          → slot ≢ k
          → Holds s q k
          → Holds (update_node source (without_slot slot) s) q k
      holds_other k q ne (n, l, h) = elim (Bool-cases (source == q)) [
        | inl same ↦ (
          without_slot slot n,
          ground (arith, lookup-update source (without_slot slot) s q, same, l),
          ground (arith, has-erase slot k n.slots, nat_eq_iff slot k, h),
        )
        | inr other ↦ (n, ground (arith, lookup-update source (without_slot slot) s q, other, l), h)
      ]
