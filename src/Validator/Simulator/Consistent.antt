-- ===== src/Validator/Simulator/Consistent.antt =====
-- The invariant of the simulated state, and that the primitive writes keep it.
use llm_k8s_redis.Prelude.{
  ℕ, String, some, true, false, ◌==◌, string_keys, nat_keys, lookup, keys, has, Distinct,
  Distinct-insert, is_empty, Option-cases, Bool-cases, ◌≡◌, inl, inr, arith, subst, str_eq_iff,
}
use llm_k8s_redis.Cluster.Bounds.{InBounds}
use llm_k8s_redis.Validator.Simulator.State.{
  SimulatedNode, PlanSimulator, blank_node, ensure_node_key, update_node,
}
use llm_k8s_redis.Validator.Simulator.Lookups.{
  lookup-update, owners-update, lookup-ensure, owners-ensure,
}
use llm_k8s_redis.Validator.Simulator.Ownership.{owner}
use llm_k8s_redis.Validator.Simulator.Exclusive.{IsKeyed}

-- A node owns slots only as a member of the cluster, is ready only if its pod exists, and if it
-- has come back after being forgotten it is ready.
pub record IsSound (n : SimulatedNode) : Type 0 where
  pub set : Distinct (keys n.slots)
  pub held_by_member : is_empty n.slots ≡ false → n.cluster_member ≡ true
  pub ready_exists : n.ready ≡ true → n.exists ≡ true
  pub rejoined : n.forgotten ≡ true → n.cluster_member ≡ true → n.ready ≡ true

abbrev pub Holds : PlanSimulator → String → ℕ → Type 0
Holds s pod slot = (n : SimulatedNode) × (lookup pod s.nodes ≡ some n) × (has slot n.slots ≡ true)

pub record IsConsistent (s : PlanSimulator) : Type 0 where
  pub pods : Distinct (keys s.nodes)
  pub owned : Distinct (keys s.slot_owners)
  pub sound : (pod : String) (n : SimulatedNode) → lookup pod s.nodes ≡ some n → IsSound n
  pub held : (slot : ℕ) (pod : String) → owner s slot ≡ some pod → Holds s pod slot
  pub bounded : (slot : ℕ) (pod : String) → owner s slot ≡ some pod → InBounds slot

pub IsConsistent-IsKeyed : {s : PlanSimulator} → IsConsistent s → IsKeyed s
IsConsistent-IsKeyed c = record {
  pods = c.pods;
  owned = c.owned;
  sets = λ pod n l. (c.sound pod n l).set;
}

pub pods-update :
    (key : String) (f : SimulatedNode → SimulatedNode) (s : PlanSimulator)
    → Distinct (keys s.nodes)
    → Distinct (keys (update_node key f s).nodes)
unfolding update_node
pods-update key f s d = elim (Option-cases (lookup key s.nodes)) [
  | inl e ↦ rw (e, update_node) d
  | inr (n, e) ↦ rw (e, update_node) (Distinct-insert key (f n) s.nodes d)
]

module _ (key : String) (f : SimulatedNode → SimulatedNode) (s : PlanSimulator) where
  -- The node found after a write was there before it.
  pub IsSound-update :
      ((n : SimulatedNode) → lookup key s.nodes ≡ some n → IsSound n → IsSound (f n))
      → ((pod : String) (n : SimulatedNode) → lookup pod s.nodes ≡ some n → IsSound n)
      → (pod : String) (n : SimulatedNode) → lookup pod (update_node key f s).nodes ≡ some n
      → IsSound n
  IsSound-update write before pod n l = elim (Bool-cases (key == pod)) [
    | inr other ↦ before pod n (ground (arith, lookup-update key f s pod, other, l))
    | inl same ↦ elim (Option-cases (lookup pod s.nodes)) [
      | inl e ↦ absurd (ground (arith, lookup-update key f s pod, same, l, e))
      | inr (m, e) ↦
          let key≡pod = (str_eq_iff key pod).0 same in
          let fm≡n : f m ≡ n = ground (arith, lookup-update key f s pod, same, l, e) in
          subst IsSound fm≡n (write m (rw key≡pod e) (before pod m e))
    ]
  ]

  pub Holds-update :
      ((n : SimulatedNode) (slot : ℕ) → has slot n.slots ≡ true → has slot (f n).slots ≡ true)
      → (pod : String) (slot : ℕ) → Holds s pod slot
      → Holds (update_node key f s) pod slot
  Holds-update keeps pod slot (n, l, h) = elim (Bool-cases (key == pod)) [
    | inl same ↦ (f n, ground (arith, lookup-update key f s pod, same, l), keeps n slot h)
    | inr other ↦ (n, ground (arith, lookup-update key f s pod, other, l), h)
  ]

  -- A write that leaves the node's slots alone.
  pub update-IsConsistent :
      ((n : SimulatedNode) → (f n).slots ≡ n.slots)
      → ((n : SimulatedNode) → lookup key s.nodes ≡ some n → IsSound n → IsSound (f n))
      → IsConsistent s
      → IsConsistent (update_node key f s)
  update-IsConsistent keeps write c = record {
    pods = pods-update key f s c.pods;
    owned = rw (owners-update key f s) c.owned;
    sound = IsSound-update write c.sound;
    held = λ slot pod o.
        Holds-update (λ n k h. rw (keeps n) h) pod slot
          (c.held slot pod (rw (owners-update key f s) at o));
    bounded = λ slot pod o. c.bounded slot pod (rw (owners-update key f s) at o);
  }

blank-IsSound : IsSound blank_node
blank-IsSound = record {
  set = tt;
  held_by_member = λ h. cc;
  ready_exists = λ h. cc;
  rejoined = λ h m. cc;
}

module _ (key : String) (s : PlanSimulator) where
  pods-ensure : Distinct (keys s.nodes) → Distinct (keys (ensure_node_key key s).nodes)
  unfolding ensure_node_key
  pods-ensure d = elim (Option-cases (lookup key s.nodes)) [
    | inl e ↦ rw (e, ensure_node_key) (Distinct-insert key blank_node s.nodes d)
    | inr (n, e) ↦ rw (e, ensure_node_key) d
  ]

  IsSound-ensure :
      ((pod : String) (n : SimulatedNode) → lookup pod s.nodes ≡ some n → IsSound n)
      → (pod : String) (n : SimulatedNode) → lookup pod (ensure_node_key key s).nodes ≡ some n
      → IsSound n
  IsSound-ensure before pod n l = elim (Option-cases (lookup pod s.nodes)) [
    | inr (m, e) ↦ before pod n (ground (arith, lookup-ensure key s pod, l, e))
    | inl e ↦
        let blank≡n : blank_node ≡ n = ground (arith, lookup-ensure key s pod, l, e) in
        subst IsSound blank≡n blank-IsSound
  ]

  pub ensure-IsConsistent : IsConsistent s → IsConsistent (ensure_node_key key s)
  ensure-IsConsistent c = record {
    pods = pods-ensure c.pods;
    owned = rw (owners-ensure key s) c.owned;
    sound = IsSound-ensure c.sound;
    held = λ slot pod o. keeps slot pod (c.held slot pod (rw (owners-ensure key s) at o));
    bounded = λ slot pod o. c.bounded slot pod (rw (owners-ensure key s) at o);
  }
    where
      keeps : (slot : ℕ) (pod : String) → Holds s pod slot → Holds (ensure_node_key key s) pod slot
      keeps slot pod (n, l, h) = (n, ground (arith, lookup-ensure key s pod, l), h)
