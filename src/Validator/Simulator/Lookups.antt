-- ===== src/Validator/Simulator/Lookups.antt =====
-- What the primitive writes of the simulator leave under each key.
use llm_k8s_redis.Prelude.{
  ℕ, String, Option, some, none, ◌==◌, string_keys, nat_keys, if◌then◌else◌, lookup, lookup-insert,
  Option-cases, ◌≡◌, inl, inr, arith, str_eq_iff,
}
use llm_k8s_redis.Validator.Simulator.State.{
  SimulatedNode, PlanSimulator, blank_node, ensure_node_key, update_node, give_slot, with_slot,
}

abbrev pub changed : (SimulatedNode → SimulatedNode) → Option SimulatedNode → Option SimulatedNode
changed f none = none
changed f (some n) = some (f n)

abbrev pub node_or_blank : Option SimulatedNode → Option SimulatedNode
node_or_blank none = some blank_node
node_or_blank (some n) = some n

module _ (key : String) (f : SimulatedNode → SimulatedNode) (s : PlanSimulator) where
  pub lookup-update :
      (j : String)
      → lookup j (update_node key f s).nodes
        ≡ (if key == j then changed f (lookup j s.nodes) else lookup j s.nodes)
  unfolding update_node
  lookup-update j = elim (Option-cases (lookup key s.nodes)) [
    | inl e ↦ ground (arith, e, str_eq_iff key j)
    | inr (n, e) ↦
        rw (e, update_node) (ground (arith, lookup-insert key j (f n) s.nodes, str_eq_iff key j))
  ]

  pub owners-update : (update_node key f s).slot_owners ≡ s.slot_owners
  unfolding update_node
  owners-update = ground arith

  pub ids-update : (update_node key f s).node_ids ≡ s.node_ids
  unfolding update_node
  ids-update = ground arith

  pub spec-update : (update_node key f s).spec ≡ s.spec
  unfolding update_node
  spec-update = ground arith

module _ (key : String) (s : PlanSimulator) where
  pub lookup-ensure :
      (j : String)
      → lookup j (ensure_node_key key s).nodes
        ≡ (if key == j then node_or_blank (lookup j s.nodes) else lookup j s.nodes)
  unfolding ensure_node_key
  lookup-ensure j = elim (Option-cases (lookup key s.nodes)) [
    | inl e ↦
        rw (e, ensure_node_key)
          (ground (arith, lookup-insert key j blank_node s.nodes, str_eq_iff key j))
    | inr (n, e) ↦ ground (arith, e, str_eq_iff key j)
  ]

  pub owners-ensure : (ensure_node_key key s).slot_owners ≡ s.slot_owners
  unfolding ensure_node_key
  owners-ensure = ground arith

  pub ids-ensure : (ensure_node_key key s).node_ids ≡ s.node_ids
  unfolding ensure_node_key
  ids-ensure = ground arith

  pub spec-ensure : (ensure_node_key key s).spec ≡ s.spec
  unfolding ensure_node_key
  spec-ensure = ground arith

module _ (pod : String) (slot : ℕ) (s : PlanSimulator) where
  pub lookup-give :
      (j : String)
      → lookup j (give_slot pod slot s).nodes
        ≡ (if pod == j then changed (with_slot slot) (lookup j s.nodes) else lookup j s.nodes)
  unfolding give_slot
  lookup-give j = lookup-update pod (with_slot slot) s j

  pub owners-give :
      (k : ℕ)
      → lookup k (give_slot pod slot s).slot_owners
        ≡ (if slot == k then some pod else lookup k s.slot_owners)
  unfolding give_slot
  owners-give k = lookup-insert slot k pod s.slot_owners
