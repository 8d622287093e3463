-- ===== src/Validator/Simulator/Indexed.antt =====
-- internal/validator/simulator.go: that no step leaves a slot at a node which the owner index does not name.
use llm_k8s_redis.Prelude.{
  ℕ, String, List, [], ◌∷◌, Option, some, none, true, false, ◌==◌, string_keys, nat_keys, lookup,
  keys, has, has-insert, has-erase, All, In-All, In-lookup, In-of_has, Option-cases, Bool-cases,
  ◌≡◌, refl, inl, inr, arith, sym, subst, ok, >>=-eq-ok, str_eq_iff, nat_eq_iff,
}
use llm_k8s_redis.Plan.{Step}
use llm_k8s_redis.Validator.Simulator.State.{
  SimulatedNode, PlanSimulator, blank_node, ensure_node_key, update_node, give_slot, with_slot,
}
use llm_k8s_redis.Validator.Simulator.Steps.{
  assign, unowned, migrate, move_owned, move_slot, without_slot, apply, declare, make_ready, join,
  make_master, make_replica, forget, remove,
}
use llm_k8s_redis.Validator.Simulator.Moves.{
  Move, declares, readies, meets, replicates, assigns, migrates, forgets, deletes, stays,
  apply-Move,
}
use llm_k8s_redis.Validator.Simulator.Lookups.{
  lookup-update, owners-update, lookup-ensure, owners-ensure, lookup-give, owners-give,
}
use llm_k8s_redis.Validator.Simulator.Ownership.{owner, move_owned-ok}
use llm_k8s_redis.Validator.Simulator.Consistent.{IsConsistent, Holds}
use llm_k8s_redis.Validator.Simulator.Preserved.{apply-IsConsistent}

-- The slots of every node are its own in the owner index.
abbrev pub IsIndexed : PlanSimulator → Type 0
IsIndexed s = (slot : ℕ) (pod : String) → Holds s pod slot → owner s slot ≡ some pod

abbrev IsFree : ℕ → PlanSimulator → Type 0
IsFree slot s = (pod : String) → Holds s pod slot → ⊥

-- It is enough to look at each entry of the map.
pub entries-IsIndexed :
    (s : PlanSimulator)
    → All (λ (e : String × SimulatedNode). All (λ k. owner s k ≡ some e.0) (keys e.1.slots)) s.nodes
    → IsIndexed s
entries-IsIndexed s all slot pod (n, l, h) =
    In-All (λ k. owner s k ≡ some pod) (keys n.slots)
      (In-All (λ (e : String × SimulatedNode). All (λ k. owner s k ≡ some e.0) (keys e.1.slots))
        s.nodes all (pod, n) (In-lookup pod n s.nodes l))
      slot (In-of_has slot n.slots h)

module _ (key : String) (f : SimulatedNode → SimulatedNode) (s : PlanSimulator) where
  -- What a node holds after a write that adds no slot, it held before.
  Holds-before :
      ((n : SimulatedNode) (slot : ℕ) → has slot (f n).slots ≡ true → has slot n.slots ≡ true)
      → (slot : ℕ) (pod : String) → Holds (update_node key f s) pod slot
      → Holds s pod slot
  Holds-before adds_none slot pod (n, l, h) = elim (Bool-cases (key == pod)) [
    | inr other ↦ (n, ground (arith, lookup-update key f s pod, other, l), h)
    | inl same ↦ elim (Option-cases (lookup pod s.nodes)) [
      | inl e ↦ absurd (ground (arith, lookup-update key f s pod, same, l, e))
      | inr (m, e) ↦
          let fm≡n : f m ≡ n = ground (arith, lookup-update key f s pod, same, l, e) in
          (
            m,
            e,
            adds_none m slot (subst (λ (x : SimulatedNode). has slot x.slots ≡ true) (sym fm≡n) h),
          )
    ]
  ]

  update-IsIndexed :
      ((n : SimulatedNode) (slot : ℕ) → has slot (f n).slots ≡ true → has slot n.slots ≡ true)
      → IsIndexed s
      → IsIndexed (update_node key f s)
  update-IsIndexed adds_none i slot pod holds =
      rw (owners-update key f s) (i slot pod (Holds-before adds_none slot pod holds))

blank_holds : (slot : ℕ) → has slot blank_node.slots ≡ false
unfolding has lookup
blank_holds slot = refl

ensure-IsIndexed :
    (key : String) (s : PlanSimulator) → IsIndexed s → IsIndexed (ensure_node_key key s)
ensure-IsIndexed key s i slot pod (n, l, h) = elim (Option-cases (lookup pod s.nodes)) [
  | inr (m, e) ↦
      rw (owners-ensure key s) (i slot pod (n, ground (arith, lookup-ensure key s pod, l, e), h))
  | inl e ↦
      let blank≡n : blank_node ≡ n = ground (arith, lookup-ensure key s pod, l, e) in
      absurd (
        cc (
          blank_holds slot,
          subst (λ (x : SimulatedNode). has slot x.slots ≡ true) (sym blank≡n) h,
        ))
]

-- A slot that no node holds is given to one.
give-IsIndexed :
    (pod : String) (slot : ℕ) (s : PlanSimulator)
    → IsFree slot s
    → IsIndexed s
    → IsIndexed (give_slot pod slot s)
give-IsIndexed pod slot s free i k q (n, l, h) = elim (Bool-cases (slot == k)) [
  | inl same ↦ elim (Bool-cases (pod == q)) [
    | inl here ↦ ground (arith, owners-give pod slot s k, same, (str_eq_iff pod q).0 here)
    | inr other ↦ absurd (
        free q (
          n,
          ground (arith, lookup-give pod slot s q, other, l),
          subst (λ j. has j n.slots ≡ true) (sym ((nat_eq_iff slot k).0 same)) h,
        ))
  ]
  | inr apart ↦ rw (owners-give pod slot s k, apart) (i k q (before apart))
]
  where
    before : (slot == k) ≡ false → Holds s q k
    before apart = elim (Bool-cases (pod == q)) [
      | inr other ↦ (n, ground (arith, lookup-give pod slot s q, other, l), h)
      | inl here ↦ elim (Option-cases (lookup q s.nodes)) [
        | inl e ↦ absurd (ground (arith, lookup-give pod slot s q, here, l, e))
        | inr (m, e) ↦
            let given : with_slot slot m ≡ n =
              ground (arith, lookup-give pod slot s q, here, l, e) in
            let kept = subst (λ (x : SimulatedNode). has k x.slots ≡ true) (sym given) h in
            (m, e, ground (arith, has-insert slot k tt m.slots, apart, kept))
      ]
    ]

assign-IsIndexed :
    (pod : String) (slots : List ℕ) (s : PlanSimulator) {t : PlanSimulator}
    → assign pod slots s ≡ ok t
    → IsIndexed s
    → IsIndexed t
unfolding assign
assign-IsIndexed pod [] s {t} h i = subst IsIndexed {x = s} {y = t} (cc) i
assign-IsIndexed pod (slot ∷ slots) s h i =
    let (u, free, h1) = >>=-eq-ok (unowned slot (owner s slot)) _ h in
    let nobody : IsFree slot s = λ q holds. no_owner (owner s slot) free (i slot q holds) in
    assign-IsIndexed pod slots (give_slot pod slot s) h1 (give-IsIndexed pod slot s nobody i)
  where
    no_owner :
        (o : Option String) {u : Unit {0}} {q : String} → unowned slot o ≡ ok u → o ≡ some q → ⊥
    no_owner none g e = absurd (cc)
    no_owner (some a) g e = absurd (cc)

module _ (source target : String) where
  -- The slot is taken from its owner, its only holder, before it is given to the target.
  move-IsIndexed :
      (slot : ℕ) (s : PlanSimulator)
      → owner s slot ≡ some source
      → IsIndexed s
      → IsIndexed (move_slot source target slot s)
  unfolding move_slot
  move-IsIndexed slot s o i =
      give-IsIndexed target slot (update_node source (without_slot slot) s) free
        (update-IsIndexed source (without_slot slot) s erases i)
    where
      erases :
          (n : SimulatedNode) (k : ℕ)
          → has k (without_slot slot n).slots ≡ true
          → has k n.slots ≡ true
      erases n k h = ground (arith, has-erase slot k n.slots, h)

      gone : (m : SimulatedNode) → has slot (without_slot slot m).slots ≡ true → ⊥
      gone m h = absurd (ground (arith, has-erase slot slot m.slots, nat_eq_iff slot slot, h))

      free : IsFree slot (update_node source (without_slot slot) s)
      free q (n, l, h) =
          let (m, e, was) = Holds-before source (without_slot slot) s erases slot q (n, l, h) in
          let source≡q : source ≡ q = cc (o, i slot q (m, e, was)) in
          let same = (str_eq_iff source q).1 source≡q in
          let left : without_slot slot m ≡ n =
            ground (arith, lookup-update source (without_slot slot) s q, same, l, e) in
          gone m (subst (λ (x : SimulatedNode). has slot x.slots ≡ true) (sym left) h)

  migrate-IsIndexed :
      (slots : List ℕ) (s : PlanSimulator) {t : PlanSimulator}
      → migrate source target slots s ≡ ok t
      → IsIndexed s
      → IsIndexed t
  unfolding migrate
  migrate-IsIndexed [] s {t} h i = subst IsIndexed {x = s} {y = t} (cc) i
  migrate-IsIndexed (slot ∷ slots) s h i =
      let (u, m, h1) = >>=-eq-ok (move_owned source target slot s (owner s slot)) _ h in
      elim (move_owned-ok source target slot s (owner s slot) m) [
        | inr (e, same) ↦ migrate-IsIndexed slots u h1 (subst IsIndexed (sym same) i)
        | inl (e, moved) ↦
            migrate-IsIndexed slots u h1 (subst IsIndexed (sym moved) (move-IsIndexed slot s e i))
      ]

Move-IsIndexed : {step : Step} {s t : PlanSimulator} → Move step s t → IsIndexed s → IsIndexed t
Move-IsIndexed {s = s} (declares pod image _ e) i = rw e (
    update-IsIndexed pod (declare image) (ensure_node_key pod s) (λ n k h. h)
      (ensure-IsIndexed pod s i))
Move-IsIndexed {s = s} (readies pod _ e) i = rw e (update-IsIndexed pod make_ready s (λ n k h. h) i)
Move-IsIndexed {s = s} (meets source target _ _ e) i = rw e (
    update-IsIndexed target join (update_node source join s) (λ n k h. h)
      (update-IsIndexed source join s (λ n k h. h) i))
Move-IsIndexed {s = s} (replicates master replica _ _ _ _ e) i = rw e (
    update-IsIndexed replica (make_replica master) (update_node master make_master s) (λ n k h. h)
      (update-IsIndexed master make_master s (λ n k h. h) i))
Move-IsIndexed {s = s} (assigns pod slots _ _ _ _ done) i =
    assign-IsIndexed pod (keys slots) s done i
Move-IsIndexed {s = s} (migrates source target slots _ _ _ _ _ _ _ _ done) i =
    migrate-IsIndexed source target (keys slots) s done i
Move-IsIndexed {s = s} (forgets key _ _ e) i = rw e (update-IsIndexed key forget s (λ n k h. h) i)
Move-IsIndexed {s = s} (deletes pod _ _ _ e) i = rw e (update-IsIndexed pod remove s (λ n k h. h) i)
Move-IsIndexed (stays e) i = rw e i

-- Every accepted step keeps the owner index and the nodes' slot sets in agreement, in both directions: the
-- owner of a slot holds it, and a node holds no slot that the index gives to another pod or to none. It
-- also keeps the owned slots in bounds, slots only at cluster members, and ready pods existing.
pub apply-agrees :
    (step : Step) (steps : List Step) (idx : ℕ) (s : PlanSimulator) {t : PlanSimulator}
    → apply step steps idx s ≡ ok t
    → IsConsistent s
    → IsIndexed s
    → IsConsistent t × IsIndexed t
apply-agrees step steps idx s h c i =
    (apply-IsConsistent step steps idx s h c, Move-IsIndexed (apply-Move step s steps idx h) i)
