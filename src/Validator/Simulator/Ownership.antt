-- ===== src/Validator/Simulator/Ownership.antt =====
-- Who owns a slot, across the steps of a plan.
use llm_k8s_redis.Prelude.{
  ℕ, ◌+◌, String, List, [], ◌∷◌, Option, some, none, ◌==◌, string_keys, nat_keys, lookup, ok,
  >>=-eq-ok, Bool-cases, ◌≡◌, refl, inl, inr, arith, ◌⊎◌, In, nat_eq_iff, sym, ◌∙◌, ap, subst,
  if◌then◌else◌,
}
use llm_k8s_redis.Plan.{Step, param_string, migrate_slots}
use llm_k8s_redis.Cluster.Slots.{SlotSet}
use llm_k8s_redis.Prelude.{keys}
use llm_k8s_redis.Validator.Schema.{wrap, wrap-eq-ok}
use llm_k8s_redis.Validator.Simulator.State.{PlanSimulator, update_node, give_slot}
use llm_k8s_redis.Validator.Simulator.Checks.{check_invariants}
use llm_k8s_redis.Validator.Simulator.Steps.{
  req_slots, assign, unowned, migrate, move_owned, move_slot, without_slot, apply, simulate_from,
  declare,
}
use llm_k8s_redis.Validator.Simulator.Lookups.{owners-update, owners-ensure, owners-give}
use llm_k8s_redis.Validator.Simulator.Moves.{
  Move, declares, readies, meets, replicates, assigns, migrates, forgets, deletes, stays,
  apply-Move,
}

abbrev pub owner : PlanSimulator → ℕ → Option String
owner s slot = lookup slot s.slot_owners

pub owner-move :
    (source target : String) (slot : ℕ) (s : PlanSimulator) (k : ℕ)
    → owner (move_slot source target slot s) k ≡ (if slot == k then some target else owner s k)
unfolding move_slot
owner-move source target slot s k = ground (
  arith,
  owners-give target slot (update_node source (without_slot slot) s) k,
  owners-update source (without_slot slot) s,
)

-- `AddSlots` takes no slot from its owner.
pub assign-owner :
    (pod : String) (slots : List ℕ) (s : PlanSimulator) {t : PlanSimulator} (k : ℕ) {a : String}
    → assign pod slots s ≡ ok t
    → owner s k ≡ some a
    → owner t k ≡ some a
unfolding assign
assign-owner pod [] s k h o = ground arith
assign-owner pod (slot ∷ slots) s k h o =
    let (u, free, h1) = >>=-eq-ok (unowned slot (owner s slot)) _ h in
    assign-owner pod slots (give_slot pod slot s) k h1
      (ground (arith, owners-give pod slot s k, nat_eq_iff slot k))

module _ (source target : String) where
  -- A slot that a round of `MigrateSlots` looks at.
  abbrev pub Moved : List ℕ → PlanSimulator → ℕ → String → Type 0
  Moved slots t k a = (owner t k ≡ some a) ⊎ ((a ≡ source) × In k slots × (owner t k ≡ some target))

  -- The two ways in which a round of `MigrateSlots` goes on.
  pub move_owned-ok :
      (slot : ℕ) (s : PlanSimulator) (o : Option String) {t : PlanSimulator}
      → move_owned source target slot s o ≡ ok t
      → ((o ≡ some source) × (t ≡ move_slot source target slot s)) ⊎ ((o ≡ some target) × (t ≡ s))
  move_owned-ok slot s none h = absurd (cc)
  move_owned-ok slot s (some b) h = elim (Bool-cases (b == source)) [
    | inl e ↦ inl (ap some ((string_keys.test_iff b source).0 e), cc)
    | inr n ↦ elim (Bool-cases (b == target)) [
      | inl e ↦ inr (ap some ((string_keys.test_iff b target).0 e), cc)
      | inr m ↦ absurd (cc)
    ]
  ]

  owner-move_slot :
      (slot : ℕ) (s : PlanSimulator) (k : ℕ) {a : String}
      → owner s slot ≡ some source
      → owner s k ≡ some a
      → (owner (move_slot source target slot s) k ≡ some a)
        ⊎ ((a ≡ source) × (slot ≡ k) × (owner (move_slot source target slot s) k ≡ some target))
  owner-move_slot slot s k {a} e o = elim (Bool-cases (slot == k)) [
    | inl same ↦
        let slot≡k = (nat_keys.test_iff slot k).0 same in
        let e' : owner s k ≡ some source = subst (λ j. owner s j ≡ some source) slot≡k e in
        let to_target : owner (move_slot source target slot s) k ≡ some target =
          rw (owner-move source target slot s k, same) refl in
        inr (cc, slot≡k, to_target)
    | inr other ↦ inl (rw (owner-move source target slot s k, other) o)
  ]

  pub migrate-owner :
      (slots : List ℕ) (s : PlanSimulator) {t : PlanSimulator} (k : ℕ) {a : String}
      → migrate source target slots s ≡ ok t
      → owner s k ≡ some a
      → Moved slots t k a
  unfolding migrate
  migrate-owner [] s k h o = ground arith
  migrate-owner (slot ∷ slots) s {t} k {a} h o =
      let (u, m, h1) = >>=-eq-ok (move_owned source target slot s (owner s slot)) _ h in
      elim (move_owned-ok slot s (owner s slot) m) [
        | inr (e, same) ↦ later (migrate-owner slots u k h1 (rw same o))
        | inl (e, same) ↦ elim (owner-move_slot slot s k e o) [
          | inl kept ↦ later (migrate-owner slots u k h1 (rw same kept))
          | inr (from, at, moved) ↦
              inr (from, inl at, arrived (migrate-owner slots u k h1 (rw same moved)))
        ]
      ]
    where
      later : Moved slots t k a → Moved (slot ∷ slots) t k a
      later (inl kept) = inl kept
      later (inr (from, there, moved)) = inr (from, inr there, moved)

      arrived : Moved slots t k target → owner t k ≡ some target
      arrived (inl kept) = kept
      arrived (inr (from, there, moved)) = moved

-- The slot is named by the step's slots parameter.
pub record IsMigrated (step : Step) (t : PlanSimulator) (slot : ℕ) (a : String) : Type 0 where
  pub acts : step.action ≡ migrate_slots
  pub from : param_string step.params "sourcePod" ≡ some a
  pub named : SlotSet
  pub named_by : req_slots step.params "MigrateSlots" ≡ ok named
  pub listed : In slot (keys named)
  pub target : String
  pub to : param_string step.params "targetPod" ≡ some target
  pub arrived : owner t slot ≡ some target

same_owners :
    (s t : PlanSimulator) (k : ℕ) {a : String}
    → t.slot_owners ≡ s.slot_owners
    → owner s k ≡ some a
    → owner t k ≡ some a
same_owners s t k e o = rw e o

Move-owner :
    {step : Step} {s t : PlanSimulator} (k : ℕ) {a : String}
    → Move step s t
    → owner s k ≡ some a
    → (owner t k ≡ some a) ⊎ IsMigrated step t k a
Move-owner {s = s} {t = t} k (declares pod image _ e) o = inl (
    same_owners s t k
      (ap (λ r. r.slot_owners) e ∙ owners-update pod (declare image) _ ∙ owners-ensure pod s) o)
Move-owner {s = s} {t = t} k (readies pod _ e) o =
    inl (same_owners s t k (ap (λ r. r.slot_owners) e ∙ owners-update _ _ _) o)
Move-owner {s = s} {t = t} k (meets _ _ _ _ e) o =
    inl
      (same_owners s t k (ap (λ r. r.slot_owners) e ∙ owners-update _ _ _ ∙ owners-update _ _ _) o)
Move-owner {s = s} {t = t} k (replicates _ _ _ _ _ _ e) o =
    inl
      (same_owners s t k (ap (λ r. r.slot_owners) e ∙ owners-update _ _ _ ∙ owners-update _ _ _) o)
Move-owner {s = s} k (assigns pod slots _ _ _ _ done) o =
    inl (assign-owner pod (keys slots) s k done o)
Move-owner {s = s} {t = t} k {a} (migrates source target slots acts p q _ _ _ _ named done) o =
    elim (migrate-owner source target (keys slots) s k done o) [
      | inl kept ↦ inl kept
      | inr (from, there, moved) ↦ inr (record {
        acts = acts;
        from = p ∙ ap some (sym from);
        named = slots;
        named_by = named;
        listed = there;
        target = target;
        to = q;
        arrived = moved;
      })
    ]
Move-owner {s = s} {t = t} k (forgets _ _ _ e) o =
    inl (same_owners s t k (ap (λ r. r.slot_owners) e ∙ owners-update _ _ _) o)
Move-owner {s = s} {t = t} k (deletes _ _ _ _ e) o =
    inl (same_owners s t k (ap (λ r. r.slot_owners) e ∙ owners-update _ _ _) o)
Move-owner {s = s} {t = t} k (stays e) o = inl (same_owners s t k (ap (λ r. r.slot_owners) e) o)

-- An owned slot keeps its owner across every accepted step, unless the step is a MigrateSlots whose
-- source is that owner and whose slots name the slot: then the owner is the step's target.
pub apply-owner :
    (step : Step) (steps : List Step) (idx : ℕ) (s : PlanSimulator) {t : PlanSimulator} (slot : ℕ)
    {a : String}
    → apply step steps idx s ≡ ok t
    → owner s slot ≡ some a
    → (owner t slot ≡ some a) ⊎ IsMigrated step t slot a
apply-owner step steps idx s slot h o = Move-owner slot (apply-Move step s steps idx h) o

-- A slot that is owned at the start of an accepted run is owned at its end.
pub simulate_from-owned :
    (left steps : List Step) (idx : ℕ) (s : PlanSimulator) {t : PlanSimulator} (slot : ℕ)
    → simulate_from left steps idx s ≡ ok t
    → (a : String) × (owner s slot ≡ some a)
    → (a : String) × (owner t slot ≡ some a)
unfolding simulate_from
simulate_from-owned [] steps idx s slot h (a, o) = (a, ground arith)
simulate_from-owned (step ∷ left) steps idx s {t} slot h (a, o) =
    let (u, e, h1) = >>=-eq-ok (wrap step.id (apply step steps idx s)) _ h in
    let (v, _, h2) = >>=-eq-ok (wrap step.id (check_invariants u)) _ h1 in
    simulate_from-owned left steps (idx + 1) u slot h2
      (still u (apply-owner step steps idx s slot (wrap-eq-ok step.id _ e) o))
  where
    still :
        (u : PlanSimulator)
        → (owner u slot ≡ some a) ⊎ IsMigrated step u slot a
        → (b : String) × (owner u slot ≡ some b)
    still u (inl kept) = (a, kept)
    still u (inr m) = (m.target, m.arrived)
