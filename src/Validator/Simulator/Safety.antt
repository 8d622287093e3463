-- ===== src/Validator/Simulator/Safety.antt =====
-- Which nodes may receive slots, and which may be deleted.
use llm_k8s_redis.Prelude.{
  ℕ, String, List, [], ◌∷◌, some, true, false, not, ◌==◌, string_keys, nat_keys, lookup, keys, ok,
  >>=-eq-ok, guard, guard-eq-ok, Bool-cases, ◌≡◌, ◌≢◌, inl, inr, arith, ◌⊎◌, nat_eq, sym, ◌∙◌, ap,
  subst, nonempty_of_has,
}
use llm_k8s_redis.Plan.{ActionType, Step, param_string, delete_node}
use llm_k8s_redis.Validator.Simulator.State.{SimulatedNode, PlanSimulator, update_node, give_slot}
use llm_k8s_redis.Validator.Simulator.Checks.{replica_count}
use llm_k8s_redis.Validator.Simulator.Steps.{
  req_p, assign, unowned, migrate, move_owned, apply, apply_action, delete_step, delete_found,
  forgotten_before, declare, remove, ready_member, is_master,
}
use llm_k8s_redis.Validator.Simulator.Lookups.{owners-update, owners-ensure, owners-give}
use llm_k8s_redis.Validator.Simulator.Moves.{
  Move, declares, readies, meets, replicates, assigns, migrates, forgets, deletes, stays,
  apply-Move, req_p_param, not-true→false,
}
use llm_k8s_redis.Validator.Simulator.Ownership.{owner, owner-move, move_owned-ok}
use llm_k8s_redis.Validator.Simulator.Consistent.{IsConsistent}

-- A ready member of the cluster that is a master and has a replica.
pub record MayReceive (s : PlanSimulator) (pod : String) : Type 0 where
  pub ready : ready_member (lookup pod s.nodes) ≡ true
  pub master : is_master (lookup pod s.nodes) ≡ true
  pub replicated : nat_eq (replica_count s pod) 0 ≡ false

assign-owner_back :
    (pod : String) (slots : List ℕ) (s : PlanSimulator) {t : PlanSimulator} (k : ℕ) {b : String}
    → assign pod slots s ≡ ok t
    → owner t k ≡ some b
    → (owner s k ≡ some b) ⊎ (pod ≡ b)
unfolding assign
assign-owner_back pod [] s k h o = ground arith
assign-owner_back pod (slot ∷ slots) s k h o =
    let (u, _, h1) = >>=-eq-ok (unowned slot (owner s slot)) _ h in
    back (assign-owner_back pod slots (give_slot pod slot s) k h1 o)
  where
    back :
        {b : String}
        → (owner (give_slot pod slot s) k ≡ some b) ⊎ (pod ≡ b)
        → (owner s k ≡ some b) ⊎ (pod ≡ b)
    back (inr e) = inr e
    back (inl g) = elim (Bool-cases (slot == k)) [
      | inl same ↦ inr (ground (arith, owners-give pod slot s k, same, g))
      | inr other ↦ inl (ground (arith, owners-give pod slot s k, other, g))
    ]

migrate-owner_back :
    (source target : String) (slots : List ℕ) (s : PlanSimulator) {t : PlanSimulator} (k : ℕ)
    {b : String}
    → migrate source target slots s ≡ ok t
    → owner t k ≡ some b
    → (owner s k ≡ some b) ⊎ (target ≡ b)
unfolding migrate
migrate-owner_back source target [] s k h o = ground arith
migrate-owner_back source target (slot ∷ slots) s k {b} h o =
    let (u, m, h1) = >>=-eq-ok (move_owned source target slot s (owner s slot)) _ h in
    elim (migrate-owner_back source target slots u k h1 o) [
      | inr e ↦ inr e
      | inl g ↦ elim (move_owned-ok source target slot s (owner s slot) m) [
        | inr (_, same) ↦ inl (subst (λ r. owner r k ≡ some b) same g)
        | inl (_, moved) ↦ elim (Bool-cases (slot == k)) [
          | inl at ↦ inr (ground (arith, owner-move source target slot s k, at, g, moved))
          | inr other ↦ inl (ground (arith, owner-move source target slot s k, other, g, moved))
        ]
      ]
    ]

same_owner_back :
    (s t : PlanSimulator) (k : ℕ) {b : String}
    → t.slot_owners ≡ s.slot_owners
    → owner t k ≡ some b
    → owner s k ≡ some b
same_owner_back s t k e o = rw e at o

Move-receives :
    {step : Step} {s t : PlanSimulator} (k : ℕ) {b : String}
    → Move step s t
    → owner t k ≡ some b
    → (owner s k ≡ some b) ⊎ MayReceive s b
Move-receives {s = s} {t = t} k (declares pod image _ e) o = inl (
    same_owner_back s t k
      (ap (λ r. r.slot_owners) e ∙ owners-update pod (declare image) _ ∙ owners-ensure pod s) o)
Move-receives {s = s} {t = t} k (readies _ _ e) o =
    inl (same_owner_back s t k (ap (λ r. r.slot_owners) e ∙ owners-update _ _ _) o)
Move-receives {s = s} {t = t} k (meets _ _ _ _ e) o = inl (
    same_owner_back s t k (ap (λ r. r.slot_owners) e ∙ owners-update _ _ _ ∙ owners-update _ _ _) o)
Move-receives {s = s} {t = t} k (replicates _ _ _ _ _ _ e) o = inl (
    same_owner_back s t k (ap (λ r. r.slot_owners) e ∙ owners-update _ _ _ ∙ owners-update _ _ _) o)
Move-receives {s = s} k (assigns pod slots ready master replicated _ done) o =
    elim (assign-owner_back pod (keys slots) s k done o) [
      | inl before ↦ inl before
      | inr e ↦ inr (
          subst (MayReceive s) e
            (record { ready = ready; master = master; replicated = replicated }))
    ]
Move-receives {s = s} k (migrates source target slots _ _ _ _ ready master replicated _ done) o =
    elim (migrate-owner_back source target (keys slots) s k done o) [
      | inl before ↦ inl before
      | inr e ↦ inr (
          subst (MayReceive s) e
            (record { ready = ready; master = master; replicated = replicated }))
    ]
Move-receives {s = s} {t = t} k (forgets _ _ _ e) o =
    inl (same_owner_back s t k (ap (λ r. r.slot_owners) e ∙ owners-update _ _ _) o)
Move-receives {s = s} {t = t} k (deletes _ _ _ _ e) o =
    inl (same_owner_back s t k (ap (λ r. r.slot_owners) e ∙ owners-update _ _ _) o)
Move-receives {s = s} {t = t} k (stays e) o =
    inl (same_owner_back s t k (ap (λ r. r.slot_owners) e) o)

-- After an accepted step each slot's owner is the one before, or a pod that before the step was a
-- ready member, a master, and had a replica.
pub apply-receives :
    (step : Step) (steps : List Step) (idx : ℕ) (s : PlanSimulator) {t : PlanSimulator} (slot : ℕ)
    {b : String}
    → apply step steps idx s ≡ ok t
    → owner t slot ≡ some b
    → (owner s slot ≡ some b) ⊎ MayReceive s b
apply-receives step steps idx s slot h o = Move-receives slot (apply-Move step s steps idx h) o

module _ (step : Step) (steps : List Step) (idx : ℕ) (s : PlanSimulator) {t : PlanSimulator} where
  delete_step-found :
      (pod : String) (n : SimulatedNode)
      → param_string step.params "pod" ≡ some pod
      → lookup pod s.nodes ≡ some n
      → delete_step step steps idx s ≡ ok t
      → (n.cluster_member ≡ false) × (t ≡ update_node pod remove s)
  unfolding delete_step
  delete_step-found pod n p l h =
      let (pod', q, h1) = >>=-eq-ok (req_p step.params "pod" "DeleteNode") _ h in
      let pod'≡pod : pod' ≡ pod = ground (arith, req_p_param step.params "pod" "DeleteNode" q, p) in
      let found : delete_found s pod (forgotten_before steps idx pod) (some n) ≡ ok t = rw l at (
        subst (λ r. delete_found s r (forgotten_before steps idx r) (lookup r s.nodes) ≡ ok t)
          pod'≡pod h1) in
      let (u, g, same) = >>=-eq-ok (guard (not n.cluster_member) _) _ found in
      (not-true→false _ (guard-eq-ok _ _ g), cc)

  apply_action-delete :
      (a : ActionType)
      → a ≡ delete_node
      → apply_action a step steps idx s ≡ ok t
      → delete_step step steps idx s ≡ ok t
  unfolding apply_action
  apply_action-delete delete_node e h = h
  apply_action-delete _ e h = absurd (cc)

  -- In a consistent state, a pod that an accepted DeleteNode finds is no member of the cluster and
  -- owns no slot; the step only marks it as neither existing nor ready.
  pub apply-delete_idle :
      (pod : String) (n : SimulatedNode)
      → IsConsistent s
      → step.action ≡ delete_node
      → param_string step.params "pod" ≡ some pod
      → lookup pod s.nodes ≡ some n
      → apply step steps idx s ≡ ok t
      → (n.cluster_member ≡ false)
        × ((slot : ℕ) → owner s slot ≢ some pod)
        × (t ≡ update_node pod remove s)
  unfolding apply
  apply-delete_idle pod n c acts p l h =
      let (outside, same) = delete_step-found pod n p l (apply_action-delete step.action acts h) in
      (outside, λ slot o. holds_nothing outside slot o, same)
    where
      holds_nothing : n.cluster_member ≡ false → (slot : ℕ) → owner s slot ≡ some pod → ⊥
      holds_nothing outside slot o =
          let (m, l', holds) = c.held slot pod o in
          let m≡n : some m ≡ some n = sym l' ∙ l in
          let member = (c.sound pod m l').held_by_member (nonempty_of_has slot m.slots holds) in
          absurd (ground (arith, m≡n, member, outside))
