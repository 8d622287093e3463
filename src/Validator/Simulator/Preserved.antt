-- ===== src/Validator/Simulator/Preserved.antt =====
-- The simulated state is consistent from the start, and every accepted step keeps it so.
use llm_k8s_redis.Prelude.{
  ℕ, ◌+◌, String, List, [], ◌∷◌, Option, some, true, false, string_keys, nat_keys, lookup, keys,
  All, is_empty, ◌≡◌, refl, inl, inr, arith, sym, subst, Result, ok, err, >>=-eq-ok,
}
use llm_k8s_redis.Plan.{Step}
use llm_k8s_redis.Cluster.Slots.{SlotSet, SlotError, parse_slot_spec}
use llm_k8s_redis.Cluster.Bounds.{InBounds, AllKeys-add_range, parse_slot_spec-InBounds}
use llm_k8s_redis.Validator.Schema.{slots_set, lift_slots, wrap, wrap-eq-ok, Params}
use llm_k8s_redis.Validator.Simulator.State.{
  SimulatedNode, PlanSimulator, ensure_node_key, update_node, give_slot, with_slot,
}
use llm_k8s_redis.Validator.Simulator.Checks.{check_invariants}
use llm_k8s_redis.Validator.Simulator.Steps.{
  req_p, req_slots, assign, unowned, migrate, move_owned, move_slot, without_slot, apply,
  simulate_from, declare, make_ready, join, make_master, make_replica, forget, remove, ready_member,
}
use llm_k8s_redis.Validator.Simulator.Moves.{
  Move, declares, readies, meets, replicates, assigns, migrates, forgets, deletes, stays,
  apply-Move,
}
use llm_k8s_redis.Validator.Simulator.Lookups.{lookup-update}
use llm_k8s_redis.Validator.Simulator.Ownership.{owner, move_owned-ok}
use llm_k8s_redis.Validator.Simulator.Consistent.{
  IsSound, IsConsistent, update-IsConsistent, ensure-IsConsistent,
}
use llm_k8s_redis.Validator.Simulator.Giving.{
  Member, Member-update, give-IsConsistent, move-IsConsistent,
}

lift_slots-ok : {A : Type 0} (r : Result SlotError A) {a : A} → lift_slots r ≡ ok a → r ≡ ok a
lift_slots-ok (ok b) h = cc
lift_slots-ok (err e) h = absurd (cc)

pub slots_set-InBounds :
    (spec : String) {set : SlotSet} → slots_set spec ≡ ok set → All InBounds (keys set)
unfolding slots_set
slots_set-InBounds spec h =
    let (slots, e, h1) = >>=-eq-ok (lift_slots (parse_slot_spec spec)) _ h in
    subst (λ (m : SlotSet). All InBounds (keys m)) (cc)
      (AllKeys-add_range InBounds slots [] (parse_slot_spec-InBounds spec (lift_slots-ok _ e)) tt)

req_slots-InBounds :
    (params : Params) (action : String) {set : SlotSet}
    → req_slots params action ≡ ok set
    → All InBounds (keys set)
unfolding req_slots
req_slots-InBounds params action h =
    let (s, _, h1) = >>=-eq-ok (req_p params "slots" action) slots_set h in slots_set-InBounds s h1

Member-of_ready :
    (s : PlanSimulator) (pod : String) → ready_member (lookup pod s.nodes) ≡ true → Member s pod
Member-of_ready s pod h = ground arith

pub Member-give :
    (pod : String) (slot : ℕ) (s : PlanSimulator) (q : String)
    → Member s q
    → Member (give_slot pod slot s) q
unfolding give_slot
Member-give pod slot s q m = Member-update pod (with_slot slot) s q (λ n h. h) m

pub assign-IsConsistent :
    (pod : String) (slots : List ℕ) (s : PlanSimulator) {t : PlanSimulator}
    → assign pod slots s ≡ ok t
    → All InBounds slots
    → Member s pod
    → IsConsistent s
    → IsConsistent t
unfolding assign
assign-IsConsistent pod [] s h b m c = subst IsConsistent (cc) c
assign-IsConsistent pod (slot ∷ slots) s h b m c =
    let (u, _, h1) = >>=-eq-ok (unowned slot (owner s slot)) _ h in
    assign-IsConsistent pod slots (give_slot pod slot s) h1 b.1 (Member-give pod slot s pod m)
      (give-IsConsistent pod slot s b.0 m c)

Member-move :
    (source target : String) (slot : ℕ) (s : PlanSimulator) (q : String)
    → Member s q
    → Member (move_slot source target slot s) q
unfolding move_slot
Member-move source target slot s q m =
    Member-give target slot (update_node source (without_slot slot) s) q
      (Member-update source (without_slot slot) s q (λ n h. h) m)

pub migrate-IsConsistent :
    (source target : String) (slots : List ℕ) (s : PlanSimulator) {t : PlanSimulator}
    → migrate source target slots s ≡ ok t
    → All InBounds slots
    → Member s target
    → IsConsistent s
    → IsConsistent t
unfolding migrate
migrate-IsConsistent source target [] s h b m c = subst IsConsistent (cc) c
migrate-IsConsistent source target (slot ∷ slots) s h b m c =
    let (u, o, h1) = >>=-eq-ok (move_owned source target slot s (owner s slot)) _ h in
    elim (move_owned-ok source target slot s (owner s slot) o) [
      | inr (e, same) ↦
          migrate-IsConsistent source target slots u h1 b.1
            (subst (λ r. Member r target) (sym same) m) (subst IsConsistent (sym same) c)
      | inl (e, moved) ↦
          migrate-IsConsistent source target slots u h1 b.1
            (subst (λ r. Member r target) (sym moved) (Member-move source target slot s target m))
            (subst IsConsistent (sym moved) (move-IsConsistent source target slot s b.0 m c))
    ]

module _ (n : SimulatedNode) (p : IsSound n) where
  declare-IsSound : (image : String) → IsSound (declare image n)
  declare-IsSound image = record {
    set = p.set;
    held_by_member = p.held_by_member;
    ready_exists = λ h. refl;
    rejoined = p.rejoined;
  }

  make_ready-IsSound : n.exists ≡ true → IsSound (make_ready n)
  make_ready-IsSound e = record {
    set = p.set;
    held_by_member = p.held_by_member;
    ready_exists = λ h. e;
    rejoined = λ h m. refl;
  }

  join-IsSound : n.ready ≡ true → IsSound (join n)
  join-IsSound e = record {
    set = p.set;
    held_by_member = λ h. refl;
    ready_exists = p.ready_exists;
    rejoined = λ h m. e;
  }

  make_master-IsSound : IsSound (make_master n)
  make_master-IsSound = record {
    set = p.set;
    held_by_member = p.held_by_member;
    ready_exists = p.ready_exists;
    rejoined = p.rejoined;
  }

  make_replica-IsSound : (master : String) → IsSound (make_replica master n)
  make_replica-IsSound master = record {
    set = p.set;
    held_by_member = p.held_by_member;
    ready_exists = p.ready_exists;
    rejoined = p.rejoined;
  }

  forget-IsSound : is_empty n.slots ≡ true → IsSound (forget n)
  forget-IsSound e = record {
    set = p.set;
    held_by_member = λ h. absurd (cc);
    ready_exists = p.ready_exists;
    rejoined = λ h m. absurd (cc);
  }

  remove-IsSound : n.cluster_member ≡ false → IsSound (remove n)
  remove-IsSound e = record {
    set = p.set;
    held_by_member = p.held_by_member;
    ready_exists = λ h. absurd (cc);
    rejoined = λ h m. absurd (cc);
  }

is_member_of :
    {o : Option SimulatedNode} {m n : SimulatedNode}
    → o ≡ some n
    → o ≡ some m
    → m.cluster_member ≡ false
    → n.cluster_member ≡ false
is_member_of l found member = ground arith

Move-IsConsistent :
    {step : Step} {s t : PlanSimulator} → Move step s t → IsConsistent s → IsConsistent t
Move-IsConsistent {s = s} (declares pod image _ e) c = rw e (
    update-IsConsistent pod (declare image) (ensure_node_key pod s) (λ n. refl)
      (λ n l p. declare-IsSound n p image) (ensure-IsConsistent pod s c))
Move-IsConsistent {s = s} (readies pod guarded e) c = rw e (
    update-IsConsistent pod make_ready s (λ n. refl)
      (λ n l p. make_ready-IsSound n p (rw l at guarded)) c)
Move-IsConsistent {s = s} (meets source target a b e) c = rw e (
    update-IsConsistent target join (update_node source join s) (λ n. refl)
      (λ n l p. join-IsSound n p (ground (arith, lookup-update source join s target, l, b)))
      (update-IsConsistent source join s (λ n. refl) (λ n l p. join-IsSound n p (rw l at a)) c))
Move-IsConsistent {s = s} (replicates master replica _ _ _ _ e) c = rw e (
    update-IsConsistent replica (make_replica master) (update_node master make_master s) (λ n. refl)
      (λ n l p. make_replica-IsSound n p master)
      (update-IsConsistent master make_master s (λ n. refl) (λ n l p. make_master-IsSound n p) c))
Move-IsConsistent {step = step} {s = s} (assigns pod slots ready _ _ named done) c =
    assign-IsConsistent pod (keys slots) s done (req_slots-InBounds step.params "AddSlots" named)
      (Member-of_ready s pod ready) c
Move-IsConsistent {step = step} {s = s} (migrates source target slots _ _ _ _ ready _ _ named done)
      c =
    migrate-IsConsistent source target (keys slots) s done
      (req_slots-InBounds step.params "MigrateSlots" named) (Member-of_ready s target ready) c
Move-IsConsistent {s = s} (forgets key member empty e) c =
    rw e
      (update-IsConsistent key forget s (λ n. refl) (λ n l p. forget-IsSound n p (rw l at empty)) c)
Move-IsConsistent {s = s} (deletes pod m found member e) c = rw e (
    update-IsConsistent pod remove s (λ n. refl)
      (λ n l p. remove-IsSound n p (is_member_of l found member)) c)
Move-IsConsistent (stays e) c = rw e c

-- Every accepted step keeps the simulated state consistent: the owner of a slot holds it, the owned slots
-- are in bounds, only members own slots, and ready pods exist.
pub apply-IsConsistent :
    (step : Step) (steps : List Step) (idx : ℕ) (s : PlanSimulator) {t : PlanSimulator}
    → apply step steps idx s ≡ ok t
    → IsConsistent s
    → IsConsistent t
apply-IsConsistent step steps idx s h c = Move-IsConsistent (apply-Move step s steps idx h) c

pub simulate_from-IsConsistent :
    (left steps : List Step) (idx : ℕ) (s : PlanSimulator) {t : PlanSimulator}
    → simulate_from left steps idx s ≡ ok t
    → IsConsistent s
    → IsConsistent t
unfolding simulate_from
simulate_from-IsConsistent [] steps idx s h c = subst IsConsistent (cc) c
simulate_from-IsConsistent (step ∷ left) steps idx s h c =
    let (u, e, h1) = >>=-eq-ok (wrap step.id (apply step steps idx s)) _ h in
    let (v, _, h2) = >>=-eq-ok (wrap step.id (check_invariants u)) _ h1 in
    simulate_from-IsConsistent left steps (idx + 1) u h2
      (apply-IsConsistent step steps idx s (wrap-eq-ok step.id _ e) c)
