-- ===== src/Validator/Accepted.antt =====
-- What an accepted plan achieves: `Validate` as a whole.
use llm_k8s_redis.Prelude.{
  ℕ, ◌+◌, String, List, [], ◌∷◌, ◌++◌, some, All, ◌≡◌, refl, inl, inr, arith, ◌∙◌, ap, subst, ok,
  err, >>=-eq-ok, string_keys, nat_keys,
}
use llm_k8s_redis.Plan.{ActionType, verify_cluster, Step, Plan, ClusterSpec, ObservedNode}
use llm_k8s_redis.Cluster.Slots.{SlotSet}
use llm_k8s_redis.Prelude.{keys}
use llm_k8s_redis.Validator.Schema.{pass, wrap, wrap-eq-ok, is_plan_valid}
use llm_k8s_redis.Validator.WellFormed.{IsWellFormed, is_plan_valid_sound}
use llm_k8s_redis.Validator.Simulator.State.{
  PlanSimulator, ensure_node_key, update_node, give_slot, with_slot, observed_key, note_id,
  add_keys, give_slots, give_parsed, observe, add_observed, add_all_observed, add_observed_nodes,
  new_plan_simulator, empty_simulator,
}
use llm_k8s_redis.Validator.Schema.{Checked, slots_set}
use llm_k8s_redis.Validator.Simulator.Checks.{check_invariants}
use llm_k8s_redis.Validator.Simulator.Checks
use llm_k8s_redis.Validator.Simulator.Steps.{
  assign, unowned, migrate, move_owned, move_slot, without_slot, declare, make_ready, join,
  make_master, make_replica, forget, remove, apply_action, apply, simulate_from, simulate_plan,
  validate,
}
use llm_k8s_redis.Validator.Simulator.Lookups.{spec-update, spec-ensure}
use llm_k8s_redis.Validator.Simulator.Moves.{
  Move, declares, readies, meets, replicates, assigns, migrates, forgets, deletes, stays,
  apply-Move,
}
use llm_k8s_redis.Validator.Simulator.Ownership.{owner, move_owned-ok}
use llm_k8s_redis.Validator.Simulator.Preserved.{simulate_from-IsConsistent}
use llm_k8s_redis.Validator.Simulator.Start.{IsObserved, new_plan_simulator-IsConsistent}
use llm_k8s_redis.Validator.Simulator.Goal.{MeetsGoal, verify_cluster-MeetsGoal}

spec-give : (pod : String) (slot : ℕ) (s : PlanSimulator) → (give_slot pod slot s).spec ≡ s.spec
unfolding give_slot
spec-give pod slot s = spec-update pod (with_slot slot) s

spec-move :
    (source target : String) (slot : ℕ) (s : PlanSimulator)
    → (move_slot source target slot s).spec ≡ s.spec
unfolding move_slot
spec-move source target slot s = spec-give target slot _ ∙ spec-update source (without_slot slot) s

spec-assign :
    (pod : String) (slots : List ℕ) (s : PlanSimulator) {t : PlanSimulator}
    → assign pod slots s ≡ ok t
    → t.spec ≡ s.spec
unfolding assign
spec-assign pod [] s h = ground arith
spec-assign pod (slot ∷ slots) s h =
    let (u, _, h1) = >>=-eq-ok (unowned slot (owner s slot)) _ h in
    spec-assign pod slots (give_slot pod slot s) h1 ∙ spec-give pod slot s

spec-migrate :
    (source target : String) (slots : List ℕ) (s : PlanSimulator) {t : PlanSimulator}
    → migrate source target slots s ≡ ok t
    → t.spec ≡ s.spec
unfolding migrate
spec-migrate source target [] s h = ground arith
spec-migrate source target (slot ∷ slots) s h =
    let (u, o, h1) = >>=-eq-ok (move_owned source target slot s (owner s slot)) _ h in
    spec-migrate source target slots u h1
    ∙ (elim (move_owned-ok source target slot s (owner s slot) o) [
      | inr (e, same) ↦ ap (λ r. r.spec) same
      | inl (e, moved) ↦ ap (λ r. r.spec) moved ∙ spec-move source target slot s
    ])

Move-spec : {step : Step} {s t : PlanSimulator} → Move step s t → t.spec ≡ s.spec
Move-spec {s = s} (declares pod image _ e) =
    ap (λ r. r.spec) e ∙ spec-update pod (declare image) _ ∙ spec-ensure pod s
Move-spec {s = s} (readies pod _ e) = ap (λ r. r.spec) e ∙ spec-update pod make_ready s
Move-spec {s = s} (meets source target _ _ e) =
    ap (λ r. r.spec) e ∙ spec-update target join _ ∙ spec-update source join s
Move-spec {s = s} (replicates master replica _ _ _ _ e) =
    ap (λ r. r.spec) e
    ∙ spec-update replica (make_replica master) _
    ∙ spec-update master make_master s
Move-spec {s = s} (assigns pod slots _ _ _ _ done) = spec-assign pod (keys slots) s done
Move-spec {s = s} (migrates source target slots _ _ _ _ _ _ _ _ done) =
    spec-migrate source target (keys slots) s done
Move-spec {s = s} (forgets key _ _ e) = ap (λ r. r.spec) e ∙ spec-update key forget s
Move-spec {s = s} (deletes pod _ _ _ e) = ap (λ r. r.spec) e ∙ spec-update pod remove s
Move-spec (stays e) = ap (λ r. r.spec) e

spec-simulate_from :
    (left steps : List Step) (idx : ℕ) (s : PlanSimulator) {t : PlanSimulator}
    → simulate_from left steps idx s ≡ ok t
    → t.spec ≡ s.spec
unfolding simulate_from
spec-simulate_from [] steps idx s h = ground arith
spec-simulate_from (step ∷ left) steps idx s h =
    let (u, e, h1) = >>=-eq-ok (wrap step.id (apply step steps idx s)) _ h in
    let (v, _, h2) = >>=-eq-ok (wrap step.id (check_invariants u)) _ h1 in
    spec-simulate_from left steps (idx + 1) u h2
    ∙ Move-spec (apply-Move step s steps idx (wrap-eq-ok step.id _ e))

apply_action-verified :
    (a : ActionType) (step : Step) (steps : List Step) (idx : ℕ) (s : PlanSimulator)
    {t : PlanSimulator}
    → a ≡ verify_cluster
    → apply_action a step steps idx s ≡ ok t
    → Checks.verify_cluster step t ≡ pass
unfolding apply_action
apply_action-verified verify_cluster step steps idx s {t} e h =
    let (u, passed, same) = >>=-eq-ok (Checks.verify_cluster step s) _ h in
    let s≡t : s ≡ t = cc in subst (λ r. Checks.verify_cluster step r ≡ pass) s≡t passed
apply_action-verified _ step steps idx s e h = absurd (cc)

apply-verified :
    (step : Step) (steps : List Step) (idx : ℕ) (s : PlanSimulator) {t : PlanSimulator}
    → step.action ≡ verify_cluster
    → apply step steps idx s ≡ ok t
    → Checks.verify_cluster step t ≡ pass
unfolding apply
apply-verified step steps idx s v h = apply_action-verified step.action step steps idx s v h

-- A run that ends in a VerifyCluster step ends in a state that passes it.
simulate_from-verified :
    (before : List Step) (last : Step) (steps : List Step) (idx : ℕ) (s : PlanSimulator)
    {t : PlanSimulator}
    → last.action ≡ verify_cluster
    → simulate_from (before ++ last ∷ []) steps idx s ≡ ok t
    → Checks.verify_cluster last t ≡ pass
unfolding simulate_from
simulate_from-verified [] last steps idx s {t} v h =
    let (u, e, h1) = >>=-eq-ok (wrap last.id (apply last steps idx s)) _ h in
    let (w, _, h2) = >>=-eq-ok (wrap last.id (check_invariants u)) _ h1 in
    let u≡t : u ≡ t = cc in
    subst (λ r. Checks.verify_cluster last r ≡ pass) u≡t
      (apply-verified last steps idx s v (wrap-eq-ok last.id _ e))
simulate_from-verified (step ∷ before) last steps idx s v h =
    let (u, e, h1) = >>=-eq-ok (wrap step.id (apply step steps idx s)) _ h in
    let (w, _, h2) = >>=-eq-ok (wrap step.id (check_invariants u)) _ h1 in
    simulate_from-verified before last steps (idx + 1) u v h2

spec-add_keys : (nodes : List ObservedNode) (s : PlanSimulator) → (add_keys nodes s).spec ≡ s.spec
unfolding add_keys
spec-add_keys [] s = refl
spec-add_keys (n ∷ nodes) s = ground (
  arith,
  spec-add_keys nodes s,
  spec-add_keys nodes (ensure_node_key (observed_key n) (note_id n (observed_key n) s)),
  spec-ensure (observed_key n) (note_id n (observed_key n) s),
)

spec-give_slots :
    (pod : String) (slots : List ℕ) (s : PlanSimulator) → (give_slots pod slots s).spec ≡ s.spec
unfolding give_slots
spec-give_slots pod [] s = refl
spec-give_slots pod (slot ∷ slots) s =
    spec-give_slots pod slots (give_slot pod slot s) ∙ spec-give pod slot s

spec-give_parsed :
    (key : String) (r : Checked SlotSet) (s : PlanSimulator) → (give_parsed key r s).spec ≡ s.spec
spec-give_parsed key (ok set) s = spec-give_slots key (keys set) s
spec-give_parsed key (err e) s = refl

spec-add_all_observed :
    (nodes : List ObservedNode) (s : PlanSimulator) → (add_all_observed nodes s).spec ≡ s.spec
unfolding add_all_observed add_observed
spec-add_all_observed [] s = refl
spec-add_all_observed (n ∷ nodes) s = spec-add_all_observed nodes (add_observed n s) ∙ placed
  where
    placed : (add_observed n s).spec ≡ s.spec
    placed = ground (
      arith,
      spec-give_parsed (observed_key n) (slots_set n.slots) (
          update_node (observed_key n) (observe n s.node_ids) (ensure_node_key (observed_key n) s)),
      spec-update (observed_key n) (observe n s.node_ids) (ensure_node_key (observed_key n) s),
      spec-ensure (observed_key n) s,
    )

spec-new_plan_simulator :
    (spec : ClusterSpec) (nodes : List ObservedNode) → (new_plan_simulator spec nodes).spec ≡ spec
unfolding new_plan_simulator add_observed_nodes
spec-new_plan_simulator spec nodes =
    spec-add_all_observed nodes _ ∙ spec-add_keys nodes (empty_simulator spec)

-- If the observed nodes are as the controller collects them, an accepted plan is well formed and
-- its last step, a VerifyCluster, finds the simulated cluster at its goal: as many serving masters
-- as it expects, and each of the 16384 slots held by one of them, which runs the image of the spec
-- and has the expected number of replicas.
pub validate-MeetsGoal :
    (spec : ClusterSpec) (nodes : List ObservedNode) (p : Plan) (s : PlanSimulator)
    → All IsObserved nodes
    → validate spec nodes (some p) ≡ ok s
    → IsWellFormed p
      × ((before : List Step) × (last : Step) × (p.steps ≡ before ++ last ∷ [])
          × (last.action ≡ verify_cluster)
          × MeetsGoal last s
          × (s.spec ≡ spec))
unfolding validate simulate_plan
validate-MeetsGoal spec nodes p s o h =
    let (q, valid, run) = >>=-eq-ok (is_plan_valid (some p)) _ h in
    let (form, p≡q) = is_plan_valid_sound p q valid in
    let ran : simulate_from p.steps p.steps 0 (new_plan_simulator spec nodes) ≡ ok s = rw p≡q run in
    let (before, last, e, v) = form.ends in
    let c =
      simulate_from-IsConsistent p.steps p.steps 0 _ ran
        (new_plan_simulator-IsConsistent spec nodes o) in
    let passed =
      simulate_from-verified before last p.steps 0 (new_plan_simulator spec nodes) v
        (subst (λ l. simulate_from l p.steps 0 (new_plan_simulator spec nodes) ≡ ok s) e ran) in
    (
      form,
      (
        before,
        last,
        e,
        v,
        verify_cluster-MeetsGoal last s c passed,
        spec-simulate_from p.steps p.steps 0 _ ran ∙ spec-new_plan_simulator spec nodes,
      ),
    )
