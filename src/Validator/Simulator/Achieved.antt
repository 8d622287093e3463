-- ===== src/Validator/Simulator/Achieved.antt =====
-- internal/validator/simulator.go: that each accepted step brings about what its action demands.
use llm_k8s_redis.Prelude.{
  ℕ, String, List, Option, some, none, Bool, true, false, not, ◌==◌, string_keys, nat_keys, lookup,
  keys, is_blank, is_empty, ◌≡◌, refl, inl, inr, subst, ok, guard, ◌>>◌, >>=-eq-ok, guard-eq-ok,
  str_eq_iff, ◌⊎◌, ◌||◌,
}
use llm_k8s_redis.Plan.{
  ActionType, Step, param_string, or_blank, ensure_node, wait_node_ready, meet_node, replicate_node,
  add_slots, migrate_slots, forget_node, delete_node, unknown,
}
use llm_k8s_redis.Plan
use llm_k8s_redis.Validator.Simulator.State.{SimulatedNode, PlanSimulator, update_node}
use llm_k8s_redis.Validator.Simulator.Checks.{verify_cluster}
use llm_k8s_redis.Validator.Simulator.Steps.{
  req_p, req_slots, ready_member, is_ready, role_of, is_master, ready_master, node_exists, slots_of,
  make_master, has_replica, is_member, remove, first_known, forget_known, delete_found,
  ensure_node_step, wait_step, meet_step, replicate_step, add_slots_step, migrate_slots_step,
  forget_step, delete_step, apply_action, apply,
}
use llm_k8s_redis.Validator.Simulator.Moves.{req_p_param, not-true→false}
use llm_k8s_redis.Validator.Simulator.Demands.{
  At, Achieves, forget_keys, assign-owns, migrate-owns, first_known-In,
}
use llm_k8s_redis.Validator.Simulator.Written.{
  written, Ensured-of, readied, met, replicated, forgotten_at,
}

module _ (step : Step) (s : PlanSimulator) {t : PlanSimulator} where
  ensure_node_step-Achieves : ensure_node_step step s ≡ ok t → Achieves ensure_node step.params s t
  unfolding ensure_node_step
  ensure_node_step-Achieves h =
      let (pod, a, h1) = >>=-eq-ok (req_p step.params "pod" "EnsureNode") _ h in
      let (image, q, h2) = >>=-eq-ok (req_p step.params "image" "EnsureNode") _ h1 in
      let (u, g, h3) = >>=-eq-ok (guard (image == s.spec.image) _) _ h2 in
      let same = (str_eq_iff image s.spec.image).0 (guard-eq-ok _ _ g) in
      (pod, (req_p_param _ _ _ a).0, Ensured-of s t pod image same (cc))

  wait_step-Achieves : wait_step step s ≡ ok t → Achieves wait_node_ready step.params s t
  unfolding wait_step
  wait_step-Achieves h =
      let (pod, a, h1) = >>=-eq-ok (req_p step.params "pod" "WaitNodeReady") _ h in
      let (u, g, h2) = >>=-eq-ok (guard (node_exists (lookup pod s.nodes)) _) _ h1 in
      (pod, (req_p_param _ _ _ a).0, readied s t pod (guard-eq-ok _ _ g) (cc))

  meet_step-Achieves : meet_step step s ≡ ok t → Achieves meet_node step.params s t
  unfolding meet_step
  meet_step-Achieves h =
      let (source, a, h1) = >>=-eq-ok (req_p step.params "sourcePod" "MeetNode") _ h in
      let (target, b, h2) = >>=-eq-ok (req_p step.params "targetPod" "MeetNode") _ h1 in
      let (u, d, h3) = >>=-eq-ok (guard (not (source == target)) _) _ h2 in
      let (v, f, h4) = >>=-eq-ok (guard (is_ready (lookup source s.nodes)) _) _ h3 in
      let (w, g, h5) = >>=-eq-ok (guard (is_ready (lookup target s.nodes)) _) _ h4 in
      let apart = not-true→false (source == target) (guard-eq-ok _ _ d) in
      let (at_source, at_target) =
        met s t source target apart (guard-eq-ok _ _ f) (guard-eq-ok _ _ g) (cc) in
      ((source, (req_p_param _ _ _ a).0, at_source), (target, (req_p_param _ _ _ b).0, at_target))

  replicate_step-Achieves : replicate_step step s ≡ ok t → Achieves replicate_node step.params s t
  unfolding replicate_step
  replicate_step-Achieves h =
      let (master, p, h1) = >>=-eq-ok (req_p step.params "masterPod" "ReplicateNode") _ h in
      let (replica, q, h2) = >>=-eq-ok (req_p step.params "replicaPod" "ReplicateNode") _ h1 in
      let (u, a, h3) = >>=-eq-ok (guard (ready_member (lookup master s.nodes)) _) _ h2 in
      let (v, b, h4) =
        >>=-eq-ok
          (guard (is_blank (role_of (lookup master s.nodes)) || is_master (lookup master s.nodes))
            _)
          _ h3 in
      let m = update_node master make_master s in
      let (w, c, h5) = >>=-eq-ok (guard (ready_member (lookup replica m.nodes)) _) _ h4 in
      let (x, d, h6) = >>=-eq-ok (guard (is_empty (slots_of (lookup replica m.nodes))) _) _ h5 in
      let done =
        replicated s t master replica (guard-eq-ok _ _ a) (guard-eq-ok _ _ c) (guard-eq-ok _ _ d)
          (cc) in
      (master, (req_p_param _ _ _ p).0, (replica, (req_p_param _ _ _ q).0, done))

  add_slots_step-Achieves : add_slots_step step s ≡ ok t → Achieves add_slots step.params s t
  unfolding add_slots_step
  add_slots_step-Achieves h =
      let (pod, p, h1) = >>=-eq-ok (req_p step.params "pod" "AddSlots") _ h in
      let (u, a, h2) = >>=-eq-ok (ready_master s pod) _ h1 in
      let (v, b, h3) = >>=-eq-ok (has_replica s pod) _ h2 in
      let (slots, c, h4) = >>=-eq-ok (req_slots step.params "AddSlots") _ h3 in
      (pod, (req_p_param _ _ _ p).0, (slots, c, λ k i. assign-owns pod (keys slots) s k h4 i))

  migrate_slots_step-Achieves :
      migrate_slots_step step s ≡ ok t → Achieves migrate_slots step.params s t
  unfolding migrate_slots_step
  migrate_slots_step-Achieves h =
      let (source, p, h1) = >>=-eq-ok (req_p step.params "sourcePod" "MigrateSlots") _ h in
      let (target, q, h2) = >>=-eq-ok (req_p step.params "targetPod" "MigrateSlots") _ h1 in
      let (u, d, h3) = >>=-eq-ok (guard (not (source == target)) _) _ h2 in
      let (v, a, h4) = >>=-eq-ok (ready_master s source) _ h3 in
      let (w, b, h5) = >>=-eq-ok (ready_master s target) _ h4 in
      let (x, r, h6) = >>=-eq-ok (has_replica s target) _ h5 in
      let (slots, c, h7) = >>=-eq-ok (req_slots step.params "MigrateSlots") _ h6 in
      (
        target,
        (req_p_param _ _ _ q).0,
        (slots, c, λ k i. migrate-owns source target (keys slots) s k h7 i),
      )

  forget_known-Achieves :
      (pod : String) (found : Option String)
      → first_known (forget_keys step.params s) s ≡ found
      → forget_known s pod found ≡ ok t
      → Achieves forget_node step.params s t
  forget_known-Achieves pod none f h = absurd (cc)
  forget_known-Achieves pod (some key) f h =
      let (u, a, h1) = >>=-eq-ok (guard (is_member (lookup key s.nodes)) _) _ h in
      let (v, b, h2) = >>=-eq-ok (guard (is_empty (slots_of (lookup key s.nodes))) _) _ h1 in
      (
        key,
        first_known-In (forget_keys step.params s) s f,
        forgotten_at s t key (guard-eq-ok _ _ a) (guard-eq-ok _ _ b) (cc),
      )

  forget_step-Achieves : forget_step step s ≡ ok t → Achieves forget_node step.params s t
  unfolding forget_step
  forget_step-Achieves h = forget_known-Achieves _ _ refl h

  deleted :
      (pod : String) (gone : Bool) (found : Option SimulatedNode)
      → lookup pod s.nodes ≡ found
      → delete_found s pod gone found ≡ ok t
      → (lookup pod t.nodes ≡ none)
        ⊎ At t pod (λ n. (n.exists ≡ false) × (n.ready ≡ false) × (n.cluster_member ≡ false))
  deleted pod true none e h =
      let same : s ≡ t = cc in inl (subst (λ (x : PlanSimulator). lookup pod x.nodes ≡ none) same e)
  deleted pod false none e h = absurd (cc)
  deleted pod gone (some n) e h =
      let (u, a, h1) = >>=-eq-ok (guard (not n.cluster_member) _) _ h in
      let left = not-true→false _ (guard-eq-ok _ _ a) in
      let same : update_node pod remove s ≡ t = cc in
      inr (
        remove n,
        subst (λ (x : PlanSimulator). lookup pod x.nodes ≡ some (remove n)) same
            (written pod remove s e),
        (refl, refl, left),
      )

  delete_step-Achieves :
      (steps : List Step) (idx : ℕ)
      → delete_step step steps idx s ≡ ok t
      → Achieves delete_node step.params s t
  unfolding delete_step
  delete_step-Achieves steps idx h =
      let (pod, p, h1) = >>=-eq-ok (req_p step.params "pod" "DeleteNode") _ h in
      (pod, (req_p_param _ _ _ p).0, deleted pod _ _ refl h1)

  verify_cluster-same : (verify_cluster step s >> ok s) ≡ ok t → t ≡ s
  verify_cluster-same h = let (u, a, h1) = >>=-eq-ok (verify_cluster step s) _ h in cc

  apply_action-Achieves :
      (a : ActionType) (steps : List Step) (idx : ℕ)
      → apply_action a step steps idx s ≡ ok t
      → Achieves a step.params s t
  unfolding apply_action
  apply_action-Achieves ensure_node steps idx h = ensure_node_step-Achieves h
  apply_action-Achieves wait_node_ready steps idx h = wait_step-Achieves h
  apply_action-Achieves meet_node steps idx h = meet_step-Achieves h
  apply_action-Achieves replicate_node steps idx h = replicate_step-Achieves h
  apply_action-Achieves add_slots steps idx h = add_slots_step-Achieves h
  apply_action-Achieves migrate_slots steps idx h = migrate_slots_step-Achieves h
  apply_action-Achieves forget_node steps idx h = forget_step-Achieves h
  apply_action-Achieves delete_node steps idx h = delete_step-Achieves steps idx h
  apply_action-Achieves Plan.verify_cluster steps idx h = verify_cluster-same h
  apply_action-Achieves (unknown a) steps idx h = absurd (cc)

  -- An accepted step leaves the cluster as its action and its parameters demand. The pod of an EnsureNode
  -- exists, with the image of the spec or the one that it had; that of a WaitNodeReady is ready; those of a
  -- MeetNode are members with a role; that of a ReplicateNode is a member without slots and a replica of the
  -- named master, whose role is master if it is another pod; the slots of an AddSlots or a MigrateSlots belong
  -- to its pod or its target; a node that a ForgetNode names is no member and has no slots; the pod of a
  -- DeleteNode is unknown or neither exists nor is ready nor a member; a VerifyCluster changes nothing.
  pub apply-Achieves :
      (steps : List Step) (idx : ℕ)
      → apply step steps idx s ≡ ok t
      → Achieves step.action step.params s t
  unfolding apply
  apply-Achieves steps idx h = apply_action-Achieves step.action steps idx h
