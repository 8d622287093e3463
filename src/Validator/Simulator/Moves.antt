-- ===== src/Validator/Simulator/Moves.antt =====
-- The steps that the simulator allows, as a relation: each constructor has the guards of an action
-- and the state after it. `apply` goes only along it.
use llm_k8s_redis.Prelude.{
  ℕ, String, List, Option, some, none, Bool, true, false, not, ◌||◌, ◌==◌, string_keys, nat_keys,
  lookup, ok, ◌>>◌, guard, >>=-eq-ok, guard-eq-ok, ◌≡◌, refl, arith, is_blank, is_empty, nat_eq,
}
use llm_k8s_redis.Plan.{
  Step, param_string, or_blank, ensure_node, wait_node_ready, meet_node, replicate_node, add_slots,
  migrate_slots, forget_node, delete_node, unknown,
}
use llm_k8s_redis.Plan
use llm_k8s_redis.Cluster.Slots.{SlotSet}
use llm_k8s_redis.Prelude.{keys}
use llm_k8s_redis.Validator.Schema.{Params}
use llm_k8s_redis.Validator.Simulator.State.{
  SimulatedNode, PlanSimulator, ensure_node_key, update_node,
}
use llm_k8s_redis.Validator.Simulator.Checks.{replica_count, verify_cluster}
use llm_k8s_redis.Validator.Simulator.Steps.{
  req_p, req_slots, ready_member, is_ready, role_of, is_master, ready_master, declare, node_exists,
  make_ready, join, slots_of, make_master, make_replica, assign, has_replica, migrate, is_member,
  forget, remove, forget_known, delete_found, ensure_node_step, wait_step, meet_step,
  replicate_step, add_slots_step, migrate_slots_step, forget_step, delete_step, apply_action, apply,
}

module _ (step : Step) (s t : PlanSimulator) where
  pub data Move : Type 0 where
    declares :
        (pod image : String)
        → image ≡ s.spec.image
        → t ≡ update_node pod (declare image) (ensure_node_key pod s)
        → Move
    readies :
        (pod : String)
        → node_exists (lookup pod s.nodes) ≡ true
        → t ≡ update_node pod make_ready s
        → Move
    meets :
        (source target : String)
        → is_ready (lookup source s.nodes) ≡ true
        → is_ready (lookup target s.nodes) ≡ true
        → t ≡ update_node target join (update_node source join s)
        → Move
    replicates :
        (master replica : String)
        → ready_member (lookup master s.nodes) ≡ true
        → (is_blank (role_of (lookup master s.nodes)) || is_master (lookup master s.nodes)) ≡ true
        → ready_member (lookup replica (update_node master make_master s).nodes) ≡ true
        → is_empty (slots_of (lookup replica (update_node master make_master s).nodes)) ≡ true
        → t ≡ update_node replica (make_replica master) (update_node master make_master s)
        → Move
    assigns :
        (pod : String) (slots : SlotSet)
        → ready_member (lookup pod s.nodes) ≡ true
        → is_master (lookup pod s.nodes) ≡ true
        → nat_eq (replica_count s pod) 0 ≡ false
        → req_slots step.params "AddSlots" ≡ ok slots
        → assign pod (keys slots) s ≡ ok t
        → Move
    migrates :
        (source target : String) (slots : SlotSet)
        → step.action ≡ migrate_slots
        → param_string step.params "sourcePod" ≡ some source
        → param_string step.params "targetPod" ≡ some target
        → (source == target) ≡ false
        → ready_member (lookup target s.nodes) ≡ true
        → is_master (lookup target s.nodes) ≡ true
        → nat_eq (replica_count s target) 0 ≡ false
        → req_slots step.params "MigrateSlots" ≡ ok slots
        → migrate source target (keys slots) s ≡ ok t
        → Move
    forgets :
        (key : String)
        → is_member (lookup key s.nodes) ≡ true
        → is_empty (slots_of (lookup key s.nodes)) ≡ true
        → t ≡ update_node key forget s
        → Move
    deletes :
        (pod : String) (n : SimulatedNode)
        → lookup pod s.nodes ≡ some n
        → n.cluster_member ≡ false
        → t ≡ update_node pod remove s
        → Move
    stays : t ≡ s → Move

pub req_p_param :
    (params : Params) (key action : String) {v : String}
    → req_p params key action ≡ ok v
    → (param_string params key ≡ some v) × (is_blank v ≡ false)
unfolding req_p
req_p_param params key action h = ground arith

pub not-true→false : (b : Bool) → not b ≡ true → b ≡ false
not-true→false true h = cc
not-true→false false h = refl

ready_master-ok :
    (s : PlanSimulator) (pod : String) {u : Unit {0}}
    → ready_master s pod ≡ ok u
    → (ready_member (lookup pod s.nodes) ≡ true) × (is_master (lookup pod s.nodes) ≡ true)
unfolding ready_master
ready_master-ok s pod h =
    let (v, a, h1) = >>=-eq-ok (guard (ready_member (lookup pod s.nodes)) _) _ h in
    (guard-eq-ok _ _ a, guard-eq-ok _ _ h1)

module _ (step : Step) (s : PlanSimulator) {t : PlanSimulator} where
  ensure_node_step-Move : ensure_node_step step s ≡ ok t → Move step s t
  unfolding ensure_node_step
  ensure_node_step-Move h =
      let (pod, p, h1) = >>=-eq-ok (req_p step.params "pod" "EnsureNode") _ h in
      let (image, q, h2) = >>=-eq-ok (req_p step.params "image" "EnsureNode") _ h1 in
      let (u, g, h3) = >>=-eq-ok (guard (image == s.spec.image) _) _ h2 in
      declares pod image ((string_keys.test_iff _ _).0 (guard-eq-ok _ _ g)) (cc)

  wait_step-Move : wait_step step s ≡ ok t → Move step s t
  unfolding wait_step
  wait_step-Move h =
      let (pod, p, h1) = >>=-eq-ok (req_p step.params "pod" "WaitNodeReady") _ h in
      let (u, g, h2) = >>=-eq-ok (guard (node_exists (lookup pod s.nodes)) _) _ h1 in
      readies pod (guard-eq-ok _ _ g) (cc)

  meet_step-Move : meet_step step s ≡ ok t → Move step s t
  unfolding meet_step
  meet_step-Move h =
      let (source, p, h1) = >>=-eq-ok (req_p step.params "sourcePod" "MeetNode") _ h in
      let (target, q, h2) = >>=-eq-ok (req_p step.params "targetPod" "MeetNode") _ h1 in
      let (u, d, h3) = >>=-eq-ok (guard (not (source == target)) _) _ h2 in
      let (v, f, h4) = >>=-eq-ok (guard (is_ready (lookup source s.nodes)) _) _ h3 in
      let (w, g, h5) = >>=-eq-ok (guard (is_ready (lookup target s.nodes)) _) _ h4 in
      meets source target (guard-eq-ok _ _ f) (guard-eq-ok _ _ g) (cc)

  replicate_step-Move : replicate_step step s ≡ ok t → Move step s t
  unfolding replicate_step
  replicate_step-Move h =
      let (master, p, h1) = >>=-eq-ok (req_p step.params "masterPod" "ReplicateNode") _ h in
      let (replica, q, h2) = >>=-eq-ok (req_p step.params "replicaPod" "ReplicateNode") _ h1 in
      let (u, a, h3) = >>=-eq-ok (guard (ready_member (lookup master s.nodes)) _) _ h2 in
      let (v, b, h4) =
        >>=-eq-ok
          (guard (is_blank (role_of (lookup master s.nodes)) || is_master (lookup master s.nodes))
            _)
          _ h3 in
      let m = update_node master make_master s in
      let (w, c, h5) = >>=-eq-ok (guard (ready_member (lookup replica m.nodes)) _) _ h4 in
      let (x, d, h6) = >>=-eq-ok (guard (is_empty (slots_of (lookup replica m.nodes))) _) _ h5 in
      replicates master replica (guard-eq-ok _ _ a) (guard-eq-ok _ _ b) (guard-eq-ok _ _ c)
        (guard-eq-ok _ _ d) (cc)

  add_slots_step-Move : add_slots_step step s ≡ ok t → Move step s t
  unfolding add_slots_step
  add_slots_step-Move h =
      let (pod, p, h1) = >>=-eq-ok (req_p step.params "pod" "AddSlots") _ h in
      let (u, a, h2) = >>=-eq-ok (ready_master s pod) _ h1 in
      let (v, b, h3) = >>=-eq-ok (has_replica s pod) _ h2 in
      let (slots, c, h4) = >>=-eq-ok (req_slots step.params "AddSlots") _ h3 in
      assigns pod slots (ready_master-ok s pod a).0 (ready_master-ok s pod a).1
        (not-true→false _ (guard-eq-ok _ _ b)) c h4

  migrate_slots_step-Move :
      step.action ≡ migrate_slots → migrate_slots_step step s ≡ ok t → Move step s t
  unfolding migrate_slots_step
  migrate_slots_step-Move acts h =
      let (source, p, h1) = >>=-eq-ok (req_p step.params "sourcePod" "MigrateSlots") _ h in
      let (target, q, h2) = >>=-eq-ok (req_p step.params "targetPod" "MigrateSlots") _ h1 in
      let (u, d, h3) = >>=-eq-ok (guard (not (source == target)) _) _ h2 in
      let (v, a, h4) = >>=-eq-ok (ready_master s source) _ h3 in
      let (w, b, h5) = >>=-eq-ok (ready_master s target) _ h4 in
      let (x, r, h6) = >>=-eq-ok (has_replica s target) _ h5 in
      let (slots, c, h7) = >>=-eq-ok (req_slots step.params "MigrateSlots") _ h6 in
      migrates source target slots acts (req_p_param _ _ _ p).0 (req_p_param _ _ _ q).0
        (not-true→false _ (guard-eq-ok _ _ d)) (ready_master-ok s target b).0
        (ready_master-ok s target b).1 (not-true→false _ (guard-eq-ok _ _ r)) c h7

  forget_known-Move :
      (pod : String) (found : Option String) → forget_known s pod found ≡ ok t → Move step s t
  forget_known-Move pod none h = absurd (cc)
  forget_known-Move pod (some key) h =
      let (u, a, h1) = >>=-eq-ok (guard (is_member (lookup key s.nodes)) _) _ h in
      let (v, b, h2) = >>=-eq-ok (guard (is_empty (slots_of (lookup key s.nodes))) _) _ h1 in
      forgets key (guard-eq-ok _ _ a) (guard-eq-ok _ _ b) (cc)

  forget_step-Move : forget_step step s ≡ ok t → Move step s t
  unfolding forget_step
  forget_step-Move h = forget_known-Move _ _ h

  delete_found-Move :
      (pod : String) (gone : Bool) (found : Option SimulatedNode)
      → lookup pod s.nodes ≡ found
      → delete_found s pod gone found ≡ ok t
      → Move step s t
  delete_found-Move pod true none e h = stays (cc)
  delete_found-Move pod false none e h = absurd (cc)
  delete_found-Move pod gone (some n) e h =
      let (u, a, h1) = >>=-eq-ok (guard (not n.cluster_member) _) _ h in
      deletes pod n e (not-true→false _ (guard-eq-ok _ _ a)) (cc)

  delete_step-Move :
      (steps : List Step) (idx : ℕ) → delete_step step steps idx s ≡ ok t → Move step s t
  unfolding delete_step
  delete_step-Move steps idx h =
      let (pod, p, h1) = >>=-eq-ok (req_p step.params "pod" "DeleteNode") _ h in
      delete_found-Move pod _ _ refl h1

  verify_cluster-Move : (verify_cluster step s >> ok s) ≡ ok t → Move step s t
  verify_cluster-Move h = let (u, a, h1) = >>=-eq-ok (verify_cluster step s) _ h in stays (cc)

  apply_action-Move :
      (a : Plan.ActionType) (steps : List Step) (idx : ℕ)
      → step.action ≡ a
      → apply_action a step steps idx s ≡ ok t
      → Move step s t
  unfolding apply_action
  apply_action-Move ensure_node steps idx e h = ensure_node_step-Move h
  apply_action-Move wait_node_ready steps idx e h = wait_step-Move h
  apply_action-Move meet_node steps idx e h = meet_step-Move h
  apply_action-Move replicate_node steps idx e h = replicate_step-Move h
  apply_action-Move add_slots steps idx e h = add_slots_step-Move h
  apply_action-Move migrate_slots steps idx e h = migrate_slots_step-Move e h
  apply_action-Move forget_node steps idx e h = forget_step-Move h
  apply_action-Move delete_node steps idx e h = delete_step-Move steps idx h
  apply_action-Move Plan.verify_cluster steps idx e h = verify_cluster-Move h
  apply_action-Move (unknown a) steps idx e h = absurd (cc)

  -- A step that the simulator accepts is one of the moves.
  pub apply-Move : (steps : List Step) (idx : ℕ) → apply step steps idx s ≡ ok t → Move step s t
  unfolding apply
  apply-Move steps idx h = apply_action-Move step.action steps idx refl h
