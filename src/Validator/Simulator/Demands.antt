-- ===== src/Validator/Simulator/Demands.antt =====
-- internal/validator/simulator.go: what each action is to bring about, in terms of the step's parameters.
use llm_k8s_redis.Prelude.{
  ℕ, String, List, [], ◌∷◌, some, none, true, false, string_keys, nat_keys, lookup, keys, In,
  is_blank, is_empty, Option-cases, Bool-cases, ◌≡◌, inl, inr, arith, subst, ok, >>=-eq-ok,
  nat_eq_iff, ◌⊎◌,
}
use llm_k8s_redis.Plan.{
  ActionType, Step, param_string, or_blank, ensure_node, wait_node_ready, meet_node, replicate_node,
  add_slots, migrate_slots, forget_node, delete_node, unknown,
}
use llm_k8s_redis.Plan
use llm_k8s_redis.Cluster.Slots.{SlotSet}
use llm_k8s_redis.Validator.Schema.{Params}
use llm_k8s_redis.Validator.Simulator.State.{SimulatedNode, PlanSimulator, give_slot}
use llm_k8s_redis.Validator.Simulator.Steps.{
  req_slots, assign, unowned, migrate, move_owned, first_known,
}
use llm_k8s_redis.Validator.Simulator.Lookups.{owners-give}
use llm_k8s_redis.Validator.Simulator.Ownership.{
  owner, owner-move, assign-owner, migrate-owner, move_owned-ok,
}

-- A pod's node and what is so of it.
abbrev pub At : PlanSimulator → String → (SimulatedNode → Type 0) → Type 0
At s pod P = (n : SimulatedNode) × (lookup pod s.nodes ≡ some n) × P n

abbrev Gives : Params → String → (String → Type 0) → Type 0
Gives p key P = (v : String) × (param_string p key ≡ some v) × P v

-- The pod exists, with the image of the spec or the one that it had.
abbrev pub Ensured : PlanSimulator → PlanSimulator → String → Type 0
Ensured s t pod = At t pod (λ n.
    (n.exists ≡ true)
    × ((n.image ≡ s.spec.image) ⊎ At s pod (λ m. (m.exists ≡ true) × (n.image ≡ m.image))))

-- A member of the cluster with a role.
abbrev pub Joined : SimulatedNode → Type 0
Joined n = (n.cluster_member ≡ true) × (is_blank n.role ≡ false)

abbrev pub IsReplicaOf : String → SimulatedNode → Type 0
IsReplicaOf master n =
    (n.role ≡ "replica")
    × (n.replica_of ≡ master)
    × (n.cluster_member ≡ true)
    × (is_empty n.slots ≡ true)

-- Every slot that the step names is the pod's.
abbrev Owns : PlanSimulator → Params → String → String → Type 0
Owns t p action pod =
    (slots : SlotSet) × (req_slots p action ≡ ok slots)
    × ((k : ℕ) → In k (keys slots) → owner t k ≡ some pod)

-- The keys under which a ForgetNode looks for its node.
abbrev pub forget_keys : Params → PlanSimulator → List String
forget_keys p s =
    or_blank (lookup (or_blank (param_string p "lastKnownNodeId")) s.node_ids)
    ∷ or_blank (param_string p "lastKnownNodeId")
    ∷ or_blank (param_string p "pod")
    ∷ []

-- What a step of an action with these parameters has brought about in the state after it.
abbrev pub Achieves : ActionType → Params → PlanSimulator → PlanSimulator → Type 0
Achieves ensure_node p s t = Gives p "pod" (Ensured s t)
Achieves wait_node_ready p s t = Gives p "pod" (λ pod. At t pod (λ n. n.ready ≡ true))
Achieves meet_node p s t =
    Gives p "sourcePod" (λ pod. At t pod Joined) × Gives p "targetPod" (λ pod. At t pod Joined)
Achieves replicate_node p s t = Gives p "masterPod" (λ master. Gives p "replicaPod" (λ replica.
    At t replica (IsReplicaOf master)
    × ((master ≡ replica) ⊎ At t master (λ n. n.role ≡ "master"))))
Achieves add_slots p s t = Gives p "pod" (Owns t p "AddSlots")
Achieves migrate_slots p s t = Gives p "targetPod" (Owns t p "MigrateSlots")
Achieves forget_node p s t =
    (key : String) × In key (forget_keys p s)
    × At t key (λ n. (n.cluster_member ≡ false) × (is_empty n.slots ≡ true))
Achieves delete_node p s t = Gives p "pod" (λ pod.
    (lookup pod t.nodes ≡ none)
    ⊎ At t pod (λ n. (n.exists ≡ false) × (n.ready ≡ false) × (n.cluster_member ≡ false)))
Achieves Plan.verify_cluster p s t = t ≡ s
Achieves (unknown a) p s t = ⊥

pub assign-owns :
    (pod : String) (slots : List ℕ) (s : PlanSimulator) {t : PlanSimulator} (k : ℕ)
    → assign pod slots s ≡ ok t
    → In k slots
    → owner t k ≡ some pod
unfolding assign
assign-owns pod [] s k h i = absurd i
assign-owns pod (slot ∷ slots) s k h i =
    let (u, free, h1) = >>=-eq-ok (unowned slot (owner s slot)) _ h in
    elim i [
      | inl e ↦
          assign-owner pod slots (give_slot pod slot s) k h1
            (ground (arith, owners-give pod slot s k, nat_eq_iff slot k, e))
      | inr there ↦ assign-owns pod slots (give_slot pod slot s) k h1 there
    ]

module _ (source target : String) where
  moved_owner :
      (slot : ℕ) (s u : PlanSimulator)
      → move_owned source target slot s (owner s slot) ≡ ok u
      → owner u slot ≡ some target
  moved_owner slot s u m = elim (move_owned-ok source target slot s (owner s slot) m) [
    | inl (e, moved) ↦
        rw moved (ground (arith, owner-move source target slot s slot, nat_eq_iff slot slot))
    | inr (e, same) ↦ rw same e
  ]

  pub migrate-owns :
      (slots : List ℕ) (s : PlanSimulator) {t : PlanSimulator} (k : ℕ)
      → migrate source target slots s ≡ ok t
      → In k slots
      → owner t k ≡ some target
  unfolding migrate
  migrate-owns [] s k h i = absurd i
  migrate-owns (slot ∷ slots) s {t} k h i =
      let (u, m, h1) = >>=-eq-ok (move_owned source target slot s (owner s slot)) _ h in
      elim i [
        | inr there ↦ migrate-owns slots u k h1 there
        | inl e ↦
            let at_slot = moved_owner slot s u m in
            let here : owner u k ≡ some target = subst (λ j. owner u j ≡ some target) e at_slot in
            elim (migrate-owner source target slots u k h1 here) [
              | inl kept ↦ kept
              | inr (from, there, moved) ↦ moved
            ]
      ]

pub first_known-In :
    (candidates : List String) (s : PlanSimulator) {key : String}
    → first_known candidates s ≡ some key
    → In key candidates
unfolding first_known
first_known-In [] s h = absurd (cc)
first_known-In (c ∷ candidates) s h = elim (Bool-cases (is_blank c)) [
  | inl blank ↦ inr (first_known-In candidates s (rw blank at h))
  | inr named ↦ elim (Option-cases (lookup c s.nodes)) [
    | inl e ↦ inr (first_known-In candidates s (rw (named, e) at h))
    | inr (n, e) ↦ inl (cc (rw (named, e) at h))
  ]
]
