-- ===== src/Validator/Simulator/Start.antt =====
-- The state that the simulator starts from is consistent, if the observed nodes are as the
-- controller collects them.
use llm_k8s_redis.Prelude.{
  ℕ, String, List, [], ◌∷◌, Map, some, true, false, string_keys, nat_keys, lookup, keys, All,
  is_blank, Option-cases, Bool-cases, ◌≡◌, refl, inl, inr, arith, subst, ok, err, str_eq_iff, split,
  trim_space,
}
use llm_k8s_redis.Plan.{ClusterSpec, ObservedNode}
use llm_k8s_redis.Observor.{observed_node_healthy}
use llm_k8s_redis.Cluster.Slots.{SlotSet, parse_slot_spec}
use llm_k8s_redis.Cluster.Bounds.{InBounds}
use llm_k8s_redis.Validator.Schema.{Checked, slots_set}
use llm_k8s_redis.Validator.Simulator.State.{
  SimulatedNode, PlanSimulator, ensure_node_key, update_node, give_slot, with_slot, observed_key,
  note_id, add_keys, observe, give_slots, give_parsed, add_observed, add_all_observed,
  add_observed_nodes, new_plan_simulator, empty_simulator,
}
use llm_k8s_redis.Validator.Simulator.Lookups.{lookup-update, lookup-ensure}
use llm_k8s_redis.Validator.Simulator.Consistent.{
  IsSound, IsConsistent, update-IsConsistent, ensure-IsConsistent,
}
use llm_k8s_redis.Validator.Simulator.Giving.{Member, give-IsConsistent}
use llm_k8s_redis.Validator.Simulator.Preserved.{slots_set-InBounds, Member-give}

-- What the controller's observation gives: a pod that is ready exists, and slots are read only from
-- a node that Redis lists.
pub record IsObserved (n : ObservedNode) : Type 0 where
  pub ready_pod : n.ready ≡ true → n.pod_exists ≡ true
  pub slots_seen : is_blank n.slots ≡ false → n.redis_seen ≡ true

abbrev NoneForgotten : PlanSimulator → Type 0
NoneForgotten s =
    (pod : String) (n : SimulatedNode) → lookup pod s.nodes ≡ some n → n.forgotten ≡ false

NoneForgotten-update :
    (key : String) (f : SimulatedNode → SimulatedNode) (s : PlanSimulator)
    → ((n : SimulatedNode) → (f n).forgotten ≡ n.forgotten)
    → NoneForgotten s
    → NoneForgotten (update_node key f s)
NoneForgotten-update key f s keeps before pod n l = elim (Option-cases (lookup pod s.nodes)) [
  | inl e ↦ absurd (ground (arith, lookup-update key f s pod, l, e))
  | inr (m, e) ↦ ground (arith, lookup-update key f s pod, l, e, keeps m, before pod m e)
]

NoneForgotten-ensure :
    (key : String) (s : PlanSimulator) → NoneForgotten s → NoneForgotten (ensure_node_key key s)
NoneForgotten-ensure key s before pod n l = elim (Option-cases (lookup pod s.nodes)) [
  | inl e ↦ ground (arith, lookup-ensure key s pod, l, e)
  | inr (m, e) ↦ ground (arith, lookup-ensure key s pod, l, e, before pod m e)
]

record IsStarting (s : PlanSimulator) : Type 0 where
  consistent : IsConsistent s
  unforgotten : NoneForgotten s

ensure-IsStarting :
    (key : String) (s : PlanSimulator) → IsStarting s → IsStarting (ensure_node_key key s)
ensure-IsStarting key s c = record {
  consistent = ensure-IsConsistent key s c.consistent;
  unforgotten = NoneForgotten-ensure key s c.unforgotten;
}

note_id-IsStarting :
    (n : ObservedNode) (key : String) (s : PlanSimulator)
    → IsStarting s
    → IsStarting (note_id n key s)
note_id-IsStarting n key s c = elim (Bool-cases (is_blank n.node_id)) [
  | inl blank ↦ rw blank c
  | inr some_id ↦ rw some_id (record {
    consistent = record {
      pods = c.consistent.pods;
      owned = c.consistent.owned;
      sound = c.consistent.sound;
      held = c.consistent.held;
      bounded = c.consistent.bounded;
    };
    unforgotten = c.unforgotten;
  })
]

add_keys-IsStarting :
    (nodes : List ObservedNode) (s : PlanSimulator) → IsStarting s → IsStarting (add_keys nodes s)
unfolding add_keys
add_keys-IsStarting [] s c = c
add_keys-IsStarting (n ∷ nodes) s c = elim (Bool-cases (is_blank (observed_key n))) [
  | inl blank ↦ rw blank (add_keys-IsStarting nodes s c)
  | inr keyed ↦ rw keyed (
      add_keys-IsStarting nodes _
        (ensure-IsStarting (observed_key n) _ (note_id-IsStarting n (observed_key n) s c)))
]

module _ (n : ObservedNode) (o : IsObserved n) (ids : Map String String) (sn : SimulatedNode) where
  observe_slots : (observe n ids sn).slots ≡ sn.slots
  observe_slots = ground arith

  observe_forgotten : (observe n ids sn).forgotten ≡ sn.forgotten
  observe_forgotten = ground arith

  observe-IsSound : sn.forgotten ≡ false → IsSound sn → IsSound (observe n ids sn)
  unfolding observed_node_healthy
  observe-IsSound f p = record {
    set = rw observe_slots p.set;
    held_by_member = λ h. ground (arith, p.held_by_member, h);
    ready_exists = λ h. ground (arith, p.ready_exists, o.ready_pod, h);
    rejoined = λ h m. absurd (cc (observe_forgotten, f, h));
  }

give_slots-IsStarting :
    (pod : String) (slots : List ℕ) (s : PlanSimulator)
    → All InBounds slots
    → Member s pod
    → IsStarting s
    → IsStarting (give_slots pod slots s)
unfolding give_slots
give_slots-IsStarting pod [] s b m c = c
give_slots-IsStarting pod (slot ∷ slots) s b m c =
    give_slots-IsStarting pod slots (give_slot pod slot s) b.1 (Member-give pod slot s pod m)
      (record { consistent = give-IsConsistent pod slot s b.0 m c.consistent; unforgotten = given })
  where
    given : NoneForgotten (give_slot pod slot s)
    given = NoneForgotten-update pod (with_slot slot) s (λ n. refl) c.unforgotten

slots_set-blank : slots_set "" ≡ ok []
unfolding slots_set parse_slot_spec split trim_space
slots_set-blank = refl

blank_text : (s : String) → is_blank s ≡ true → s ≡ ""
blank_text String.[] h = refl
blank_text (String.◌∷◌ c s) h = absurd (cc)

module _ (n : ObservedNode) (o : IsObserved n) (s : PlanSimulator) (c : IsStarting s) where
  abbrev key : String
  key = observed_key n

  abbrev placed : PlanSimulator
  placed = update_node key (observe n s.node_ids) (ensure_node_key key s)

  placed-IsStarting : IsStarting placed
  placed-IsStarting =
      let e = ensure-IsStarting key s c in
      record {
        consistent =
            update-IsConsistent key (observe n s.node_ids) (ensure_node_key key s)
              (observe_slots n o s.node_ids)
              (λ m l p. observe-IsSound n o s.node_ids m (e.unforgotten key m l) p) e.consistent;
        unforgotten =
            NoneForgotten-update key (observe n s.node_ids) (ensure_node_key key s)
              (observe_forgotten n o s.node_ids) e.unforgotten;
      }

  placed-Member : n.redis_seen ≡ true → Member placed key
  placed-Member seen = elim (Option-cases (lookup key s.nodes)) [
    | inl e ↦ ground (
      arith,
      lookup-update key (observe n s.node_ids) (ensure_node_key key s) key,
      lookup-ensure key s key,
      e,
      seen,
      str_eq_iff key key,
    )
    | inr (m, e) ↦ ground (
      arith,
      lookup-update key (observe n s.node_ids) (ensure_node_key key s) key,
      lookup-ensure key s key,
      e,
      seen,
      str_eq_iff key key,
    )
  ]

  parsed-IsStarting :
      (r : Checked SlotSet) → slots_set n.slots ≡ r → IsStarting (give_parsed key r placed)
  unfolding give_slots
  parsed-IsStarting (err e) h = placed-IsStarting
  parsed-IsStarting (ok set) h = elim (Bool-cases (is_blank n.slots)) [
    | inl blank ↦
        let none_given : [] ≡ set =
          cc (slots_set-blank, subst (λ t. slots_set t ≡ ok set) (blank_text n.slots blank) h) in
        subst (λ (m : SlotSet). IsStarting (give_parsed key (ok m) placed)) none_given
          (nothing placed-IsStarting)
    | inr named ↦
        give_slots-IsStarting key (keys set) placed (slots_set-InBounds n.slots h)
          (placed-Member (o.slots_seen named)) placed-IsStarting
  ]
    where
      nothing : IsStarting placed → IsStarting (give_slots key [] placed)
      nothing p = p

  add_observed-IsStarting : IsStarting (add_observed n s)
  unfolding add_observed
  add_observed-IsStarting = elim (Bool-cases (is_blank (observed_key n))) [
    | inl blank ↦ rw blank c
    | inr keyed ↦ rw keyed (parsed-IsStarting (slots_set n.slots) refl)
  ]

add_all_observed-IsStarting :
    (nodes : List ObservedNode) (s : PlanSimulator)
    → All IsObserved nodes
    → IsStarting s
    → IsStarting (add_all_observed nodes s)
unfolding add_all_observed
add_all_observed-IsStarting [] s o c = c
add_all_observed-IsStarting (n ∷ nodes) s o c =
    add_all_observed-IsStarting nodes (add_observed n s) o.1 (add_observed-IsStarting n o.0 s c)

empty-IsStarting : (spec : ClusterSpec) → IsStarting (empty_simulator spec)
unfolding lookup
empty-IsStarting spec = record {
  consistent = record {
    pods = tt;
    owned = tt;
    sound = λ pod n l. absurd (cc);
    held = λ slot pod h. absurd (cc);
    bounded = λ slot pod h. absurd (cc);
  };
  unforgotten = λ pod n l. absurd (cc);
}

-- From observed nodes that are as the controller collects them, the simulator starts in a
-- consistent state.
pub new_plan_simulator-IsConsistent :
    (spec : ClusterSpec) (nodes : List ObservedNode)
    → All IsObserved nodes
    → IsConsistent (new_plan_simulator spec nodes)
unfolding new_plan_simulator add_observed_nodes
new_plan_simulator-IsConsistent spec nodes o =
    (add_all_observed-IsStarting nodes _ o
      (add_keys-IsStarting nodes _ (empty-IsStarting spec))).consistent
