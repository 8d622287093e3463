-- ===== src/Validator/Params.antt =====
-- The form check of a step and what the simulator reads of it: a step that passes names every pod
-- and text, and slots that parse.
use llm_k8s_redis.Prelude.{
  ℤ, guard, guard-eq-ok, ◌⊎◌, ℕ, String, List, [], ◌∷◌, Option, some, none, Bool, true, false, All,
  ok, >>=-eq-ok, Option-cases, Bool-cases, ◌≡◌, refl, inl, inr, is_blank, ap, sym, ◌∙◌,
}
use llm_k8s_redis.Plan.{
  ActionType, ensure_node, wait_node_ready, meet_node, replicate_node, add_slots, migrate_slots,
  forget_node, delete_node, verify_cluster, unknown, Step, Value, str, bool, int, int32, int64,
  float64, null, other, param, param_int, param_string, or_blank,
}
use llm_k8s_redis.Cluster.Slots.{SlotSet}
use llm_k8s_redis.Validator.Schema.{
  check_int, require_int_params, check_true, require_true_bool_params, is_present, forget_schema,
  Params, pass, check_string, require_string_params, check_pod, check_pods, require_pod_params,
  redis_pod_ordinal, slots_set, require_slots_param, pods_schema, slots_schema, step_schema,
  validate_step_schema,
}
use llm_k8s_redis.Validator.Errors.{no_forget_target}
use llm_k8s_redis.Validator.Simulator.Checks.{need_int}
use llm_k8s_redis.Validator.Simulator.Steps.{req_p, req_slots, is_forget}

-- The parameters that name a pod, and all those that are texts.
abbrev pub pod_keys : ActionType → List String
pod_keys ensure_node = "pod" ∷ []
pod_keys wait_node_ready = "pod" ∷ []
pod_keys meet_node = "sourcePod" ∷ "targetPod" ∷ []
pod_keys replicate_node = "masterPod" ∷ "replicaPod" ∷ []
pod_keys add_slots = "pod" ∷ []
pod_keys migrate_slots = "sourcePod" ∷ "targetPod" ∷ []
pod_keys delete_node = "pod" ∷ []
pod_keys _ = []

abbrev pub takes_image : ActionType → Bool
takes_image ensure_node = true
takes_image _ = false

abbrev pub takes_slots : ActionType → Bool
takes_slots add_slots = true
takes_slots migrate_slots = true
takes_slots _ = false

-- The simulator finds the text under the key, in whatever action asks for it.
abbrev pub IsGiven : Params → String → Type 0
IsGiven p key = (v : String) × ((action : String) → req_p p key action ≡ ok v)

-- The text under the key is a pod's name with an ordinal.
abbrev pub NamesPod : Params → String → Type 0
NamesPod p key =
    (v : String) × (n : ℕ) × ((action : String) → req_p p key action ≡ ok v)
    × (redis_pod_ordinal v ≡ some n)

abbrev pub int_keys : ActionType → List String
int_keys verify_cluster = "expectedShards" ∷ "expectedReplicasPerShard" ∷ []
int_keys _ = []

abbrev pub true_keys : ActionType → List String
true_keys verify_cluster =
    "requireClusterStateOk" ∷ "requireFullSlotCoverage" ∷ "requireAllSlotOwnersHaveReplicas" ∷ []
true_keys _ = []

-- The simulator finds an integer under the key.
abbrev pub IsCounted : Params → String → Type 0
IsCounted p key = (i : ℤ) × (need_int key (param_int p key) ≡ ok i)

-- What names the node that a ForgetNode forgets: a pod's name, which is checked if it is there, or a text.
abbrev pub NamesNode : Params → Type 0
NamesNode p = NamesPod p "pod" ⊎ IsGiven p "lastKnownNodeId"

pub record HasParams (a : ActionType) (p : Params) : Type 0 where
  pub pods : All (NamesPod p) (pod_keys a)
  pub image : takes_image a ≡ true → IsGiven p "image"
  pub slots :
      takes_slots a ≡ true → (set : SlotSet) × ((action : String) → req_slots p action ≡ ok set)
  pub ints : All (IsCounted p) (int_keys a)
  pub flags : All (λ key. param p key ≡ some (bool true)) (true_keys a)
  pub target : is_forget a ≡ true → NamesNode p

module _ (p : Params) where
  check_string-IsGiven :
      (key : String) → check_string key (param_string p key) ≡ pass → IsGiven p key
  unfolding req_p
  check_string-IsGiven key h = elim (Option-cases (param_string p key)) [
    | inl e ↦ absurd (cc (rw e at h))
    | inr (v, e) ↦ elim (Bool-cases (is_blank v)) [
      | inl blank ↦ absurd (cc (rw (e, blank) at h))
      | inr named ↦ (v, λ action. rw (e, named) refl)
    ]
  ]

  strings-IsGiven :
      (keys : List String) → require_string_params p keys ≡ pass → All (IsGiven p) keys
  unfolding require_string_params
  strings-IsGiven [] h = tt
  strings-IsGiven (key ∷ keys) h =
      let (u, g, h1) = >>=-eq-ok (check_string key (param_string p key)) _ h in
      (check_string-IsGiven key g, strings-IsGiven keys h1)

  given_text :
      (key : String) (v : String)
      → ((action : String) → req_p p key action ≡ ok v)
      → or_blank (param_string p key) ≡ v
  unfolding req_p
  given_text key v h = elim (Option-cases (param_string p key)) [
    | inl e ↦ absurd (cc (rw e at (h "")))
    | inr (w, e) ↦ elim (Bool-cases (is_blank w)) [
      | inl blank ↦ absurd (cc (rw (e, blank) at (h "")))
      | inr named ↦ rw e (cc (rw (e, named) at (h "")))
    ]
  ]

  check_pod-named :
      (key pod : String) (o : Option ℕ) → check_pod key pod o ≡ pass → (n : ℕ) × (o ≡ some n)
  check_pod-named key pod none h = absurd (cc)
  check_pod-named key pod (some n) h = (n, refl)

  check_pods-NamesPod :
      (keys : List String) → All (IsGiven p) keys → check_pods p keys ≡ pass → All (NamesPod p) keys
  unfolding check_pods
  check_pods-NamesPod [] g h = tt
  check_pods-NamesPod (key ∷ keys) g h =
      let pod = or_blank (param_string p key) in
      let (u, c, h1) = >>=-eq-ok (check_pod key pod (redis_pod_ordinal pod)) _ h in
      let (n, o) = check_pod-named key pod _ c in
      (
        (g.0.0, n, g.0.1, ap redis_pod_ordinal (sym (given_text key g.0.0 g.0.1)) ∙ o),
        check_pods-NamesPod keys g.1 h1,
      )

  pods-NamesPod : (keys : List String) → require_pod_params p keys ≡ pass → All (NamesPod p) keys
  unfolding require_pod_params
  pods-NamesPod keys h =
      let (u, g, h1) = >>=-eq-ok (require_string_params p keys) _ h in
      check_pods-NamesPod keys (strings-IsGiven keys g) h1

  slots-given :
      IsGiven p "slots"
      → require_slots_param p "slots" ≡ pass
      → (set : SlotSet) × ((action : String) → req_slots p action ≡ ok set)
  unfolding require_slots_param req_slots
  slots-given (v, g) h =
      let (set, e, _) = >>=-eq-ok (slots_set (or_blank (param_string p "slots"))) _ h in
      (set, λ action. rw (g action) (ap slots_set (sym (given_text "slots" v g)) ∙ e))

  pods_schema-pods :
      (texts pods : List String)
      → pods_schema p texts pods ≡ pass
      → All (IsGiven p) texts × All (NamesPod p) pods
  pods_schema-pods texts pods h =
      let (u, g, h1) = >>=-eq-ok (require_string_params p texts) _ h in
      (strings-IsGiven texts g, pods-NamesPod pods h1)

  slots_schema-HasParams :
      (pods : List String)
      → slots_schema p pods ≡ pass
      → All (NamesPod p) pods
        × ((set : SlotSet) × ((action : String) → req_slots p action ≡ ok set))
  slots_schema-HasParams pods h =
      let (u, g, h1) = >>=-eq-ok (require_string_params p ("namespace" ∷ "slots" ∷ [])) _ h in
      let (v, s, h2) = >>=-eq-ok (require_slots_param p "slots") _ h1 in
      (pods-NamesPod pods h2, slots-given (strings-IsGiven ("namespace" ∷ "slots" ∷ []) g).1.0 s)

  pods_only :
      (a : ActionType)
      → takes_image a ≡ false
      → takes_slots a ≡ false
      → is_forget a ≡ false
      → All (IsCounted p) (int_keys a)
      → All (λ key. param p key ≡ some (bool true)) (true_keys a)
      → All (NamesPod p) (pod_keys a)
      → HasParams a p
  pods_only a i s f ints flags h = record {
    pods = h;
    image = λ t. absurd (cc (i, t));
    slots = λ t. absurd (cc (s, t));
    ints = ints;
    flags = flags;
    target = λ t. absurd (cc (f, t));
  }

  ints-IsCounted : (keys : List String) → require_int_params p keys ≡ pass → All (IsCounted p) keys
  unfolding require_int_params
  ints-IsCounted [] h = tt
  ints-IsCounted (key ∷ keys) h =
      let (u, g, h1) = >>=-eq-ok (check_int key (param_int p key)) _ h in
      (
        elim (Option-cases (param_int p key)) [
          | inl e ↦ absurd (cc (rw e at g))
          | inr (i, e) ↦ (i, rw e refl)
        ],
        ints-IsCounted keys h1,
      )

  check_true-ok :
      (key : String) (o : Option Value) {u : Unit {0}}
      → check_true key o ≡ ok u
      → o ≡ some (bool true)
  check_true-ok key none h = cc h
  check_true-ok key (some (bool true)) h = refl
  check_true-ok key (some (bool false)) h = cc h
  check_true-ok key (some (str s)) h = cc h
  check_true-ok key (some (int i)) h = cc h
  check_true-ok key (some (int32 i)) h = cc h
  check_true-ok key (some (int64 i)) h = cc h
  check_true-ok key (some (float64 f)) h = cc h
  check_true-ok key (some null) h = cc h
  check_true-ok key (some other) h = cc h

  flags-true :
      (keys : List String)
      → require_true_bool_params p keys ≡ pass
      → All (λ key. param p key ≡ some (bool true)) keys
  unfolding require_true_bool_params
  flags-true [] h = tt
  flags-true (key ∷ keys) h =
      let (u, g, h1) = >>=-eq-ok (check_true key (param p key)) _ h in
      (check_true-ok key (param p key) g, flags-true keys h1)

  forget-NamesNode : forget_schema p ≡ pass → NamesNode p
  unfolding forget_schema
  forget-NamesNode h =
      let (u, a, h1) = >>=-eq-ok (require_string_params p ("namespace" ∷ [])) _ h in
      elim (Bool-cases (is_present (param p "pod"))) [
        | inl named ↦
            let (v, b, h2) = >>=-eq-ok (require_pod_params p ("pod" ∷ [])) _ (rw named at h1) in
            inl (pods-NamesPod ("pod" ∷ []) b).0
        | inr unnamed ↦
            let (v, b, h2) =
              >>=-eq-ok (guard (is_present (param p "lastKnownNodeId")) no_forget_target) _
                (rw unnamed at h1) in
            let known = guard-eq-ok (is_present (param p "lastKnownNodeId")) _ b in
            inr (strings-IsGiven ("lastKnownNodeId" ∷ []) (rw known at h2)).0
      ]

  step_schema-HasParams : (a : ActionType) → step_schema a p ≡ pass → HasParams a p
  unfolding step_schema
  step_schema-HasParams ensure_node h =
      let (texts, pods) =
        pods_schema-pods ("namespace" ∷ "image" ∷ "memorySize" ∷ []) ("pod" ∷ []) h in
      record {
        pods = pods;
        image = λ t. texts.1.0;
        slots = λ t. absurd (cc);
        ints = tt;
        flags = tt;
        target = λ t. absurd (cc);
      }
  step_schema-HasParams wait_node_ready h =
      pods_only wait_node_ready refl refl refl tt tt
        (pods_schema-pods ("namespace" ∷ []) ("pod" ∷ []) h).1
  step_schema-HasParams meet_node h =
      pods_only meet_node refl refl refl tt tt
        (pods_schema-pods ("namespace" ∷ []) ("sourcePod" ∷ "targetPod" ∷ []) h).1
  step_schema-HasParams replicate_node h =
      pods_only replicate_node refl refl refl tt tt
        (pods_schema-pods ("namespace" ∷ []) ("masterPod" ∷ "replicaPod" ∷ []) h).1
  step_schema-HasParams add_slots h =
      let (pods, slots) = slots_schema-HasParams ("pod" ∷ []) h in
      record {
        pods = pods;
        image = λ t. absurd (cc);
        slots = λ t. slots;
        ints = tt;
        flags = tt;
        target = λ t. absurd (cc);
      }
  step_schema-HasParams migrate_slots h =
      let (pods, slots) = slots_schema-HasParams ("sourcePod" ∷ "targetPod" ∷ []) h in
      record {
        pods = pods;
        image = λ t. absurd (cc);
        slots = λ t. slots;
        ints = tt;
        flags = tt;
        target = λ t. absurd (cc);
      }
  step_schema-HasParams forget_node h = record {
    pods = tt;
    image = λ t. absurd (cc);
    slots = λ t. absurd (cc);
    ints = tt;
    flags = tt;
    target = λ t. forget-NamesNode h;
  }
  step_schema-HasParams delete_node h =
      pods_only delete_node refl refl refl tt tt
        (pods_schema-pods ("namespace" ∷ []) ("pod" ∷ []) h).1
  step_schema-HasParams verify_cluster h =
      let (u, g, h1) = >>=-eq-ok (require_int_params p (int_keys verify_cluster)) _ h in
      pods_only verify_cluster refl refl refl (ints-IsCounted (int_keys verify_cluster) g)
        (flags-true (true_keys verify_cluster) h1) tt
  step_schema-HasParams (unknown a) h = absurd (cc)

-- A step that passes the form check has what the simulator asks of its parameters: every pod it
-- requires is named, by a name with an ordinal, the image is given, and the slots parse; a VerifyCluster has
-- its two integers and its three flags, which are true; and a ForgetNode names a pod or a last known node.
pub validate_step_schema-HasParams :
    (step : Step) → validate_step_schema step ≡ pass → HasParams step.action step.params
unfolding validate_step_schema
validate_step_schema-HasParams step h = step_schema-HasParams step.params step.action h
