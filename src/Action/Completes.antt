-- ===== src/Action/Completes.antt =====
-- internal/action/add_slots.go: what it means that an AddSlots has completed.
use llm_k8s_redis.Prelude.{
  ℕ, String, List, [], ◌∷◌, Option, some, none, ◌==◌, string_keys, nat_keys, lookup, has,
  str_eq_iff, Result, ok, err, >>=-eq-ok, ◌≡◌, refl, subst, ap, ◌∙◌, inl, Bool-cases, Option-cases,
  inr, In,
}
use llm_k8s_redis.Plan.{Step, param_string}
use llm_k8s_redis.Api.{RedisCluster}
use llm_k8s_redis.Controller.Status.{completed}
use llm_k8s_redis.Cluster.Slots.{SlotSet, SlotError, parse_slot_spec}
use llm_k8s_redis.Cluster.Entries.{
  Entry, parse_nodes, find_by_ip, Owners, OwnerError, slot_ownership,
}
use llm_k8s_redis.Cluster.Markers.{migrating_slots}
use llm_k8s_redis.Action.Pods.{Pod, pod_redis_addr}
use llm_k8s_redis.Action.World.{Ended, pod_found, History, World}
use llm_k8s_redis.Action.AddSlots.{
  to_add, batches, first_missing, Ready, add_checked, add_each, after_add, add_missing, add_ready,
  add_slots_step, owned_after, target_after, seen_after,
}
use llm_k8s_redis.Action.AddReads.{Known, add_checked-Known}
use llm_k8s_redis.Action.Goes.{Goes, ran, fell, add_checked-Goes, add_each-Goes}

-- Of slots that are all passed over, the target is the owner.
to_add-none :
    (id : String) (migrating : SlotSet) (owners : Owners) (l : List ℕ) (s : ℕ)
    → to_add id migrating owners l ≡ ok []
    → In s l
    → lookup s owners ≡ some id
unfolding to_add
to_add-none id migrating owners [] s h i = absurd i
to_add-none id migrating owners (t ∷ l) s h i = elim (Bool-cases (has t migrating)) [
  | inl marked ↦ absurd (cc (rw marked at h))
  | inr still ↦ elim (Option-cases (lookup t owners)) [
    | inl free ↦
        let (slots, _, never) =
          >>=-eq-ok (to_add id migrating owners l) _ (rw (still, free) at h) in
        absurd (cc never)
    | inr (cur, owned) ↦ elim (Bool-cases (cur == id)) [
      | inr other ↦ absurd (cc (rw (still, owned, other) at h))
      | inl mine ↦
          let rest : to_add id migrating owners l ≡ ok [] = rw (still, owned, mine) at h in
          elim i [
            | inl same ↦
                subst (λ x. lookup x owners ≡ some id) same
                  (owned ∙ ap some ((str_eq_iff cur id).0 mine))
            | inr j ↦ to_add-none id migrating owners l s rest j
          ]
    ]
  ]
]

first_missing-none :
    (owners : Owners) (id : String) (l : List ℕ) (s : ℕ)
    → first_missing owners id l ≡ none
    → In s l
    → lookup s owners ≡ some id
unfolding first_missing
first_missing-none owners id [] s h i = absurd i
first_missing-none owners id (t ∷ l) s h i = elim (Option-cases (lookup t owners)) [
  | inl free ↦ absurd (cc (rw (first_missing, free) at h))
  | inr (cur, owned) ↦ elim (Bool-cases (cur == id)) [
    | inr other ↦ absurd (cc (rw (first_missing, owned, other) at h))
    | inl mine ↦ elim i [
      | inl same ↦
          subst (λ x. lookup x owners ≡ some id) same (owned ∙ ap some ((str_eq_iff cur id).0 mine))
      | inr j ↦ first_missing-none owners id l s (rw (first_missing, owned, mine) at h) j
    ]
  ]
]

-- The CLUSTER NODES that a step reads after its writes gives every slot of the step to its target.
pub record IsAssigned (w : World) (c : RedisCluster) (step : Step) (writes : History) : Type 0 where
  pub pod_name : String
  pub asks_pod : param_string step.params "pod" ≡ some pod_name
  pub pod : Pod
  pub got : w.get_pod [] c.name pod_name ≡ pod_found pod
  pub spec : String
  pub asks_slots : param_string step.params "slots" ≡ some spec
  pub desired : List ℕ
  pub raw : String
  pub target : Entry
  pub owners : Owners
  pub parsed : parse_slot_spec spec ≡ ok desired
  pub read : w.cluster_nodes writes (pod_redis_addr pod) ≡ ok raw
  pub found : find_by_ip (parse_nodes raw) pod.pod_ip ≡ some target
  pub owns : slot_ownership (parse_nodes raw) ≡ ok owners
  pub assigned : (s : ℕ) → In s desired → lookup s owners ≡ some target.id

module _ (quote : String → String) (slot_text : SlotError → String)
    (owner_text : OwnerError → String) (w : World) (c : RedisCluster) (before : List Step)
    (step : Step) where
  abbrev Checked : Ready → Type 0
  Checked r = Known quote slot_text owner_text w c before step r

  -- The end of a step that has written: its reading, the target's line and the owners in turn.
  owners-IsAssigned :
      (r : Ready) (h : History) (raw : String) (target : Entry) (x : Result OwnerError Owners)
      → Checked r
      → w.cluster_nodes h (pod_redis_addr r.pod) ≡ ok raw
      → find_by_ip (parse_nodes raw) r.pod.pod_ip ≡ some target
      → slot_ownership (parse_nodes raw) ≡ x
      → (owned_after quote slot_text owner_text w c before step r target x).0.outcome.status
        ≡ completed
      → IsAssigned w c step h
  owners-IsAssigned r h raw target (err e) k read found owns done = absurd (fell done)
  owners-IsAssigned r h raw target (ok owners) k read found owns done =
      elim (Option-cases (first_missing owners target.id r.desired)) [
        | inr (s, missing) ↦ absurd (ran (rw missing at done))
        | inl all ↦ record {
          pod_name = k.pod_name;
          asks_pod = k.asks_pod;
          pod = r.pod;
          got = k.got;
          spec = k.spec;
          asks_slots = k.asks_slots;
          desired = r.desired;
          raw = raw;
          target = target;
          owners = owners;
          parsed = k.parsed;
          read = read;
          found = found;
          owns = owns;
          assigned = λ s i. first_missing-none owners target.id r.desired s all i;
        }
      ]

  target-IsAssigned :
      (r : Ready) (h : History) (raw : String) (o : Option Entry)
      → Checked r
      → w.cluster_nodes h (pod_redis_addr r.pod) ≡ ok raw
      → find_by_ip (parse_nodes raw) r.pod.pod_ip ≡ o
      → (target_after quote slot_text owner_text w c before step r
          (parse_nodes raw)
          o).0.outcome.status
        ≡ completed
      → IsAssigned w c step h
  target-IsAssigned r h raw none k read found done = absurd (ran done)
  target-IsAssigned r h raw (some target) k read found done =
      owners-IsAssigned r h raw target (slot_ownership (parse_nodes raw)) k read found refl done

  seen-IsAssigned :
      (r : Ready) (h : History) (x : Result String String)
      → Checked r
      → w.cluster_nodes h (pod_redis_addr r.pod) ≡ x
      → (seen_after quote slot_text owner_text w c before step r x).0.outcome.status ≡ completed
      → IsAssigned w c step h
  seen-IsAssigned r h (err e) k read done = absurd (ran done)
  seen-IsAssigned r h (ok raw) k read done =
      target-IsAssigned r h raw (find_by_ip (parse_nodes raw) r.pod.pod_ip) k read refl done

  after-IsAssigned :
      (r : Ready) (x : Result Ended (Unit {0}) × History)
      → Goes x.0
      → Checked r
      → (after_add quote slot_text owner_text w c before step r x).0.0.outcome.status ≡ completed
      → IsAssigned w c step (after_add quote slot_text owner_text w c before step r x).1
  after-IsAssigned r (err end, h) g k done = absurd (g.goes end refl done)
  after-IsAssigned r (ok u, h) g k done =
      seen-IsAssigned r h (w.cluster_nodes h (pod_redis_addr r.pod)) k refl done

  missing-IsAssigned :
      (r : Ready) (missing : List ℕ)
      → Known quote slot_text owner_text w c before step r
      → r.missing ≡ missing
      → (add_missing quote slot_text owner_text w c before step r missing).0.0.outcome.status
        ≡ completed
      → IsAssigned w c step (add_missing quote slot_text owner_text w c before step r missing).1
  missing-IsAssigned r [] k same done = record {
    pod_name = k.pod_name;
    asks_pod = k.asks_pod;
    pod = r.pod;
    got = k.got;
    spec = k.spec;
    asks_slots = k.asks_slots;
    desired = r.desired;
    raw = k.raw;
    target = r.target;
    owners = r.owners;
    parsed = k.parsed;
    read = k.read;
    found = subst (λ l. find_by_ip l r.pod.pod_ip ≡ some r.target) k.entries k.facts.found;
    owns = subst (λ l. slot_ownership l ≡ ok r.owners) k.entries k.facts.owns;
    assigned = λ s i.
        to_add-none r.target.id (migrating_slots r.entries) r.owners r.desired s
          (k.facts.picked ∙ ap ok same) i;
  }
  missing-IsAssigned r (s ∷ missing) k same done =
      after-IsAssigned r
        (add_each quote slot_text owner_text w c before step (pod_redis_addr r.pod)
          (batches (s ∷ missing)) [])
        (add_each-Goes quote slot_text owner_text w c before step (pod_redis_addr r.pod)
          (batches (s ∷ missing)) [])
        k done

-- If an AddSlots ends as completed, then in the CLUSTER NODES that it has read after its writes, if it had
-- to write, every slot of the step belongs to the node at the step's pod.
pub add_slots_step-IsAssigned :
    (quote : String → String) (slot_text : SlotError → String) (owner_text : OwnerError → String)
    (w : World) (c : RedisCluster) (before : List Step) (step : Step)
    → (add_slots_step quote slot_text owner_text w c before step).0.0.outcome.status ≡ completed
    → IsAssigned w c step (add_slots_step quote slot_text owner_text w c before step).1
unfolding add_slots_step
add_slots_step-IsAssigned quote slot_text owner_text w c before step done =
    from (add_checked quote slot_text owner_text w c before step) refl done
  where
    from :
        (x : Result Ended Ready)
        → add_checked quote slot_text owner_text w c before step ≡ x
        → (add_ready quote slot_text owner_text w c before step x).0.0.outcome.status ≡ completed
        → IsAssigned w c step (add_ready quote slot_text owner_text w c before step x).1
    from (err end) e d =
        absurd ((add_checked-Goes quote slot_text owner_text w c before step).goes end e d)
    from (ok r) e d =
        missing-IsAssigned quote slot_text owner_text w c before step r r.missing
          (add_checked-Known quote slot_text owner_text w c before step r e) refl d
