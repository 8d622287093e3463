-- ===== src/Action/SafeAdds.antt =====
-- internal/action/add_slots.go: the writes of an AddSlots.
use llm_k8s_redis.Prelude.{
  ℕ, String, List, [], ◌∷◌, ◌++◌, Option, some, none, true, string_keys, nat_keys, Result, ok, err,
  ◌≡◌, refl, sym, subst, inl, inr, ◌⊎◌, In, append-In, Result-cases,
}
use llm_k8s_redis.Plan.{Step, param_string}
use llm_k8s_redis.Api.{RedisCluster}
use llm_k8s_redis.Cluster.Slots.{SlotError, parse_slot_spec}
use llm_k8s_redis.Cluster.Entries.{
  Entry, is_master, healthy, parse_nodes, find_by_ip, master_has_healthy_replica, Owners,
  OwnerError, slot_ownership,
}
use llm_k8s_redis.Action.Pods.{Pod, pod_redis_addr}
use llm_k8s_redis.Action.World.{pod_found, Ended, Call, cluster_add_slots, History, World}
use llm_k8s_redis.Action.AddSlots.{
  batches, Ready, add_checked, added, add_each, after_add, add_missing, add_slots_step,
}
use llm_k8s_redis.Action.Adds.{IsFree, to_add-IsFree, batches-In}
use llm_k8s_redis.Action.AddReads.{Known, add_checked-Known}

-- A CLUSTER ADDSLOTS to a healthy master that has a healthy replica, of slots that may be assigned.
pub record IsSafeAdd (w : World) (c : RedisCluster) (step : Step) (call : Call) : Type 0 where
  pub pod_name : String
  pub asks_pod : param_string step.params "pod" ≡ some pod_name
  pub pod : Pod
  pub got : w.get_pod [] c.name pod_name ≡ pod_found pod
  pub batch : List ℕ
  pub spec : String
  pub asks_slots : param_string step.params "slots" ≡ some spec
  pub desired : List ℕ
  pub raw : String
  pub target : Entry
  pub owners : Owners
  pub sends : call ≡ cluster_add_slots (pod_redis_addr pod) batch
  pub parsed : parse_slot_spec spec ≡ ok desired
  pub read : w.cluster_nodes [] (pod_redis_addr pod) ≡ ok raw
  pub found : find_by_ip (parse_nodes raw) pod.pod_ip ≡ some target
  pub master : is_master target ≡ true
  pub well : healthy target ≡ true
  pub replicated : master_has_healthy_replica (parse_nodes raw) target.id ≡ true
  pub owns : slot_ownership (parse_nodes raw) ≡ ok owners
  pub free : (s : ℕ) → In s batch → IsFree (parse_nodes raw) owners desired s

module _ (quote : String → String) (slot_text : SlotError → String)
    (owner_text : OwnerError → String) (w : World) (c : RedisCluster) (before : List Step)
    (step : Step) where
  -- The CLUSTER ADDSLOTS of a batch.
  abbrev Sends : String → List (List ℕ) → Call → Type 0
  Sends addr parts call = (b : List ℕ) × (In b parts × (call ≡ cluster_add_slots addr b))

  add_each-Sends :
      (addr : String) (parts : List (List ℕ)) (h : History) (call : Call)
      → In call (add_each quote slot_text owner_text w c before step addr parts h).1
      → In call h ⊎ Sends addr parts call
  unfolding add_each
  add_each-Sends addr [] h call i = inl i
  add_each-Sends addr (b ∷ parts) h call i =
      go (w.add_slots h addr b) i
        (add_each-Sends addr parts (h ++ cluster_add_slots addr b ∷ []) call)
    where
      now_sent :
          In call (h ++ cluster_add_slots addr b ∷ []) → In call h ⊎ Sends addr (b ∷ parts) call
      now_sent j = elim (append-In call h (cluster_add_slots addr b ∷ []) j) [
        | inl earlier ↦ inl earlier
        | inr (inl e) ↦ inr (b, (inl refl, sym e))
        | inr (inr never) ↦ absurd never
      ]

      go :
          (error : Option String)
          → In call
              (added quote slot_text owner_text w c before step
                (h ++ cluster_add_slots addr b ∷ [])
                b
                error
                (add_each quote slot_text owner_text w c before step addr parts
                  (h ++ cluster_add_slots addr b ∷ []))).1
          → (In call
                (add_each quote slot_text owner_text w c before step addr parts
                  (h ++ cluster_add_slots addr b ∷ [])).1
              → In call (h ++ cluster_add_slots addr b ∷ []) ⊎ Sends addr parts call)
          → In call h ⊎ Sends addr (b ∷ parts) call
      go (some e) j rest = now_sent j
      go none j rest = elim (rest j) [
        | inl earlier ↦ now_sent earlier
        | inr (d, (k, e)) ↦ inr (d, (inr k, e))
      ]

  safe_of :
      (r : Ready) (call : Call)
      → Known quote slot_text owner_text w c before step r
      → Sends (pod_redis_addr r.pod) (batches r.missing) call
      → IsSafeAdd w c step call
  safe_of r call k (b, (i, e)) = record {
    pod_name = k.pod_name;
    asks_pod = k.asks_pod;
    pod = r.pod;
    got = k.got;
    batch = b;
    spec = k.spec;
    asks_slots = k.asks_slots;
    desired = r.desired;
    raw = k.raw;
    target = r.target;
    owners = r.owners;
    sends = e;
    parsed = k.parsed;
    read = k.read;
    found = subst (λ l. find_by_ip l r.pod.pod_ip ≡ some r.target) k.entries k.facts.found;
    master = k.facts.master;
    well = k.facts.well;
    replicated =
        subst (λ l. master_has_healthy_replica l r.target.id ≡ true) k.entries k.facts.replicated;
    owns = subst (λ l. slot_ownership l ≡ ok r.owners) k.entries k.facts.owns;
    free = λ s j.
        subst (λ l. IsFree l r.owners r.desired s) k.entries
          (to_add-IsFree r.target.id r.entries r.owners r.desired r.missing s k.facts.picked
            (batches-In r.missing b s i j));
  }

  written :
      (r : Ready) (missing : List ℕ) (call : Call)
      → In call (add_missing quote slot_text owner_text w c before step r missing).1
      → Sends (pod_redis_addr r.pod) (batches missing) call
  written r [] call i = absurd i
  written r (s ∷ missing) call i =
      elim (add_each-Sends (pod_redis_addr r.pod) (batches (s ∷ missing)) [] call (
        sent
          (add_each quote slot_text owner_text w c before step (pod_redis_addr r.pod)
            (batches (s ∷ missing)) [])
          i)) [ inl never ↦ absurd never | inr sends ↦ sends ]
    where
      sent :
          (x : Result Ended (Unit {0}) × History)
          → In call (after_add quote slot_text owner_text w c before step r x).1
          → In call x.1
      sent (ok _, h) j = j
      sent (err end, h) j = j

-- Every write of an AddSlots, however it ends, is a CLUSTER ADDSLOTS to the healthy master at the step's
-- pod, which has a healthy replica; each of its slots is one of the step's, and in the CLUSTER NODES that
-- was read before the first write it has no owner and is marked by no migration.
pub add_slots_step-IsSafeAdd :
    (quote : String → String) (slot_text : SlotError → String) (owner_text : OwnerError → String)
    (w : World) (c : RedisCluster) (before : List Step) (step : Step) (call : Call)
    → In call (add_slots_step quote slot_text owner_text w c before step).1
    → IsSafeAdd w c step call
unfolding add_slots_step
add_slots_step-IsSafeAdd quote slot_text owner_text w c before step call i =
    elim (Result-cases (add_checked quote slot_text owner_text w c before step)) [
      | inr (end, e) ↦ absurd (rw e at i)
      | inl (r, e) ↦
          let k = add_checked-Known quote slot_text owner_text w c before step r e in
          let sends =
            written quote slot_text owner_text w c before step r r.missing call (rw e at i) in
          safe_of quote slot_text owner_text w c before step r call k sends
    ]
