-- ===== src/Action/Goes.antt =====
-- internal/action/add_slots.go: the ends of an AddSlots that are not its completion.
use llm_k8s_redis.Prelude.{
  ℕ, String, List, [], ◌∷◌, ◌++◌, Option, some, none, Bool, true, false, not, ◌==◌, string_keys,
  nat_keys, lookup, has, Result, ok, err, ◌>>=◌, err_injective, guard, ◌≡◌, refl, ap, ◌∙◌, inl,
  Bool-cases, inr, is_blank, is_empty,
}
use llm_k8s_redis.Plan.{Step}
use llm_k8s_redis.Api.{RedisCluster}
use llm_k8s_redis.Controller.Status.{running, completed, failed}
use llm_k8s_redis.Cluster.Slots.{SlotSet, SlotError, parse_slot_spec}
use llm_k8s_redis.Cluster.Entries.{
  Entry, is_master, healthy, parse_nodes, find_by_ip, master_has_healthy_replica, Owners,
  OwnerError, slot_ownership,
}
use llm_k8s_redis.Cluster.Markers.{migrating_slots}
use llm_k8s_redis.Action.Pods.{Pod, pod_redis_addr}
use llm_k8s_redis.Action.World.{
  Ended, PodReply, pod_found, pod_not_found, get_failed, cluster_add_slots, History, World,
  no_error, or_end, some_or_end, require_string, required,
}
use llm_k8s_redis.Action.Preceding.{
  preceded_ensure_node, preceded_wait_node_ready, preceding_add_slots_overlap, get_pod,
}
use llm_k8s_redis.Action.AddSlots.{
  parsed_or_end, owners_or_end, no_overlap, to_add, to_add_next, Asked, add_reads, add_asked,
  add_connected, add_checked, added, add_each,
}

-- A result that does not end a step as completed.
pub record Goes {A : Type 0} (r : Result Ended A) : Type 0 where
  pub goes : (end : Ended) → r ≡ err end → end.outcome.status ≡ completed → ⊥

ok-Goes : {A : Type 0} (a : A) → Goes (ok a)
ok-Goes a = record { goes = λ end h. absurd (cc h) }

err-Goes :
    {A : Type 0} (end : Ended) → (end.outcome.status ≡ completed → ⊥) → Goes {A = A} (err end)
err-Goes end h = record {
  goes =
      λ e same. λ done. h (ap (λ (x : Ended). x.outcome.status) (err_injective end e same) ∙ done);
}

bind-Goes :
    {A B : Type 0} (r : Result Ended A) (f : A → Result Ended B)
    → Goes r
    → ((a : A) → Goes (f a))
    → Goes (r >>= f)
bind-Goes (ok a) f h g = g a
bind-Goes (err end) f h g = err-Goes end (h.goes end refl)

pub ran : running ≡ completed → ⊥
ran h = cc h

pub fell : failed ≡ completed → ⊥
fell h = cc h

guard-Goes : (b : Bool) (end : Ended) → (end.outcome.status ≡ completed → ⊥) → Goes (guard b end)
guard-Goes true end h = ok-Goes tt
guard-Goes false end h = err-Goes end h

text-Goes :
    (quote : String → String) (key : String) (o : Option String) → Goes (required quote key o)
text-Goes quote key none = err-Goes _ fell
text-Goes quote key (some s) = elim (Bool-cases (is_blank s)) [
  | inl blank ↦ rw blank (err-Goes _ fell)
  | inr text ↦ rw text (ok-Goes s)
]

some-Goes :
    {A : Type 0} (o : Option A) (end : Ended)
    → (end.outcome.status ≡ completed → ⊥)
    → Goes (some_or_end o end)
some-Goes (some a) end h = ok-Goes a
some-Goes none end h = err-Goes end h

no_error-Goes :
    (o : Option String) (end : String → Ended)
    → ((e : String) → (end e).outcome.status ≡ completed → ⊥)
    → Goes (no_error o end)
no_error-Goes none end h = ok-Goes tt
no_error-Goes (some e) end h = err-Goes (end e) (h e)

or_end-Goes :
    {A : Type 0} (r : Result String A) (end : String → Ended)
    → ((e : String) → (end e).outcome.status ≡ completed → ⊥)
    → Goes (or_end r end)
or_end-Goes (ok a) end h = ok-Goes a
or_end-Goes (err e) end h = err-Goes (end e) (h e)

pod-Goes : (path : String) (r : PodReply) → Goes (get_pod path r)
pod-Goes path (pod_found p) = ok-Goes p
pod-Goes path pod_not_found = err-Goes _ fell
pod-Goes path (get_failed e) = err-Goes _ fell

owners-Goes :
    (msg : String) (text : OwnerError → String) (r : Result OwnerError Owners)
    → Goes (owners_or_end msg text r)
owners-Goes msg text (ok o) = ok-Goes o
owners-Goes msg text (err e) = err-Goes _ fell

parsed-Goes :
    (text : SlotError → String) (quoted : String) (r : Result SlotError (List ℕ))
    → Goes (parsed_or_end text quoted r)
parsed-Goes text quoted (ok l) = ok-Goes l
parsed-Goes text quoted (err e) = err-Goes _ fell

overlap-Goes : (text : ℕ → String) (o : Option ℕ) → Goes (no_overlap text o)
overlap-Goes text none = ok-Goes tt
overlap-Goes text (some s) = err-Goes _ fell

next-Goes :
    (id : String) (s : ℕ) (o : Option String) (rest : Result Ended (List ℕ))
    → Goes rest
    → Goes (to_add_next id s o rest)
next-Goes id s none rest h = bind-Goes rest _ h (λ slots. ok-Goes (s ∷ slots))
next-Goes id s (some cur) rest h = elim (Bool-cases (cur == id)) [
  | inl mine ↦ rw mine h
  | inr other ↦ rw other (err-Goes _ fell)
]

to_add-Goes :
    (id : String) (migrating : SlotSet) (owners : Owners) (l : List ℕ)
    → Goes (to_add id migrating owners l)
unfolding to_add
to_add-Goes id migrating owners [] = ok-Goes []
to_add-Goes id migrating owners (s ∷ l) = elim (Bool-cases (has s migrating)) [
  | inl marked ↦ rw marked (err-Goes _ fell)
  | inr still ↦ rw still (next-Goes id s (lookup s owners) _ (to_add-Goes id migrating owners l))
]

module _ (quote : String → String) (slot_text : SlotError → String)
    (owner_text : OwnerError → String) (w : World) (c : RedisCluster) (before : List Step)
    (step : Step) where
  add_asked-Goes : Goes (add_asked quote slot_text owner_text w c before step)
  unfolding add_asked require_string
  add_asked-Goes =
      bind-Goes (require_string quote step.params "namespace") _ (text-Goes quote "namespace" _)
        (λ ns.
          bind-Goes (require_string quote step.params "pod") _ (text-Goes quote "pod" _)
            (λ pod_name.
              bind-Goes (require_string quote step.params "slots") _ (text-Goes quote "slots" _)
                (λ spec.
                  bind-Goes (guard (ns == c.name) _) _ (guard-Goes (ns == c.name) _ fell) (λ _.
                    bind-Goes (guard (preceded_ensure_node before ns pod_name) _) _
                      (guard-Goes (preceded_ensure_node before ns pod_name) _ fell)
                      (λ _.
                        bind-Goes (guard (preceded_wait_node_ready before ns pod_name) _) _
                          (guard-Goes (preceded_wait_node_ready before ns pod_name) _ fell)
                          (λ _.
                            bind-Goes (parsed_or_end slot_text (quote spec) (parse_slot_spec spec))
                              _ (parsed-Goes slot_text _ (parse_slot_spec spec))
                              (λ desired.
                                bind-Goes (guard (not (is_empty desired)) _) _
                                  (guard-Goes (not (is_empty desired)) _ fell)
                                  (λ _.
                                    bind-Goes
                                      (no_overlap _ (preceding_add_slots_overlap before ns desired))
                                      _
                                      (overlap-Goes _
                                        (preceding_add_slots_overlap before ns desired))
                                      (λ _. ok-Goes _)))))))))

  add_reads-Goes :
      (path : String) (pod : Pod) (pod_name spec : String) (desired : List ℕ) (entries : List Entry)
      → Goes (
          add_reads quote slot_text owner_text w c before step path pod pod_name spec desired
            entries)
  unfolding add_reads
  add_reads-Goes path pod pod_name spec desired entries =
      bind-Goes (some_or_end (find_by_ip entries pod.pod_ip) _) _
        (some-Goes (find_by_ip entries pod.pod_ip) _ ran)
        (λ target.
          bind-Goes (guard (is_master target) _) _ (guard-Goes (is_master target) _ fell) (λ _.
            bind-Goes (guard (healthy target) _) _ (guard-Goes (healthy target) _ fell) (λ _.
              bind-Goes (guard (master_has_healthy_replica entries target.id) _) _
                (guard-Goes (master_has_healthy_replica entries target.id) _ ran)
                (λ _.
                  bind-Goes
                    (owners_or_end "parse slot ownership: " owner_text (slot_ownership entries)) _
                    (owners-Goes "parse slot ownership: " owner_text (slot_ownership entries))
                    (λ owners.
                      bind-Goes (to_add target.id (migrating_slots entries) owners desired) _
                        (to_add-Goes target.id (migrating_slots entries) owners desired)
                        (λ missing. ok-Goes _))))))

  add_connected-Goes :
      (a : Asked) → Goes (add_connected quote slot_text owner_text w c before step a)
  unfolding add_connected
  add_connected-Goes a =
      bind-Goes (get_pod _ (w.get_pod [] a.ns a.pod_name)) _
        (pod-Goes _ (w.get_pod [] a.ns a.pod_name))
        (λ pod.
          bind-Goes (guard (not (is_blank pod.pod_ip)) _) _
            (guard-Goes (not (is_blank pod.pod_ip)) _ ran)
            (λ _.
              bind-Goes (no_error (w.dial [] (pod_redis_addr pod)) _) _
                (no_error-Goes (w.dial [] (pod_redis_addr pod)) _ (λ e. fell))
                (λ _.
                  bind-Goes (no_error (w.ping [] (pod_redis_addr pod)) _) _
                    (no_error-Goes (w.ping [] (pod_redis_addr pod)) _ (λ e. ran))
                    (λ _.
                      bind-Goes (or_end (w.cluster_nodes [] (pod_redis_addr pod)) _) _
                        (or_end-Goes (w.cluster_nodes [] (pod_redis_addr pod)) _ (λ e. ran))
                        (λ raw.
                          add_reads-Goes _ pod a.pod_name a.spec a.desired (parse_nodes raw))))))

  pub add_checked-Goes : Goes (add_checked quote slot_text owner_text w c before step)
  unfolding add_checked
  add_checked-Goes =
      bind-Goes (add_asked quote slot_text owner_text w c before step) _ add_asked-Goes
        add_connected-Goes

  added-Goes :
      (h : History) (batch : List ℕ) (o : Option String) (rest : Result Ended (Unit {0}) × History)
      → Goes rest.0
      → Goes (added quote slot_text owner_text w c before step h batch o rest).0
  added-Goes h batch none rest g = g
  added-Goes h batch (some e) rest g = err-Goes _ fell

  pub add_each-Goes :
      (addr : String) (parts : List (List ℕ)) (h : History)
      → Goes (add_each quote slot_text owner_text w c before step addr parts h).0
  unfolding add_each
  add_each-Goes addr [] h = ok-Goes tt
  add_each-Goes addr (b ∷ parts) h =
      added-Goes (h ++ cluster_add_slots addr b ∷ []) b (w.add_slots h addr b) _
        (add_each-Goes addr parts (h ++ cluster_add_slots addr b ∷ []))
