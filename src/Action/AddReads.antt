-- ===== src/Action/AddReads.antt =====
-- internal/action/add_slots.go: what an AddSlots has read when it begins to write.
use llm_k8s_redis.Prelude.{
  str_eq_iff, ℕ, String, List, [], Option, some, none, true, not, ◌==◌, string_keys, nat_keys,
  Result, ok, err, >>=-eq-ok, ok_injective, guard, guard-eq-ok, ◌≡◌, refl, sym, subst, ap, ◌∙◌,
  is_blank, is_empty,
}
use llm_k8s_redis.Plan.{Step, param_string}
use llm_k8s_redis.Api.{RedisCluster}
use llm_k8s_redis.Cluster.Slots.{SlotError, parse_slot_spec}
use llm_k8s_redis.Cluster.Entries.{
  Entry, is_master, healthy, parse_nodes, find_by_ip, master_has_healthy_replica, Owners,
  OwnerError, slot_ownership,
}
use llm_k8s_redis.Cluster.Markers.{migrating_slots}
use llm_k8s_redis.Action.Pods.{Pod, pod_redis_addr}
use llm_k8s_redis.Action.World.{
  PodReply, pod_found, pod_not_found, get_failed, require_string_sound, Ended, World, no_error,
  or_end, some_or_end, require_string,
}
use llm_k8s_redis.Action.Preceding.{
  preceded_ensure_node, preceded_wait_node_ready, preceding_add_slots_overlap, get_pod,
}
use llm_k8s_redis.Action.AddSlots.{
  parsed_or_end, owners_or_end, no_overlap, to_add, Asked, Ready, add_reads, add_asked,
  add_connected, add_checked,
}
use llm_k8s_redis.Action.Forgets.{or_end_sound}

-- What a step has read when it sends its first CLUSTER ADDSLOTS.
pub record Facts (r : Ready) : Type 0 where
  pub found : find_by_ip r.entries r.pod.pod_ip ≡ some r.target
  pub master : is_master r.target ≡ true
  pub well : healthy r.target ≡ true
  pub replicated : master_has_healthy_replica r.entries r.target.id ≡ true
  pub owns : slot_ownership r.entries ≡ ok r.owners
  pub picked : to_add r.target.id (migrating_slots r.entries) r.owners r.desired ≡ ok r.missing

some_or_end_sound :
    {A : Type 0} (o : Option A) (end : Ended) {a : A} → some_or_end o end ≡ ok a → o ≡ some a
some_or_end_sound (some b) end h = ap some (cc h)
some_or_end_sound none end h = cc h

owners_or_end_sound :
    (msg : String) (text : OwnerError → String) (r : Result OwnerError Owners) {o : Owners}
    → owners_or_end msg text r ≡ ok o
    → r ≡ ok o
owners_or_end_sound msg text (ok o) h = ap ok (cc h)
owners_or_end_sound msg text (err e) h = cc h

parsed_or_end_sound :
    (text : SlotError → String) (quoted : String) (r : Result SlotError (List ℕ)) {l : List ℕ}
    → parsed_or_end text quoted r ≡ ok l
    → r ≡ ok l
parsed_or_end_sound text quoted (ok l) h = ap ok (cc h)
parsed_or_end_sound text quoted (err e) h = cc h

get_pod_sound : (path : String) (r : PodReply) {p : Pod} → get_pod path r ≡ ok p → r ≡ pod_found p
get_pod_sound path (pod_found q) h = ap pod_found (ok_injective _ _ h)
get_pod_sound path pod_not_found h = cc h
get_pod_sound path (get_failed e) h = cc h

module _ (quote : String → String) (slot_text : SlotError → String)
    (owner_text : OwnerError → String) (w : World) (c : RedisCluster) (before : List Step)
    (step : Step) where
  -- What the reading leaves, of the pod, the slots and the lines that it is given.
  abbrev Given : Pod → List ℕ → List Entry → Ready → Type 0
  Given pod desired entries r =
      Facts r × (r.pod ≡ pod) × (r.desired ≡ desired) × (r.entries ≡ entries)

  add_reads-Given :
      (path : String) (pod : Pod) (pod_name spec : String) (desired : List ℕ) (entries : List Entry)
      (r : Ready)
      → add_reads quote slot_text owner_text w c before step path pod pod_name spec desired entries
        ≡ ok r
      → Given pod desired entries r
  unfolding add_reads
  add_reads-Given path pod pod_name spec desired entries r h =
      let (target, found, h1) = >>=-eq-ok (some_or_end (find_by_ip entries pod.pod_ip) _) _ h in
      let (_, master, h2) = >>=-eq-ok (guard (is_master target) _) _ h1 in
      let (_, well, h3) = >>=-eq-ok (guard (healthy target) _) _ h2 in
      let (_, replicated, h4) =
        >>=-eq-ok (guard (master_has_healthy_replica entries target.id) _) _ h3 in
      let (owners, owns, h5) =
        >>=-eq-ok (owners_or_end "parse slot ownership: " owner_text (slot_ownership entries)) _
          h4 in
      let (missing, picked, h6) =
        >>=-eq-ok (to_add target.id (migrating_slots entries) owners desired) _ h5 in
      let made : Ready = record {
        path = path;
        pod = pod;
        pod_name = pod_name;
        spec = spec;
        desired = desired;
        entries = entries;
        target = target;
        owners = owners;
        missing = missing;
      } in
      let same : made ≡ r = ok_injective made r h6 in
      subst (Given pod desired entries) same (
        record {
          found = some_or_end_sound _ _ found;
          master = guard-eq-ok _ _ master;
          well = guard-eq-ok _ _ well;
          replicated = guard-eq-ok _ _ replicated;
          owns =
              owners_or_end_sound "parse slot ownership: " owner_text (slot_ownership entries) owns;
          picked = picked;
        },
        refl,
        refl,
        refl,
      )

  -- A ready step, with what its text and its reading are.
  pub record Known (r : Ready) : Type 0 where
    pub facts : Facts r
    pub pod_name : String
    pub asks_pod : param_string step.params "pod" ≡ some pod_name
    pub got : w.get_pod [] c.name pod_name ≡ pod_found r.pod
    pub spec : String
    pub asks_slots : param_string step.params "slots" ≡ some spec
    pub parsed : parse_slot_spec spec ≡ ok r.desired
    pub raw : String
    pub read : w.cluster_nodes [] (pod_redis_addr r.pod) ≡ ok raw
    pub entries : r.entries ≡ parse_nodes raw

  -- What the parameters of the step say.
  abbrev Says : Asked → Type 0
  Says a =
      (a.ns ≡ c.name)
      × (param_string step.params "pod" ≡ some a.pod_name)
      × (param_string step.params "slots" ≡ some a.spec)
      × (parse_slot_spec a.spec ≡ ok a.desired)

  Known-of :
      (a : Asked) (pod : Pod) (raw : String) (r : Ready)
      → Says a
      → w.get_pod [] a.ns a.pod_name ≡ pod_found pod
      → w.cluster_nodes [] (pod_redis_addr pod) ≡ ok raw
      → Given pod a.desired (parse_nodes raw) r
      → Known r
  Known-of a pod raw r (ns, asks_pod, asks_slots, parsed) got read
        (facts, same_pod, same_desired, same_entries) =
      record {
        facts = facts;
        pod_name = a.pod_name;
        asks_pod = asks_pod;
        got = ap (λ n. w.get_pod [] n a.pod_name) (sym ns) ∙ got ∙ ap pod_found (sym same_pod);
        spec = a.spec;
        asks_slots = asks_slots;
        parsed = parsed ∙ ap ok (sym same_desired);
        raw = raw;
        read = ap (λ p. w.cluster_nodes [] (pod_redis_addr p)) same_pod ∙ read;
        entries = same_entries;
      }

  add_asked-Says :
      (a : Asked) → add_asked quote slot_text owner_text w c before step ≡ ok a → Says a
  unfolding add_asked
  add_asked-Says a h =
      let (ns, _, h1) = >>=-eq-ok (require_string quote step.params "namespace") _ h in
      let (pod_name, asks_pod, h2) = >>=-eq-ok (require_string quote step.params "pod") _ h1 in
      let (spec, asks_slots, h3) = >>=-eq-ok (require_string quote step.params "slots") _ h2 in
      let (_, same_ns, h4) = >>=-eq-ok (guard (ns == c.name) _) _ h3 in
      let (_, _, h5) = >>=-eq-ok (guard (preceded_ensure_node before ns pod_name) _) _ h4 in
      let (_, _, h6) = >>=-eq-ok (guard (preceded_wait_node_ready before ns pod_name) _) _ h5 in
      let (desired, parsed, h7) =
        >>=-eq-ok (parsed_or_end slot_text (quote spec) (parse_slot_spec spec)) _ h6 in
      let (_, _, h8) = >>=-eq-ok (guard (not (is_empty desired)) _) _ h7 in
      let (_, _, h9) =
        >>=-eq-ok (no_overlap _ (preceding_add_slots_overlap before ns desired)) _ h8 in
      let made : Asked = record { ns = ns; pod_name = pod_name; spec = spec; desired = desired } in
      let same : made ≡ a = ok_injective made a h9 in
      subst Says same (
        (str_eq_iff ns c.name).0 (guard-eq-ok _ _ same_ns),
        require_string_sound quote step.params "pod" pod_name asks_pod,
        require_string_sound quote step.params "slots" spec asks_slots,
        parsed_or_end_sound slot_text (quote spec) (parse_slot_spec spec) parsed,
      )

  add_connected-Known :
      (a : Asked) (r : Ready)
      → Says a
      → add_connected quote slot_text owner_text w c before step a ≡ ok r
      → Known r
  unfolding add_connected
  add_connected-Known a r says h =
      let (pod, got, h1) = >>=-eq-ok (get_pod _ (w.get_pod [] a.ns a.pod_name)) _ h in
      let (_, _, h2) = >>=-eq-ok (guard (not (is_blank pod.pod_ip)) _) _ h1 in
      let (_, _, h3) = >>=-eq-ok (no_error (w.dial [] (pod_redis_addr pod)) _) _ h2 in
      let (_, _, h4) = >>=-eq-ok (no_error (w.ping [] (pod_redis_addr pod)) _) _ h3 in
      let (raw, read, h5) = >>=-eq-ok (or_end (w.cluster_nodes [] (pod_redis_addr pod)) _) _ h4 in
      Known-of a pod raw r says (get_pod_sound _ (w.get_pod [] a.ns a.pod_name) got)
        (or_end_sound _ _ read)
        (add_reads-Given _ pod a.pod_name a.spec a.desired (parse_nodes raw) r h5)

  pub add_checked-Known :
      (r : Ready) → add_checked quote slot_text owner_text w c before step ≡ ok r → Known r
  unfolding add_checked
  add_checked-Known r h =
      let (a, asked, h1) = >>=-eq-ok (add_asked quote slot_text owner_text w c before step) _ h in
      add_connected-Known a r (add_asked-Says a asked) h1
