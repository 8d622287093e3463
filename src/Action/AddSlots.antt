-- ===== src/Action/AddSlots.antt =====
-- internal/action/add_slots.go: the AddSlots step.
use llm_k8s_redis.Prelude.{
  ℕ, zero, suc, String, List, [], ◌∷◌, ◌++◌, Option, some, none, not, ◌==◌, string_keys, nat_keys,
  if◌then◌else◌, Result, ok, err, ◌>>=◌, guard, ◌>>◌, ◌<>◌, is_blank, is_empty, lookup, has, show,
  join_with,
}
use llm_k8s_redis.Plan.{Step}
use llm_k8s_redis.Api.{RedisCluster}
use llm_k8s_redis.Cluster.Slots.{SlotSet, SlotError, parse_slot_spec}
use llm_k8s_redis.Cluster.Entries.{
  Entry, is_master, healthy, parse_nodes, find_by_ip, master_has_healthy_replica, Owners,
  OwnerError, slot_ownership,
}
use llm_k8s_redis.Cluster.Markers.{migrating_slots}
use llm_k8s_redis.Action.Pods.{Pod, pod_redis_addr}
use llm_k8s_redis.Action.World.{
  Ended, param_err, failed_with, running_with, completed_with, cluster_add_slots, History, World,
  no_error, or_end, some_or_end, require_string,
}
use llm_k8s_redis.Action.Preceding.{
  preceded_ensure_node, preceded_wait_node_ready, preceding_add_slots_overlap, get_pod,
  refresh_existing_topology_slots,
}

abbrev pub parsed_or_end :
    (SlotError → String) → String → Result SlotError (List ℕ) → Result Ended (List ℕ)
parsed_or_end text quoted (ok slots) = ok slots
parsed_or_end text quoted (err e) =
    err (param_err ("invalid slots " <> (quoted <> (": " <> text e))))

abbrev pub owners_or_end :
    String → (OwnerError → String) → Result OwnerError Owners → Result Ended Owners
owners_or_end msg text (ok owners) = ok owners
owners_or_end msg text (err e) = err (failed_with (msg <> text e) (text e))

abbrev pub no_overlap : (ℕ → String) → Option ℕ → Result Ended (Unit {0})
no_overlap text none = ok tt
no_overlap text (some s) = err (param_err (text s))

-- The cases of a slot by its owner.
abbrev pub to_add_next : String → ℕ → Option String → Result Ended (List ℕ) → Result Ended (List ℕ)
to_add_next id s none rest = rest >>= λ slots. ok (s ∷ slots)
to_add_next id s (some cur) rest =
    if cur == id
    then rest
    else err (
        param_err (
          "slot "
          <> (show s
              <> (" already owned by node "
                  <> (cur <> (", not target " <> (id <> "; use MigrateSlots instead")))))))

-- The loop that picks the slots to add.
unfoldable pub to_add : String → SlotSet → Owners → List ℕ → Result Ended (List ℕ)
to_add id migrating owners [] = ok []
to_add id migrating owners (s ∷ desired) =
    let rest = to_add_next id s (lookup s owners) (to_add id migrating owners desired) in
    if has s migrating
    then err (
        param_err
          ("slot " <> (show s <> " is in migrating/importing state; resolve before AddSlots")))
    else rest

-- toAdd[i:end] for each i of the loop, with the first batch's room left.
unfoldable pub chunk_from : ℕ → List ℕ → List ℕ × List (List ℕ)
chunk_from room [] = ([], [])
chunk_from zero (s ∷ slots) = let (part, parts) = chunk_from 511 slots in ([], (s ∷ part) ∷ parts)
chunk_from (suc room) (s ∷ slots) = let (part, parts) = chunk_from room slots in (s ∷ part, parts)

unfoldable pub batches : List ℕ → List (List ℕ)
unfolding chunk_from
batches [] = []
batches (s ∷ slots) = let (part, parts) = chunk_from 511 slots in (s ∷ part) ∷ parts

abbrev last_of : ℕ → List ℕ → ℕ
last_of s [] = s
last_of s (t ∷ slots) = last_of t slots

abbrev span : List ℕ → String
span [] = ""
span (s ∷ slots) = show s <> ("-" <> show (last_of s slots))

unfoldable pub first_missing : Owners → String → List ℕ → Option ℕ
first_missing owners id [] = none
first_missing owners id (s ∷ desired) =
    let rest = first_missing owners id desired in
    elim (lookup s owners) [ none ↦ some s | some cur ↦ if cur == id then rest else some s ]

-- The flags by the %v of fmt.
abbrev flags_text : Entry → String
flags_text e = "[" <> (join_with " " e.flags <> "]")

-- The step's parameters, checked.
pub record Asked : Type 0 where
  pub ns : String
  pub pod_name : String
  pub spec : String
  pub desired : List ℕ

-- What an AddSlots has made sure of when it begins to write.
pub record Ready : Type 0 where
  pub path : String
  pub pod : Pod
  pub pod_name : String
  pub spec : String
  pub desired : List ℕ
  pub entries : List Entry
  pub target : Entry
  pub owners : Owners
  pub missing : List ℕ

module _ (quote : String → String) (slot_text : SlotError → String)
    (owner_text : OwnerError → String) (w : World) (c : RedisCluster) (before : List Step)
    (step : Step) where
  -- The tests on what CLUSTER NODES says.
  unfoldable pub add_reads :
      String → Pod → String → String → List ℕ → List Entry → Result Ended Ready
  unfolding to_add
  add_reads path pod pod_name spec desired entries = do
    target ← some_or_end (find_by_ip entries pod.pod_ip) (
        running_with (
          "target " <> (path <> (" (ip " <> (pod.pod_ip <> ") not yet visible in CLUSTER NODES")))))
    guard (is_master target) (
        param_err
          ("target " <> (path <> (" is not a master (flags=" <> (flags_text target <> ")")))))
    guard (healthy target) (
        param_err (
          "target master "
          <> (path
              <> (" is not healthy (flags="
                  <> (flags_text target <> (" link=" <> (quote target.link_state <> ")")))))))
    guard (master_has_healthy_replica entries target.id) (
        running_with
          ("master " <> (path <> " has no healthy replica yet; waiting before AddSlots")))
    owners ← owners_or_end "parse slot ownership: " owner_text (slot_ownership entries)
    missing ← to_add target.id (migrating_slots entries) owners desired
    ok (record {
      path = path;
      pod = pod;
      pod_name = pod_name;
      spec = spec;
      desired = desired;
      entries = entries;
      target = target;
      owners = owners;
      missing = missing;
    })

  -- The tests on the step and on those before it.
  unfoldable pub add_asked : Result Ended Asked
  unfolding require_string preceded_ensure_node preceded_wait_node_ready preceding_add_slots_overlap
  add_asked = do
    ns ← require_string quote step.params "namespace"
    pod_name ← require_string quote step.params "pod"
    spec ← require_string quote step.params "slots"
    guard (ns == c.name)
        (param_err ("namespace " <> (quote ns <> (" must equal cluster name " <> quote c.name))))
    guard (preceded_ensure_node before ns pod_name) (
        param_err
          ("pod " <> (ns <> ("/" <> (pod_name <> " was not declared by a preceding EnsureNode")))))
    guard (preceded_wait_node_ready before ns pod_name) (
        param_err
          ("pod " <> (ns <> ("/" <> (pod_name <> " has not completed a preceding WaitNodeReady")))))
    desired ← parsed_or_end slot_text (quote spec) (parse_slot_spec spec)
    guard (not (is_empty desired))
        (param_err ("slots " <> (quote spec <> " contains no slot numbers")))
    no_overlap
        (λ s.
          "step " <> (quote step.id <> (": slot " <> (show s <> " overlaps a previous AddSlots"))))
        (preceding_add_slots_overlap before ns desired)
    ok (record { ns = ns; pod_name = pod_name; spec = spec; desired = desired })

  -- The tests on the pod, and the reading of CLUSTER NODES.
  unfoldable pub add_connected : Asked → Result Ended Ready
  unfolding add_reads
  add_connected a =
      let path = a.ns <> ("/" <> a.pod_name) in
      do
        pod ← get_pod path (w.get_pod [] a.ns a.pod_name)
        guard (not (is_blank pod.pod_ip)) (running_with ("pod " <> (path <> " has no IP yet")))
        no_error (w.dial [] (pod_redis_addr pod))
            (λ e. failed_with ("build redis client for " <> (pod_redis_addr pod <> (": " <> e))) e)
        no_error (w.ping [] (pod_redis_addr pod))
            (λ e. running_with ("redis at " <> (pod_redis_addr pod <> (" not reachable: " <> e))))
        raw ← or_end (w.cluster_nodes [] (pod_redis_addr pod)) (λ e.
            running_with ("redis at " <> (pod_redis_addr pod <> (" CLUSTER NODES failed: " <> e))))
        add_reads path pod a.pod_name a.spec a.desired (parse_nodes raw)

  -- The part before the first write.
  unfoldable pub add_checked : Result Ended Ready
  unfolding add_asked add_connected
  add_checked = add_asked >>= λ a. add_connected a

  abbrev pub added :
      History
      → List ℕ
      → Option String
      → Result Ended (Unit {0}) × History
      → Result Ended (Unit {0}) × History
  added h batch none rest = rest
  added h batch (some e) rest =
      (err (failed_with ("CLUSTER ADDSLOTS batch " <> (span batch <> (": " <> e))) e), h)

  -- The loop over the batches.
  unfoldable pub add_each : String → List (List ℕ) → History → Result Ended (Unit {0}) × History
  add_each addr [] h = (ok tt, h)
  add_each addr (batch ∷ rest) h =
      let sent = h ++ cluster_add_slots addr batch ∷ [] in
      let others = add_each addr rest sent in added sent batch (w.add_slots h addr batch) others

  abbrev pub settled : Ready → Entry → Option ℕ → Ended × RedisCluster
  settled r target (some s) = (
    running_with
        ("CLUSTER ADDSLOTS issued; slot " <> (show s <> (" not yet owned by target " <> r.path))),
    c,
  )
  settled r target none = (
    completed_with ("slots " <> (r.spec <> (" assigned to master " <> r.path))),
    refresh_existing_topology_slots c r.pod_name target.id r.spec,
  )

  abbrev pub owned_after : Ready → Entry → Result OwnerError Owners → Ended × RedisCluster
  owned_after r target (err e) =
      (failed_with ("parse slot ownership after addslots: " <> owner_text e) (owner_text e), c)
  owned_after r target (ok owners) = settled r target (first_missing owners target.id r.desired)

  abbrev pub target_after : Ready → List Entry → Option Entry → Ended × RedisCluster
  target_after r entries none =
      (running_with ("target " <> (r.path <> " disappeared after CLUSTER ADDSLOTS")), c)
  target_after r entries (some target) = owned_after r target (slot_ownership entries)

  abbrev pub seen_after : Ready → Result String String → Ended × RedisCluster
  seen_after r (err e) = (
    running_with
        ("redis at " <> (pod_redis_addr r.pod <> (" CLUSTER NODES after addslots failed: " <> e))),
    c,
  )
  seen_after r (ok raw) =
      target_after r (parse_nodes raw) (find_by_ip (parse_nodes raw) r.pod.pod_ip)

  abbrev pub after_add :
      Ready → Result Ended (Unit {0}) × History → (Ended × RedisCluster) × History
  after_add r (err end, h) = ((end, c), h)
  after_add r (ok _, h) = (seen_after r (w.cluster_nodes h (pod_redis_addr r.pod)), h)

  abbrev pub add_missing : Ready → List ℕ → (Ended × RedisCluster) × History
  add_missing r [] = (
    (
      completed_with ("slots " <> (r.spec <> (" already owned by master " <> r.path))),
      refresh_existing_topology_slots c r.pod_name r.target.id r.spec,
    ),
    [],
  )
  add_missing r (s ∷ missing) =
      after_add r (add_each (pod_redis_addr r.pod) (batches (s ∷ missing)) [])

  abbrev pub add_ready : Result Ended Ready → (Ended × RedisCluster) × History
  add_ready (err end) = ((end, c), [])
  add_ready (ok r) = add_missing r r.missing

  -- addSlots: how the step ends, the cluster, and what the step has written.
  unfoldable pub add_slots_step : (Ended × RedisCluster) × History
  unfolding add_checked add_each batches first_missing refresh_existing_topology_slots
  add_slots_step = add_ready add_checked
