-- ===== src/Examples/Executing.antt =====
-- Runs of the steps ForgetNode, DeleteNode and AddSlots on a cluster of two pods.
use llm_k8s_redis.Prelude.{
  ◌≡◌, String, List, [], ◌∷◌, Map, some, none, ok, refl, inl, In, lookup, insert, has, string_keys,
  nat_keys, split, fields, trim_space, has_char, cut_at, cut_prefix, equal_fold, filter, sort_by,
  find, atoi, any,
}
use llm_k8s_redis.Plan.{
  Step, Value, str, ActionType, forget_node, delete_node, add_slots, ensure_node, wait_node_ready,
  param_string,
}
use llm_k8s_redis.Cluster.Slots.{
  SlotError, slot_token_range, slots_between, parse_slot_spec, add_range,
}
use llm_k8s_redis.Cluster.Entries.{
  OwnerError, parse_nodes, parse_lines, slot_ownership, own_tokens, own_entries, healthy,
  find_by_ip, find_by_id, master_has_healthy_replica, has_flag,
}
use llm_k8s_redis.Cluster.Markers.{healthy_replicas_of, migrating_slots}
use llm_k8s_redis.Action.Pods.{Pod, pod_ready, pod_redis_addr}
use llm_k8s_redis.Action.Observed.{last_known_node_maps}
use llm_k8s_redis.Action.Seeds.{pick_seed_pod, pick_seed_pod_except}
use llm_k8s_redis.Action.Observe.{pods, list_managed_pods}
use llm_k8s_redis.Action.World.{
  World, Call, cluster_forget, cluster_add_slots, delete_pod, pod_found, deleted, require_string,
}
use llm_k8s_redis.Action.Forget.{
  forget_target, forget_target_node_id, forget_peers, forget_each, is_unknown_node_err,
}
use llm_k8s_redis.Action.Forgets.{IsSafeForget, forget_node-IsSafeForget}
use llm_k8s_redis.Action.Delete.{no_bare_master, delete_reads, delete_checked}
use llm_k8s_redis.Action.Deletes.{IsSafeDelete, delete_node-IsSafeDelete}
use llm_k8s_redis.Action.Preceding.{
  preceded_ensure_node, preceded_wait_node_ready, preceding_add_slots_overlap,
}
use llm_k8s_redis.Action.AddSlots.{
  to_add, add_reads, add_asked, add_connected, add_checked, add_each, batches, add_slots_step,
}
use llm_k8s_redis.Action.Completes.{IsAssigned, add_slots_step-IsAssigned}
use llm_k8s_redis.Controller.Status.{completed}
use llm_k8s_redis.Action.SafeAdds.{IsSafeAdd, add_slots_step-IsSafeAdd}
use llm_k8s_redis.Examples.Live.{pod, cluster}
use llm_k8s_redis.Examples.Observing.{two_pods, raw}
use llm_k8s_redis.Action.Forget
use llm_k8s_redis.Action.Delete

abbrev quote : String → String
quote s = s

-- Every call succeeds, and what Redis says of the nodes stays as it is.
abbrev world : Pod → World
world p = record {
  list_pods = λ h. pods two_pods;
  get_pod = λ h ns name. pod_found p;
  dial = λ h addr. none;
  ping = λ h addr. none;
  cluster_nodes = λ h addr. ok raw;
  forget = λ h addr id. none;
  add_slots = λ h addr slots. none;
  delete = λ h ns name. deleted;
}

abbrev step_of : ActionType → Map String Value → Step
step_of action params = record { id = "s"; action = action; params = some params }

abbrev forgetting : Step
forgetting = step_of forget_node (("namespace", str "demo") ∷ ("lastKnownNodeId", str "c") ∷ [])

abbrev first_pod : Pod
first_pod = pod "redis-0" "10.0.0.1"

abbrev forget_call : Call
forget_call = cluster_forget (pod_redis_addr first_pod) "c"

forgets : In forget_call (Forget.forget_node quote (world first_pod) cluster forgetting).1
unfolding Forget.forget_node forget_target forget_target_node_id forget_peers forget_each
    require_string list_managed_pods pick_seed_pod find filter pod_ready find_by_ip find_by_id
    parse_nodes parse_lines split fields trim_space lookup param_string healthy cut_prefix any
    equal_fold has_flag
forgets = inl refl

forget_node-IsSafeForget_example : IsSafeForget quote (world first_pod) forgetting forget_call
forget_node-IsSafeForget_example =
    forget_node-IsSafeForget quote (world first_pod) cluster forgetting forget_call forgets

abbrev deleting : Step
deleting = step_of delete_node (("namespace", str "demo") ∷ ("pod", str "redis-2") ∷ [])

-- A pod that CLUSTER NODES does not list.
abbrev left_pod : Pod
left_pod = pod "redis-2" "10.0.0.9"

abbrev delete_call : Call
delete_call = delete_pod "demo" "redis-2"

deletes : In delete_call (Delete.delete_node quote (world left_pod) cluster deleting).1
unfolding Delete.delete_node delete_checked delete_reads no_bare_master require_string
    list_managed_pods pick_seed_pod_except last_known_node_maps find filter pod_ready find_by_ip
    find_by_id parse_nodes parse_lines split fields trim_space lookup param_string healthy
    healthy_replicas_of cut_prefix any equal_fold has_flag sort_by
deletes = inl refl

delete_node-IsSafeDelete_example : IsSafeDelete (world left_pod) cluster deleting delete_call
delete_node-IsSafeDelete_example =
    delete_node-IsSafeDelete quote (world left_pod) cluster deleting delete_call deletes

abbrev of_pod : Map String Value
of_pod = ("namespace", str "demo") ∷ ("pod", str "redis-0") ∷ []

abbrev before : List Step
before = step_of ensure_node of_pod ∷ step_of wait_node_ready of_pod ∷ []

abbrev adding : Step
adding =
    step_of add_slots
      (("namespace", str "demo") ∷ ("pod", str "redis-0") ∷ ("slots", str "1-3") ∷ [])

abbrev slot_text : SlotError → String
slot_text e = "invalid"

abbrev owner_text : OwnerError → String
owner_text e = "invalid"

abbrev add_call : Call
add_call = cluster_add_slots (pod_redis_addr first_pod) (2 ∷ 3 ∷ [])

adds :
    In add_call
      (add_slots_step quote slot_text owner_text (world first_pod) cluster before adding).1
unfolding add_slots_step add_checked add_asked add_connected add_reads to_add add_each batches
    require_string preceded_ensure_node preceded_wait_node_ready preceding_add_slots_overlap
    parse_slot_spec slot_token_range slots_between add_range has_char cut_at atoi insert has find
    filter find_by_ip parse_nodes parse_lines split fields trim_space lookup param_string healthy
    master_has_healthy_replica slot_ownership own_entries own_tokens migrating_slots cut_prefix any
    equal_fold has_flag
adds = inl refl

add_slots_step-IsSafeAdd_example : IsSafeAdd (world first_pod) cluster adding add_call
add_slots_step-IsSafeAdd_example =
    add_slots_step-IsSafeAdd quote slot_text owner_text (world first_pod) cluster before adding
      add_call adds

-- A step whose slots the target owns already.
abbrev added : Step
added =
    step_of add_slots
      (("namespace", str "demo") ∷ ("pod", str "redis-0") ∷ ("slots", str "0-1") ∷ [])

completes :
    (add_slots_step quote slot_text owner_text
      (world first_pod)
      cluster
      before
      added).0.0.outcome.status
    ≡ completed
unfolding add_slots_step add_checked add_asked add_connected add_reads to_add add_each batches
    require_string preceded_ensure_node preceded_wait_node_ready preceding_add_slots_overlap
    parse_slot_spec slot_token_range slots_between add_range has_char cut_at atoi insert has find
    filter find_by_ip parse_nodes parse_lines split fields trim_space lookup param_string healthy
    master_has_healthy_replica slot_ownership own_entries own_tokens migrating_slots cut_prefix any
    equal_fold has_flag
completes = refl

add_slots_step-IsAssigned_example :
    IsAssigned
      (world first_pod)
      cluster
      added
      (add_slots_step quote slot_text owner_text (world first_pod) cluster before added).1
add_slots_step-IsAssigned_example =
    add_slots_step-IsAssigned quote slot_text owner_text (world first_pod) cluster before added
      completes
