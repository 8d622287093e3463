-- ===== src/Action/Delete.antt =====
-- internal/action/delete_node.go: the DeleteNode step.
use llm_k8s_redis.Prelude.{
  String, List, [], ◌∷◌, Option, some, none, Bool, true, false, not, ◌&&◌, ◌==◌, string_keys,
  if◌then◌else◌, Result, ok, err, ◌>>=◌, guard, ◌>>◌, ◌<>◌, is_blank, is_empty, lookup,
}
use llm_k8s_redis.Plan.{Step, or_blank}
use llm_k8s_redis.Api.{RedisCluster}
use llm_k8s_redis.Cluster.Entries.{Entry, is_master, parse_nodes, find_by_ip, find_by_id}
use llm_k8s_redis.Cluster.Markers.{has_slots, healthy_replicas_of}
use llm_k8s_redis.Action.Pods.{Pod, pod_redis_addr}
use llm_k8s_redis.Action.Observed.{last_known_node_maps}
use llm_k8s_redis.Action.Seeds.{pick_seed_pod_except}
use llm_k8s_redis.Action.Observe.{list_managed_pods}
use llm_k8s_redis.Action.World.{
  Ended, param_err, failed_with, running_with, completed_with, delete_pod, History, World, PodReply,
  pod_found, pod_not_found, get_failed, DeleteReply, deleted, already_gone, delete_failed,
  pods_or_end, no_error, or_end, some_or_end, require_string,
}

abbrev pub label_cluster : String
label_cluster = "redis.example.com/cluster"

abbrev pub label_managed_by : String
label_managed_by = "app.kubernetes.io/managed-by"

abbrev pub is_managed : String → Pod → Bool
is_managed name p =
    or_blank (lookup label_cluster p.labels) == name
    && or_blank (lookup label_managed_by p.labels) == "redis-cluster-controller"

-- The condition of the loop over the entries.
abbrev pub bare_master : List Entry → Entry → Bool
bare_master entries e = is_master e && has_slots e && is_empty (healthy_replicas_of entries e.id)

abbrev pub is_there : Option Entry → Bool
is_there none = false
is_there (some e) = true

abbrev pub slashed : String → String → String
slashed ns pod = ns <> ("/" <> pod)

-- The loop over the entries, among all of them.
unfoldable pub no_bare_master : String → List Entry → List Entry → Result Ended (Unit {0})
no_bare_master path all [] = ok tt
no_bare_master path all (e ∷ entries) =
    let rest = no_bare_master path all entries in
    if bare_master all e
    then err (
        param_err (
          "cannot delete pod "
          <> (path <> (" because master " <> (e.id <> " has no healthy replica")))))
    else rest

abbrev pub target_pod : String → PodReply → Result Ended Pod
target_pod path (pod_found p) = ok p
target_pod path pod_not_found = err (completed_with ("pod " <> (path <> " already deleted")))
target_pod path (get_failed e) = err (failed_with ("get pod: " <> e) e)

-- Is the pod's address, or the node that it was last known as, still in CLUSTER NODES?
abbrev pub member_by_ip : List Entry → Pod → Bool
member_by_ip entries p = not (is_blank p.pod_ip) && is_there (find_by_ip entries p.pod_ip)

abbrev pub member_by_id : List Entry → String → Bool
member_by_id entries id = not (is_blank id) && is_there (find_by_id entries id)

module _ (quote : String → String) (w : World) (c : RedisCluster) (step : Step) where
  -- The node id that a pod was last known as.
  abbrev pub last_known : String → String
  last_known pod = or_blank (lookup pod (last_known_node_maps c.topology).pod_to_node_id)

  -- The tests on what CLUSTER NODES says.
  abbrev pub safe_to_delete : String → String → Pod → List Entry → Result Ended (Unit {0})
  safe_to_delete path pod target entries = do
    guard (not (member_by_ip entries target)) (
        param_err ("cannot delete pod " <> (path <> " because it is still a Redis Cluster member")))
    guard (not (member_by_id entries (last_known pod))) (
        param_err (
          "cannot delete pod "
          <> (path
              <> (" because node " <> (last_known pod <> " is still a Redis Cluster member")))))
    no_bare_master path entries entries

  -- What is read of the cluster before the write.
  unfoldable pub delete_reads : String → String → Pod → Result Ended (Unit {0})
  unfolding list_managed_pods last_known_node_maps no_bare_master
  delete_reads path pod target = do
    pods ← pods_or_end (list_managed_pods (w.list_pods []))
    seed ←
        some_or_end (pick_seed_pod_except pods pod)
          (running_with ("no ready managed pod available to verify deletion safety for " <> pod))
    no_error (w.dial [] (pod_redis_addr seed)) (λ e. failed_with ("build redis client: " <> e) e)
    raw ←
        or_end (w.cluster_nodes [] (pod_redis_addr seed))
          (λ e. running_with ("CLUSTER NODES failed before DeleteNode: " <> e))
    safe_to_delete path pod target (parse_nodes raw)

  -- The part before the write: the pod's namespace and name.
  unfoldable pub delete_checked : Result Ended (String × String)
  unfolding require_string delete_reads
  delete_checked = do
    ns ← require_string quote step.params "namespace"
    pod ← require_string quote step.params "pod"
    guard (ns == c.name)
        (param_err ("namespace " <> (quote ns <> (" must equal cluster name " <> quote c.name))))
    target ← target_pod (slashed ns pod) (w.get_pod [] ns pod)
    guard (is_managed c.name target) (
        param_err ("pod " <> (slashed ns pod <> " is not managed by this RedisCluster controller")))
    delete_reads (slashed ns pod) pod target
    ok (ns, pod)

  abbrev delete_ends : String → DeleteReply → Ended
  delete_ends path deleted = running_with ("pod " <> (path <> " deletion requested"))
  delete_ends path already_gone = completed_with ("pod " <> (path <> " already deleted"))
  delete_ends path (delete_failed e) = failed_with ("delete pod: " <> e) e

  abbrev pub delete_target : Result Ended (String × String) → Ended × History
  delete_target (err end) = (end, [])
  delete_target (ok (ns, pod)) =
      (delete_ends (slashed ns pod) (w.delete [] ns pod), delete_pod ns pod ∷ [])

  -- deleteNode: how the step ends and what it has written.
  unfoldable pub delete_node : Ended × History
  unfolding delete_checked
  delete_node = delete_target delete_checked
