-- ===== src/Action/Forget.antt =====
-- internal/action/forget_node.go: the ForgetNode step.
use llm_k8s_redis.Prelude.{
  String, code, List, [], ◌∷◌, ◌++◌, Option, some, none, Bool, true, false, not, ◌&&◌, ◌||◌, ◌==◌,
  string_keys, nat_eq, if◌then◌else◌, Result, ok, err, ◌>>=◌, guard, ◌>>◌, ◌<>◌, is_blank, is_empty,
  filter, find, fold_code,
}
use llm_k8s_redis.Plan.{Step, param_string, or_blank}
use llm_k8s_redis.Api.{RedisCluster}
use llm_k8s_redis.Cluster.Entries.{Entry, healthy, parse_nodes, find_by_ip, find_by_id}
use llm_k8s_redis.Cluster.Markers.{has_slots}
use llm_k8s_redis.Action.Pods.{Pod, usable, pod_redis_addr}
use llm_k8s_redis.Action.Seeds.{pick_seed_pod}
use llm_k8s_redis.Action.Observe.{list_managed_pods}
use llm_k8s_redis.Action.World.{
  Ended, param_err, failed_with, running_with, completed_with, cluster_forget, History, World,
  pods_or_end, no_error, or_end, some_or_end, require_string,
}

-- strings.HasPrefix and strings.Contains of a text in lower case.
unfoldable lower_starts : String → String → Bool
unfolding fold_code
lower_starts s String.[] = true
lower_starts String.[] (String.◌∷◌ d t) = false
lower_starts (String.◌∷◌ c s) (String.◌∷◌ d t) =
    let rest = lower_starts s t in nat_eq (fold_code c) (code d) && rest

unfoldable lower_contains : String → String → Bool
unfolding lower_starts
lower_contains String.[] part = lower_starts "" part
lower_contains (String.◌∷◌ c s) part =
    let rest = lower_contains s part in lower_starts (String.◌∷◌ c s) part || rest

-- isUnknownNodeErr. Its text has none of the letters that a letter outside ASCII becomes in lower case,
-- other than the k of the Kelvin sign.
unfoldable pub is_unknown_node_err : String → Bool
unfolding lower_contains
is_unknown_node_err e = lower_contains e "unknown node"

abbrev entry_id : String → Option Entry → Result Ended String
entry_id pod none = err (completed_with ("pod " <> (pod <> " already absent from CLUSTER NODES")))
entry_id pod (some e) = ok e.id

-- forgetPeers
abbrev pub peer_entry : String → Option Entry → Bool
peer_entry target none = false
peer_entry target (some e) = not (e.id == target) && healthy e

unfoldable pub forget_peers : List Entry → List Pod → String → List Pod
forget_peers entries pods target =
    filter (λ p. usable p && peer_entry target (find_by_ip entries p.pod_ip)) pods

-- What a ForgetNode has made sure of when it begins to write.
pub record Target : Type 0 where
  pub seed_addr : String
  pub node_id : String
  pub peers : List Pod

module _ (quote : String → String) where
  abbrev pub pod_id : List Entry → String → Option Pod → Result Ended String
  pod_id entries pod none =
      err
        (param_err ("lastKnownNodeId is required when pod " <> (quote pod <> " no longer exists")))
  pod_id entries pod (some p) = entry_id pod (find_by_ip entries p.pod_ip)

  -- forgetTargetNodeID
  unfoldable pub forget_target_node_id : Step → String → List Pod → List Entry → Result Ended String
  forget_target_node_id step pod pods entries =
      let known = or_blank (param_string step.params "lastKnownNodeId") in
      if is_blank known then pod_id entries pod (find (λ p. p.name == pod) pods) else ok known

  abbrev pub target_entry :
      String → List Entry → List Pod → String → Option Entry → Result Ended Target
  target_entry addr entries pods id none =
      err (completed_with ("node " <> (id <> " already forgotten")))
  target_entry addr entries pods id (some target) = do
    guard (not (has_slots target))
        (param_err ("cannot forget node " <> (id <> " because it still owns slots")))
    guard (not (is_empty (forget_peers entries pods id)))
        (running_with ("no healthy peers available to forget node " <> id))
    ok (record { seed_addr = addr; node_id = id; peers = forget_peers entries pods id })

  module _ (w : World) (c : RedisCluster) (step : Step) where
    abbrev pub pod_name : String
    pod_name = or_blank (param_string step.params "pod")

    abbrev pub target_name : String
    target_name =
        if is_blank pod_name
        then or_blank (param_string step.params "lastKnownNodeId")
        else pod_name

    -- The part before the first write.
    unfoldable pub forget_target : Result Ended Target
    unfolding require_string list_managed_pods forget_target_node_id forget_peers
    forget_target = do
      ns ← require_string quote step.params "namespace"
      guard (not (is_blank target_name)) (param_err "pod or lastKnownNodeId is required")
      guard (ns == c.name)
          (param_err ("namespace " <> (quote ns <> (" must equal cluster name " <> quote c.name))))
      pods ← pods_or_end (list_managed_pods (w.list_pods []))
      seed ←
          some_or_end (pick_seed_pod pods)
            (running_with ("no ready managed pod available to forget " <> target_name))
      no_error (w.dial [] (pod_redis_addr seed)) (λ e. failed_with ("build redis client: " <> e) e)
      raw ←
          or_end (w.cluster_nodes [] (pod_redis_addr seed))
            (λ e. running_with ("CLUSTER NODES failed before ForgetNode: " <> e))
      id ← forget_target_node_id step pod_name pods (parse_nodes raw)
      target_entry (pod_redis_addr seed) (parse_nodes raw) pods id (find_by_id (parse_nodes raw) id)

    -- The error of a CLUSTER FORGET that ends the step.
    abbrev pub serious : Option String → Option String
    serious none = none
    serious (some e) = if is_unknown_node_err e then none else some e

    abbrev pub forgotten_by :
        History
        → Option String
        → Result Ended (Unit {0}) × History
        → Result Ended (Unit {0}) × History
    forgotten_by h none rest = rest
    forgotten_by h (some e) rest = (err (failed_with e e), h)

    abbrev pub dialled :
        History
        → Pod
        → Option String
        → Result Ended (Unit {0}) × History
        → Result Ended (Unit {0}) × History
    dialled h p none rest = rest
    dialled h p (some e) rest = (
      err (
          failed_with
            ("build redis client for " <> (p.namespace <> ("/" <> (p.name <> (": " <> e))))) e),
      h,
    )

    -- The loop over the peers.
    unfoldable pub forget_each : String → List Pod → History → Result Ended (Unit {0}) × History
    unfolding is_unknown_node_err
    forget_each id [] h = (ok tt, h)
    forget_each id (p ∷ peers) h =
        let addr = pod_redis_addr p in
        let rest = forget_each id peers (h ++ cluster_forget addr id ∷ []) in
        dialled h p (w.dial h addr)
          (forgotten_by (h ++ cluster_forget addr id ∷ []) (serious (w.forget h addr id)) rest)

    abbrev pub seen_after : String → Result String String → Ended
    seen_after id (err e) = running_with ("CLUSTER NODES failed after ForgetNode: " <> e)
    seen_after id (ok raw) = elim (find_by_id (parse_nodes raw) id) [
      | none ↦ completed_with ("node " <> (id <> " forgotten"))
      | some e ↦ running_with ("node " <> (id <> " still visible after CLUSTER FORGET"))
    ]

    abbrev pub after_forget : Target → Result Ended (Unit {0}) × History → Ended × History
    after_forget t (err end, h) = (end, h)
    after_forget t (ok _, h) = (seen_after t.node_id (w.cluster_nodes h t.seed_addr), h)

    abbrev pub forget_checked : Result Ended Target → Ended × History
    forget_checked (err end) = (end, [])
    forget_checked (ok t) = after_forget t (forget_each t.node_id t.peers [])

    -- forgetNode: how the step ends and what it has written.
    unfoldable pub forget_node : Ended × History
    unfolding forget_target forget_each
    forget_node = forget_checked forget_target
