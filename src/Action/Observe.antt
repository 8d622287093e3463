-- ===== src/Action/Observe.antt =====
-- internal/action/topology_observer.go: one observation of a cluster, and the collection of its nodes
-- for a plan. What Kubernetes and Redis answer is a parameter.
use llm_k8s_redis.Prelude.{
  ℕ, String, List, [], ◌∷◌, Map, Option, some, none, true, false, if◌then◌else◌, Result, ok, err,
  ◌>>=◌, ◌<>◌, lookup, string_keys,
}
use llm_k8s_redis.Plan.{ObservedNode, or_blank}
use llm_k8s_redis.Api.{ClusterTopology, RedisCluster}
use llm_k8s_redis.Cluster.Entries.{Entry, parse_info, state_ok}
use llm_k8s_redis.Controller.Ordinal.{bump_from_observed}
use llm_k8s_redis.Action.Pods.{Pod, map_pods_by_ip, pod_redis_addr}
use llm_k8s_redis.Action.Observed.{observed_nodes}
use llm_k8s_redis.Action.Topology.{rebuild_topology}
use llm_k8s_redis.Action.Seeds.{observation_seed_pods}
use llm_k8s_redis.Action.Views.{
  Connection, Dial, ClusterView, collect_best_cluster_nodes, collect_cluster_views,
  best_cluster_view,
}
use llm_k8s_redis.Action.Status.{set_condition, api_observed_nodes}

-- What a List of the cluster's pods answers.
pub data Listing : Type 0 where
  pods : List Pod → Listing
  namespace_not_found : Listing
  list_error : String → Listing

-- listManagedPods
unfoldable pub list_managed_pods : Listing → Result String (List Pod)
list_managed_pods (pods l) = ok l
list_managed_pods namespace_not_found = ok []
list_managed_pods (list_error e) = err ("list managed pods: " <> e)

-- An observation: healthy with what it saw, or not with a message.
pub data Observation : Type 0 where
  healthy_view : List Pod → List Entry → ClusterTopology → Observation
  unhealthy : String → Observation

-- `quote` is the %q of fmt.
module _ (quote : String → String) (dials : ℕ → Dial) where
  abbrev viewed : List Pod → String → Result String (List ClusterView) → Result String Observation
  viewed l addr (err e) = ok (unhealthy e)
  viewed l addr (ok []) =
      ok (unhealthy ("seed redis at " <> (addr <> " returned no CLUSTER NODES entries")))
  viewed l addr (ok (v ∷ views)) =
      let entries = (best_cluster_view v views).entries in
      ok (healthy_view l entries (rebuild_topology entries (map_pods_by_ip l)))

  abbrev informed : List Pod → List Pod → String → Map String String → Result String Observation
  informed l seeds addr info =
      if state_ok info
      then viewed l addr (collect_cluster_views dials 1 seeds)
      else ok (
          unhealthy (
            "cluster_state is "
            <> (quote (or_blank (lookup "cluster_state" info)) <> ", expected ok")))

  abbrev seed_answers :
      List Pod
      → List Pod
      → String
      → Option String
      → Result String String
      → Result String Observation
  seed_answers l seeds addr (some e) info =
      ok (unhealthy ("seed redis at " <> (addr <> (" not reachable: " <> e))))
  seed_answers l seeds addr none (err e) =
      ok (unhealthy ("seed redis at " <> (addr <> (" CLUSTER INFO failed: " <> e))))
  seed_answers l seeds addr none (ok raw) = informed l seeds addr (parse_info raw)

  abbrev connected :
      List Pod → List Pod → String → Result String Connection → Result String Observation
  connected l seeds addr (err e) = err ("build redis client for seed " <> (addr <> (": " <> e)))
  connected l seeds addr (ok rc) = seed_answers l seeds addr rc.ping rc.cluster_info

  abbrev from_seeds : String → List Pod → List Pod → Result String Observation
  from_seeds name l [] = ok (unhealthy ("no ready managed pod with IP yet for cluster " <> name))
  from_seeds name l (seed ∷ seeds) =
      connected l (seed ∷ seeds) (pod_redis_addr seed) (dials 0 (pod_redis_addr seed))

  abbrev pods_listed : RedisCluster → List Pod → Result String Observation
  pods_listed c [] = ok (unhealthy ("no managed pods found for cluster " <> c.name))
  pods_listed c (p ∷ l) = from_seeds c.name (p ∷ l) (observation_seed_pods c.topology (p ∷ l))

  -- observeTopology
  unfoldable pub observe : RedisCluster → Listing → Result String Observation
  unfolding list_managed_pods
  observe c listing = list_managed_pods listing >>= λ l. pods_listed c l

  -- The status that an observation leaves, at a time.
  abbrev written : ℕ → RedisCluster → Observation → RedisCluster
  written now c (unhealthy msg) =
      set_condition now (record c { topology_observed_at = now }) "Healthy" false
        "TopologyObserveFailed" msg
  written now c (healthy_view l entries topology) =
      let nodes = observed_nodes (some topology) l entries in
      set_condition now
        (record c {
          topology_observed_at = now;
          topology = some topology;
          observed_nodes = api_observed_nodes nodes;
          next_pod_ordinal = bump_from_observed c.next_pod_ordinal nodes;
        })
        "Healthy" true "TopologyObserved" "topology refreshed from live cluster"

  -- ObserveTopology: an error leaves the cluster as it is.
  unfoldable pub observe_topology : ℕ → RedisCluster → Listing → Result String RedisCluster
  unfolding observe
  observe_topology now c listing = observe c listing >>= λ o. ok (written now c o)

module _ (dials : ℕ → Dial) where
  abbrev pub collect_from : RedisCluster → List Pod → List Pod → Result String (List ObservedNode)
  collect_from c l [] = ok (observed_nodes c.topology l [])
  collect_from c l (seed ∷ seeds) = collect_best_cluster_nodes dials (seed ∷ seeds) >>= λ entries.
      ok (observed_nodes c.topology l entries)

  -- CollectObservedNodes
  unfoldable pub collect_observed_nodes : RedisCluster → Listing → Result String (List ObservedNode)
  unfolding list_managed_pods
  collect_observed_nodes c listing =
      list_managed_pods listing >>= λ l. collect_from c l (observation_seed_pods c.topology l)
