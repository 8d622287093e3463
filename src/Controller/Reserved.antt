-- ===== src/Controller/Reserved.antt =====
-- internal/controller/pod_ordinal.go: the next ordinal at the start of a reconcile, above all that the
-- status knows.
use llm_k8s_redis.Prelude.{
  ℕ, String, List, [], ◌∷◌, ◌++◌, map, Option, some, none, if◌then◌else◌, Result, ok, err, is_blank,
}
use llm_k8s_redis.Plan.{Step, Plan, ObservedNode}
use llm_k8s_redis.Api.{NodeTopology, ShardTopology, ClusterTopology, RedisCluster}
use llm_k8s_redis.Controller.Status.{PlanStatus, Codec, status_to_plan}
use llm_k8s_redis.Controller.Ordinal.{controller_pod_ordinal, to_int32, raise, above, step_ordinal}

abbrev pub named : String → List String → List String
named pod pods = if is_blank pod then pods else pod ∷ pods

abbrev pub replica_pods : List NodeTopology → List String → List String
replica_pods [] pods = pods
replica_pods (r ∷ replicas) pods = named r.pod (replica_pods replicas pods)

abbrev pub shard_pods : List ShardTopology → List String
shard_pods [] = []
shard_pods (sh ∷ shards) = named sh.master.pod (replica_pods sh.replicas (shard_pods shards))

unfoldable pub status_topology_pods : Option ClusterTopology → List String
status_topology_pods none = []
status_topology_pods (some t) = shard_pods t.shards

-- max, one higher than in the source, over a list of ordinals that may be missing.
unfoldable pub highest : ℕ → List (Option ℕ) → ℕ
highest bound [] = bound
highest bound (o ∷ ordinals) = highest (above bound o) ordinals

abbrev pub plan_ordinals : Result String Plan → List (Option ℕ)
plan_ordinals (err e) = []
plan_ordinals (ok p) = map (λ (s : Step). step_ordinal s s.action) p.steps

abbrev pub active_ordinals : Codec → Option PlanStatus → List (Option ℕ)
active_ordinals json none = []
active_ordinals json (some active) = plan_ordinals (status_to_plan json active)

-- The ordinals of the topology's pods, of the observed nodes and of the pods that the plan ensures.
abbrev pub taken_ordinals : Codec → RedisCluster → List (Option ℕ)
taken_ordinals json c =
    map controller_pod_ordinal (status_topology_pods c.topology)
    ++ map (λ (n : ObservedNode). controller_pod_ordinal n.pod) c.observed_nodes
    ++ active_ordinals json c.active_plan

-- bumpNextPodOrdinal; its result, whether the ordinal was raised, is only logged.
unfoldable pub bump_next_pod_ordinal : Codec → RedisCluster → RedisCluster
unfolding status_topology_pods highest
bump_next_pod_ordinal json c = record c {
  next_pod_ordinal =
      raise c.next_pod_ordinal (to_int32 (highest c.next_pod_ordinal (taken_ordinals json c)));
}
