-- ===== src/Action/Topology.antt =====
-- internal/action/topology_observer.go: the topology that the status keeps, rebuilt from the lines of
-- CLUSTER NODES.
use llm_k8s_redis.Prelude.{ℕ, suc, List, [], ◌∷◌, map, ◌<>◌, show, join_with}
use llm_k8s_redis.Api.{NodeTopology, ShardTopology, ClusterTopology}
use llm_k8s_redis.Cluster.Entries.{Entry}
use llm_k8s_redis.Cluster.Markers.{ip_from_addr, healthy_masters, healthy_replicas_of}
use llm_k8s_redis.Action.Pods.{PodsByIp, pod_name_for_ip, pod_ready_for_ip}

abbrev pub master_node : PodsByIp → Entry → NodeTopology
master_node pods m = record {
  pod = pod_name_for_ip pods (ip_from_addr m.addr);
  node_id = m.id;
  slots = join_with "," m.slots;
  ready = pod_ready_for_ip pods (ip_from_addr m.addr);
}

abbrev pub replica_node : PodsByIp → Entry → NodeTopology
replica_node pods r = record {
  pod = pod_name_for_ip pods (ip_from_addr r.addr);
  node_id = r.id;
  slots = "";
  ready = pod_ready_for_ip pods (ip_from_addr r.addr);
}

-- The loop over the masters, from an index on.
unfoldable pub build_shards : List Entry → PodsByIp → ℕ → List Entry → List ShardTopology
build_shards entries pods idx [] = []
build_shards entries pods idx (m ∷ masters) =
    record {
      id = "shard-" <> show idx;
      master = master_node pods m;
      replicas = map (replica_node pods) (healthy_replicas_of entries m.id);
    }
    ∷ build_shards entries pods (suc idx) masters

unfoldable pub rebuild_topology : List Entry → PodsByIp → ClusterTopology
unfolding build_shards
rebuild_topology entries pods = record {
  shards = build_shards entries pods 0 (healthy_masters entries);
}
