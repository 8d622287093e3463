-- ===== src/Examples/Observing.antt =====
-- Two pods and what their cluster says of its nodes.
use llm_k8s_redis.Prelude.{
  ℕ, ◌^◌, ◌≤◌, ◌<◌, String, List, [], ◌∷◌, some, none, true, false, ◌&&◌, ok, err, ◌≡◌, refl, inl,
  ◌⊎◌, arith, In, is_empty, length, lookup, insert, string_keys, nat_keys, split, fields,
  trim_space, has_char, cut_at, cut_prefix, atoi, ◌<>◌,
}
use llm_k8s_redis.Api.{ShardTopology, RedisCluster}
use llm_k8s_redis.Cluster.Slots.{slot_token_range, slots_between}
use llm_k8s_redis.Cluster.Entries.{
  Entry, parse_nodes, parse_lines, slot_ownership, own_tokens, own_entries, is_master, healthy,
}
use llm_k8s_redis.Controller.Ordinal.{controller_pod_ordinal}
use llm_k8s_redis.Controller.Reserved.{
  highest, taken_ordinals, status_topology_pods, bump_next_pod_ordinal,
}
use llm_k8s_redis.Controller.Taken.{as_replica, bump_next_pod_ordinal-above}
use llm_k8s_redis.Action.Pods.{Pod, map_pods_by_ip, pod_redis_addr}
use llm_k8s_redis.Action.Topology.{rebuild_topology}
use llm_k8s_redis.Action.Best.{Describes, rebuild_topology-shards}
use llm_k8s_redis.Action.Views.{
  Connection, Dial, cluster_nodes_from_seed, readings, owns_all_slots, collect_best,
  collect_best_cluster_nodes,
}
use llm_k8s_redis.Action.Collected.{collect_best_cluster_nodes-best, collect_best_cluster_nodes-err}
use llm_k8s_redis.Examples.Live.{pod, cluster, json}

abbrev pub two_pods : List Pod
two_pods = pod "redis-0" "10.0.0.1" ∷ pod "redis-1" "10.0.0.2" ∷ []

abbrev pub raw : String
raw =
    "a 10.0.0.1:6379@16379 master - 0 0 1 connected 0-1\nb 10.0.0.2:6379@16379 slave a 0 0 1 connected\nc 10.0.0.3:6379@16379 master - 0 0 1 connected"

abbrev line : String → String → List String → String → List String → Entry
line id addr flags master slots = record {
  id = id;
  addr = addr;
  flags = flags;
  master_id = master;
  link_state = "connected";
  slots = slots;
}

abbrev pub entries : List Entry
entries =
    line "a" "10.0.0.1:6379@16379" ("master" ∷ []) "-" ("0-1" ∷ [])
    ∷ line "b" "10.0.0.2:6379@16379" ("slave" ∷ []) "a" []
    ∷ line "c" "10.0.0.3:6379@16379" ("master" ∷ []) "-" []
    ∷ []

pub parsed : parse_nodes raw ≡ entries
unfolding parse_nodes parse_lines split fields trim_space
parsed = refl

rebuild_topology-shards_example :
    ((sh : ShardTopology)
      → In sh (rebuild_topology entries (map_pods_by_ip two_pods)).shards
      → (m : Entry) × Describes entries sh m)
    × ((m : Entry)
        → In m entries
        → is_master m && healthy m ≡ true
        → (sh : ShardTopology) × (In sh (rebuild_topology entries (map_pods_by_ip two_pods)).shards
            × Describes entries sh m))
rebuild_topology-shards_example = rebuild_topology-shards entries (map_pods_by_ip two_pods)

abbrev connection : Connection
connection = record { ping = none; cluster_nodes = ok raw; cluster_info = ok "cluster_state:ok" }

abbrev answering : ℕ → Dial
answering i addr = ok connection

abbrev refusing : ℕ → Dial
refusing i addr = err "connection refused"

collected : collect_best_cluster_nodes answering two_pods ≡ ok entries
unfolding collect_best_cluster_nodes readings collect_best owns_all_slots slot_ownership own_entries
    own_tokens slot_token_range slots_between trim_space has_char cut_at atoi insert lookup
    cluster_nodes_from_seed parse_nodes parse_lines split fields
collected = refl

collect_best_cluster_nodes-best_example :
    (In (ok entries) (readings answering 0 two_pods) × (owns_all_slots entries ≡ true))
    ⊎ (((entries ≡ []) ⊎ In (ok entries) (readings answering 0 two_pods))
        × ((others : List Entry)
            → In (ok others) (readings answering 0 two_pods)
            → (owns_all_slots others ≡ false) × (length others ≤ length entries)))
collect_best_cluster_nodes-best_example =
    collect_best_cluster_nodes-best answering two_pods entries collected

abbrev refusal : String
refusal =
    "build redis client for seed "
    <> (pod_redis_addr (pod "redis-1" "10.0.0.2") <> (": " <> "connection refused"))

refused : collect_best_cluster_nodes refusing two_pods ≡ err refusal
unfolding collect_best_cluster_nodes readings collect_best cluster_nodes_from_seed
refused = refl

collect_best_cluster_nodes-err_example :
    In (err refusal) (readings refusing 0 two_pods)
    × ((others : List Entry)
        → In (ok others) (readings refusing 0 two_pods)
        → is_empty others ≡ true)
collect_best_cluster_nodes-err_example =
    collect_best_cluster_nodes-err refusing two_pods refusal refused

-- A status that knows redis-4, before the pods of its nodes are counted.
abbrev known : RedisCluster
known = record cluster {
  topology = some (record {
    shards =
        record {
          id = "shard-0";
          master = record { pod = "redis-1"; node_id = "a"; slots = "0-1"; ready = true };
          replicas = record { pod = "redis-4"; node_id = "b"; slots = ""; ready = true } ∷ [];
        }
        ∷ [];
  });
  next_pod_ordinal = 3;
}

known_ordinals : highest 3 (taken_ordinals json known) < 2 ^ 31
unfolding highest status_topology_pods controller_pod_ordinal cut_prefix atoi
known_ordinals = omega arith

-- "redis-4" is the pod of a replica.
fourth : controller_pod_ordinal "redis-4" ≡ some 4
unfolding controller_pod_ordinal cut_prefix atoi
fourth = refl

bump_next_pod_ordinal-above_example :
    (3 ≤ (bump_next_pod_ordinal json known).next_pod_ordinal)
    × (4 < (bump_next_pod_ordinal json known).next_pod_ordinal)
bump_next_pod_ordinal-above_example =
    bump_next_pod_ordinal-above json known "redis-4" 4 known_ordinals
      (as_replica _ _ _ refl (inl refl) (inl refl)) fourth
