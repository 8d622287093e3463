-- ===== src/Examples/Live.antt =====
-- A live cluster of two pods with a node that is gone, and what the executor observes of it.
use llm_k8s_redis.Prelude.{
  ℕ, String, List, [], ◌∷◌, none, false, ok, ◌>>=◌, ◌≡◌, refl, ap, ◌∙◌, inl, inr, Bool-cases,
  lookup, insert, has, string_keys, split, fields, trim_space, cut_at, cut_prefix, sort_by, filter,
  find, atoi, join_with,
}
use llm_k8s_redis.Api.{Condition, RedisCluster}
use llm_k8s_redis.Cluster.Entries.{Entry, parse_nodes, parse_lines, find_by_ip, find_by_id}
use llm_k8s_redis.Cluster.Markers.{ip_from_addr}
use llm_k8s_redis.Controller.Status.{Codec}
use llm_k8s_redis.Controller.Ordinal.{controller_pod_ordinal}
use llm_k8s_redis.Action.Pods.{Pod, pod_ready, pod_redis_image, map_pods_by_ip, pod_name_for_ip}
use llm_k8s_redis.Action.Observed.{observed_nodes}
use llm_k8s_redis.Action.Seeds.{observation_seed_pods}
use llm_k8s_redis.Action.Views.{
  Connection, Dial, Reading, cluster_nodes_from_seed, readings, owns_all_slots, collect_best,
  collect_best_cluster_nodes,
}
use llm_k8s_redis.Action.Observe.{pods, list_managed_pods, collect_from, collect_observed_nodes}
use llm_k8s_redis.Examples.Repairing.{nodes}

abbrev pub pod : String → String → Pod
pod name ip = record {
  name = name;
  namespace = "demo";
  labels =
      ("redis.example.com/cluster", "demo")
      ∷ ("app.kubernetes.io/managed-by", "redis-cluster-controller")
      ∷ [];
  deletion_timestamp = none;
  containers = record { name = "redis"; image = "redis:7" } ∷ [];
  conditions = record { kind = "Ready"; status = "True" } ∷ [];
  pod_ip = ip;
}

abbrev pub two_pods : List Pod
two_pods = pod "redis-0" "10.0.0.1" ∷ pod "redis-1" "10.0.0.2" ∷ []

-- A master with all slots, its replica, and a failed node that is gone.
abbrev raw : String
raw =
    "a 10.0.0.1:6379@16379 master - 0 0 1 connected 0-16383\nb 10.0.0.2:6379@16379 slave a 0 0 1 connected\ng 10.0.0.9:6379@16379 fail - 0 0 1 disconnected"

abbrev connection : Connection
connection = record { ping = none; cluster_nodes = ok raw; cluster_info = ok "cluster_state:ok" }

abbrev pub dials : ℕ → Dial
dials i addr = ok connection

abbrev waiting : Condition
waiting = record {
  kind = "Planned";
  status = false;
  reason = "WaitingForClusterStable";
  message = "";
  observed_generation = 1;
  last_transition_time = 0;
}

abbrev pub cluster : RedisCluster
cluster = record {
  name = "demo";
  generation = 1;
  shards = 1;
  replicas_per_shard = 1;
  image = "redis:7";
  memory_size = "1Gi";
  conditions = waiting ∷ [];
  observed_generation = 1;
  active_plan = none;
  topology = none;
  topology_observed_at = 0;
  observed_nodes = [];
  next_pod_ordinal = 0;
}

abbrev entries : List Entry
entries =
    record {
      id = "a";
      addr = "10.0.0.1:6379@16379";
      flags = "master" ∷ [];
      master_id = "-";
      link_state = "connected";
      slots = "0-16383" ∷ [];
    }
    ∷ record {
      id = "b";
      addr = "10.0.0.2:6379@16379";
      flags = "slave" ∷ [];
      master_id = "a";
      link_state = "connected";
      slots = [];
    }
    ∷ record {
      id = "g";
      addr = "10.0.0.9:6379@16379";
      flags = "fail" ∷ [];
      master_id = "-";
      link_state = "disconnected";
      slots = [];
    }
    ∷ []

parsed : parse_nodes raw ≡ entries
unfolding parse_nodes parse_lines split fields trim_space
parsed = refl

read_both : readings dials 0 two_pods ≡ ok entries ∷ ok entries ∷ []
unfolding readings cluster_nodes_from_seed
read_both = ap (λ (e : List Entry). ok e ∷ ok e ∷ []) parsed

-- Whether the lines own all slots is not computed: either way they are the result.
collects : collect_best [] none (ok entries ∷ ok entries ∷ []) ≡ ok entries
unfolding collect_best
collects = elim (Bool-cases (owns_all_slots entries)) [
  | inl full ↦ rw full refl
  | inr part ↦ rw part refl
]

seeds : observation_seed_pods none two_pods ≡ two_pods
unfolding observation_seed_pods filter sort_by pod_ready find controller_pod_ordinal cut_prefix atoi
seeds = refl

observed : observed_nodes none two_pods entries ≡ nodes
unfolding observed_nodes map_pods_by_ip find_by_ip find_by_id cut_prefix find lookup insert has
    sort_by controller_pod_ordinal atoi pod_ready pod_redis_image ip_from_addr cut_at
    pod_name_for_ip join_with
observed = refl

best : collect_best_cluster_nodes dials two_pods ≡ ok entries
unfolding collect_best_cluster_nodes
best = ap (collect_best [] none) read_both ∙ collects

pub collected : collect_observed_nodes dials cluster (pods two_pods) ≡ ok nodes
unfolding collect_observed_nodes list_managed_pods
collected =
    ap (λ l. collect_from dials cluster two_pods l) seeds
    ∙ ap (λ (r : Reading). r >>= λ e. ok (observed_nodes none two_pods e)) best
    ∙ ap ok observed

-- The codec writes every map alike.
abbrev pub json : Codec
json = record { marshal = λ m. ok "{}"; unmarshal = λ raw. ok none; quote = λ s. s }
