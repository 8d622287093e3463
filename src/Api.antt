-- ===== src/Api.antt =====
-- api/v1alpha1/rediscluster_types.go: the RedisCluster and what its status keeps.
use llm_k8s_redis.Prelude.{ℕ, String, List, Option, Bool}
use llm_k8s_redis.Plan.{ClusterSpec, ObservedNode}
use llm_k8s_redis.Controller.Status.{PlanStatus}

pub record NodeTopology : Type 0 where
  pub pod : String
  pub node_id : String
  pub slots : String
  pub ready : Bool

pub record ShardTopology : Type 0 where
  pub id : String
  pub master : NodeTopology
  pub replicas : List NodeTopology

pub record ClusterTopology : Type 0 where
  pub shards : List ShardTopology

-- A condition of a status. A time is a number, and 0 is Go's zero time.
pub record Condition : Type 0 where
  pub kind : String
  pub status : Bool
  pub reason : String
  pub message : String
  pub observed_generation : ℕ
  pub last_transition_time : ℕ

-- What the controller reads of a RedisCluster's metadata and spec, and its status. The status keeps
-- the observed nodes with the same fields as the plan's.
pub record RedisCluster : Type 0 where
  pub name : String
  pub generation : ℕ
  pub shards : ℕ
  pub replicas_per_shard : ℕ
  pub image : String
  pub memory_size : String
  pub conditions : List Condition
  pub observed_generation : ℕ
  pub active_plan : Option PlanStatus
  pub topology : Option ClusterTopology
  pub topology_observed_at : ℕ
  pub observed_nodes : List ObservedNode
  pub next_pod_ordinal : ℕ

-- internal/controller/planner_conversion.go
abbrev pub to_cluster_spec : RedisCluster → ClusterSpec
to_cluster_spec c = record {
  name = c.name;
  generation = c.generation;
  shards = c.shards;
  replicas_per_shard = c.replicas_per_shard;
  image = c.image;
  memory_size = c.memory_size;
}
