-- ===== src/Plan.antt =====
-- internal/plan/types.go: the plan and its steps, the spec, and the observed nodes. `int32` and
-- `int64` fields that the CRD keeps non-negative are ℕ.
use llm_k8s_redis.Prelude.{ℕ, String, List, Option, Map, Bool, lookup, some, none, ℤ, string_keys}

-- A value of a step's parameters (`any`). Of a `float64` the program asks only whether it is an
-- integer, so it is kept as that integer or as none.
pub data Value : Type 0 where
  str : String → Value
  bool : Bool → Value
  int int32 int64 : ℤ → Value
  float64 : Option ℤ → Value
  null other : Value

-- `ActionType` is a string: a whitelisted one, or any other.
pub data ActionType : Type 0 where
  ensure_node wait_node_ready meet_node replicate_node add_slots : ActionType
  migrate_slots forget_node delete_node verify_cluster : ActionType
  unknown : String → ActionType

-- A nil map of parameters is none.
pub record Step : Type 0 where
  pub id : String
  pub action : ActionType
  pub params : Option (Map String Value)

abbrev pub dsl_version : String
dsl_version = "redis.ops/v1alpha1"

pub record Plan : Type 0 where
  pub dsl_version : String
  pub plan_id : String
  pub target_generation : ℕ
  pub summary : String
  pub steps : List Step

pub record ClusterSpec : Type 0 where
  pub name : String
  pub generation : ℕ
  pub shards : ℕ
  pub replicas_per_shard : ℕ
  pub image : String
  pub memory_size : String

pub record ObservedNode : Type 0 where
  pub pod : String
  pub pod_exists : Bool
  pub image : String
  pub redis_seen : Bool
  pub node_id : String
  pub role : String
  pub slots : String
  pub master_id : String
  pub master_pod : String
  pub ready : Bool
  pub deleting : Bool
  pub flags : List String
  pub link_state : String

-- params[key], with a nil map read as an empty one.
unfoldable pub param : Option (Map String Value) → String → Option Value
param none key = none
param (some m) key = lookup key m

abbrev pub as_string : Option Value → Option String
as_string (some (str s)) = some s
as_string _ = none

-- paramString: the text under a key; none is the second result false.
unfoldable pub param_string : Option (Map String Value) → String → Option String
unfolding param
param_string params key = as_string (param params key)

-- s, _ := paramString(params, key)
abbrev pub or_blank : Option String → String
or_blank none = ""
or_blank (some s) = s

abbrev pub as_int : Option Value → Option ℤ
as_int (some (int i)) = some i
as_int (some (int32 i)) = some i
as_int (some (int64 i)) = some i
as_int (some (float64 i)) = i
as_int _ = none

-- paramInt
unfoldable pub param_int : Option (Map String Value) → String → Option ℤ
unfolding param
param_int params key = as_int (param params key)
