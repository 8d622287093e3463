-- ===== src/Validator/Errors.antt =====
-- internal/validator: the errors, one constructor for each place that makes one, with the values
-- that its message names. The texts of messages and hints are not kept.
use llm_k8s_redis.Prelude.{ℕ, String, ℤ}
use llm_k8s_redis.Plan.{ActionType}
use llm_k8s_redis.Cluster.Slots.{SlotError}

pub data ValidationError : Type 0 where
  nil_plan no_steps : ValidationError
  unsupported_version : String → ValidationError
  empty_id : ℕ → ValidationError
  duplicate_id : ℕ → String → ValidationError
  in_step : String → ValidationError → ValidationError
  last_not_verify : ActionType → ValidationError
  not_whitelisted : String → ValidationError
  not_a_string empty_param not_an_integer not_true not_a_bool : String → ValidationError
  bad_pod_name : String → String → ValidationError
  invalid_slots : SlotError → ValidationError
  no_forget_target : ValidationError
  requires : String → String → ValidationError
  wrong_image : String → ValidationError
  not_declared same_pod not_ready not_a_member not_a_master no_replica : String → ValidationError
  owns_slots unknown_member unknown_pod still_a_member : String → ValidationError
  slot_taken : ℕ → String → ValidationError
  slot_unowned : ℕ → ValidationError
  slot_elsewhere : ℕ → String → ValidationError
  outside_cluster idle_master empty_image wrong_pod_image not_forgotten : String → ValidationError
  wrong_replicas : String → ℕ → ℤ → ValidationError
  wrong_shards : ℕ → ℤ → ValidationError
  wrong_coverage : ℕ → ValidationError
  slots_without_master : String → ValidationError
  slot_twice : ℕ → String → String → ValidationError
  owner_index : ℕ → ValidationError
