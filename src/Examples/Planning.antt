-- ===== src/Examples/Planning.antt =====
-- The Go planner on an empty cluster, and its shares of the slots.
use llm_k8s_redis.Prelude.{ℕ, ◌+◌, ◌/◌, ◌≤◌, String, [], Option, some, none, ◌≡◌, ◌⊎◌, refl, arith}
use llm_k8s_redis.Plan.{Plan}
use llm_k8s_redis.Cluster.Slots.{slot_range_bound}
use llm_k8s_redis.Planner.Slots.{
  redis_slot_count, balanced_start, balanced_size, slot_range_start, slot_range_end,
}
use llm_k8s_redis.Planner.Steps.{redis_pod}
use llm_k8s_redis.Planner.Builders.{Request, build_create_plan}
use llm_k8s_redis.Planner.Topology.{topology_from_observed}
use llm_k8s_redis.Planner.Go.{build_go_plan, go_plan, Planned}
use llm_k8s_redis.Planner.Goal.{IsFor, build_go_plan-IsFor}
use llm_k8s_redis.Planner.Accepted.{IsOwn, HasNone, Delegates, go_plan-cases}
use llm_k8s_redis.Planner.Shares.{
  balanced-partition, slot_range-partition, redis_pod_ordinal-redis_pod,
}
use llm_k8s_redis.Validator.Schema.{redis_pod_ordinal}
use llm_k8s_redis.Examples.Small.{spec}

abbrev req : Request
req = record { spec = spec; nodes = []; next_pod_ordinal = 0 }

abbrev plan_or : Plan → Option Plan → Plan
plan_or p none = p
plan_or p (some q) = q

abbrev no_plan : Plan
no_plan = record { dsl_version = ""; plan_id = ""; target_generation = 0; summary = ""; steps = [] }

created : Plan
created = plan_or no_plan (build_create_plan req)

creates : build_go_plan req ≡ some created
unfolding build_go_plan topology_from_observed build_create_plan created
creates = refl

build_go_plan-IsFor_example : (1 ≤ 1) × IsFor spec created
build_go_plan-IsFor_example = build_go_plan-IsFor req created creates

-- A fallback that always fails.
abbrev broken : Request → Planned String
broken r = (none, some "no model")

go_plan-cases_example :
    ((p : Plan) × IsOwn req p × (go_plan (some broken) req ≡ (some p, none)))
    ⊎ (HasNone req × Delegates (some broken) req (go_plan (some broken) req))
go_plan-cases_example = go_plan-cases (some broken) req

balanced-partition_example :
    (balanced_start 0 3 ≡ 0)
    × (balanced_start 3 3 ≡ redis_slot_count)
    × ((i : ℕ) → balanced_start (i + 1) 3 ≡ balanced_start i 3 + balanced_size i 3)
    × ((i : ℕ)
        → (balanced_size i 3 ≡ redis_slot_count / 3)
          ⊎ (balanced_size i 3 ≡ redis_slot_count / 3 + 1))
balanced-partition_example = balanced-partition 3 (omega arith)

slot_range-partition_example :
    (slot_range_start 0 3 ≡ 0)
    × ((i : ℕ) → slot_range_start i 3 ≤ slot_range_end i 3)
    × ((i : ℕ) → slot_range_start (i + 1) 3 ≡ slot_range_end i 3 + 1)
    × (slot_range_end 2 3 ≡ slot_range_bound)
slot_range-partition_example = slot_range-partition 3 (omega arith) (omega arith)

redis_pod_ordinal-redis_pod_example : redis_pod_ordinal (redis_pod 12) ≡ some 12
redis_pod_ordinal-redis_pod_example = redis_pod_ordinal-redis_pod 12 (omega arith)
