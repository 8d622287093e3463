-- ===== src/Planner/Shares.antt =====
-- internal/planner/go_planner.go: the shares of the slots, and pod names.
use llm_k8s_redis.Prelude.{
  ℕ, ◌+◌, ◌-◌, ◌*◌, ◌/◌, ◌≤◌, ◌<◌, String, Option, some, none, true, ◌≡◌, refl, ◌∙◌, ap, inl, inr,
  arith, ◌⊎◌, ℤ, pos, negsuc, is_blank, cut_prefix, atoi, show, ◌<>◌, int_max, atoi-show,
  starts_with_digit, show-digit, Bool-cases,
}
use native.Mathlib.Nat.{le-div_iff_mul-le, div-mul-le_self, mul-div_right}
use llm_k8s_redis.Cluster.Slots.{slot_range_bound}
use llm_k8s_redis.Planner.Slots.{
  redis_slot_count, balanced_start, balanced_size, slot_range_start, slot_range_end,
}
use llm_k8s_redis.Planner.Steps.{redis_pod, planner_pod_ordinal, planner_ordinal_of}
use llm_k8s_redis.Validator.Schema.{redis_pod_ordinal, ordinal_of, non_negative}

share_step : (i base r : ℕ) → (i + 1) * base ≡ i * base + base
share_step i base r = grind arith

balanced_start-suc :
    (i total : ℕ) → balanced_start (i + 1) total ≡ balanced_start i total + balanced_size i total
unfolding balanced_start balanced_size
balanced_start-suc i total = ground (arith, share_step i (16384 / total) 0)

balanced_size-cases :
    (i total : ℕ)
    → (balanced_size i total ≡ 16384 / total) ⊎ (balanced_size i total ≡ 16384 / total + 1)
unfolding balanced_size
balanced_size-cases i total = ground arith

balanced_start-end : (total : ℕ) → 0 < total → balanced_start total total ≡ 16384
unfolding balanced_start
balanced_start-end total h = grind arith

balanced_start-zero : (total : ℕ) → balanced_start 0 total ≡ 0
unfolding balanced_start
balanced_start-zero total = ground arith

-- The shares of `balancedSlotRange` among a positive number of masters follow one another from slot
-- 0 to the last slot, and their sizes differ by at most one.
pub balanced-partition :
    (total : ℕ)
    → 0 < total
    → (balanced_start 0 total ≡ 0)
      × (balanced_start total total ≡ redis_slot_count)
      × ((i : ℕ) → balanced_start (i + 1) total ≡ balanced_start i total + balanced_size i total)
      × ((i : ℕ)
          → (balanced_size i total ≡ redis_slot_count / total)
            ⊎ (balanced_size i total ≡ redis_slot_count / total + 1))
balanced-partition total h = (
  balanced_start-zero total,
  balanced_start-end total h,
  λ i. balanced_start-suc i total,
  λ i. balanced_size-cases i total,
)

step_up :
    (i shards : ℕ) → 0 < shards → shards ≤ 16384 → i * 16384 / shards + 1 ≤ (i + 1) * 16384 / shards
step_up i shards p h =
    (le-div_iff_mul-le p).1
      (omega (arith, widened (i * 16384 / shards) shards, div-mul-le_self (i * 16384) shards))
  where
    widened : (a s : ℕ) → (a + 1) * s ≡ a * s + s
    widened a s = grind arith

whole : (shards : ℕ) → 0 < shards → shards * 16384 / shards ≡ 16384
whole shards p = mul-div_right 16384 p

-- The ranges that a new cluster's shards get, up to 16384 shards: none is empty, each begins where
-- the one before ends, the first begins at slot 0 and the last ends at slot 16383.
pub slot_range-partition :
    (shards : ℕ)
    → 0 < shards
    → shards ≤ redis_slot_count
    → (slot_range_start 0 shards ≡ 0)
      × ((i : ℕ) → slot_range_start i shards ≤ slot_range_end i shards)
      × ((i : ℕ) → slot_range_start (i + 1) shards ≡ slot_range_end i shards + 1)
      × (slot_range_end (shards - 1) shards ≡ slot_range_bound)
unfolding slot_range_start slot_range_end
slot_range-partition shards p h = (
  grind arith,
  λ i. omega (arith, step_up i shards p h),
  λ i. omega (arith, step_up i shards p h),
  ap (λ k. k * 16384 / shards - 1) (omega arith) ∙ ap (λ q. q - 1) (whole shards p),
)

cut_prefix-redis : (s : String) → cut_prefix ("redis-" <> s) "redis-" ≡ some s
unfolding cut_prefix
cut_prefix-redis s = refl

-- The validator reads back the ordinal of every pod name that the planner writes, if the ordinal
-- fits a 64-bit int.
pub redis_pod_ordinal-redis_pod : (n : ℕ) → n ≤ int_max → redis_pod_ordinal (redis_pod n) ≡ some n
unfolding redis_pod_ordinal redis_pod
redis_pod_ordinal-redis_pod n h =
    ap ordinal_of (cut_prefix-redis (show n)) ∙ read (show n) (show-digit n) (atoi-show n h)
  where
    blank : (s : String) → is_blank s ≡ true → starts_with_digit s ≡ true → ⊥
    blank String.[] b d = cc
    blank (String.◌∷◌ c s) b d = cc

    read :
        (s : String)
        → starts_with_digit s ≡ true
        → atoi s ≡ some (pos n)
        → ordinal_of (some s) ≡ some n
    read s d a = elim (Bool-cases (is_blank s)) [
      | inl b ↦ absurd (blank s b d)
      | inr b ↦ rw (b, a) refl
    ]

-- The planner's copy of the test on a pod's name agrees with the validator's on every text.
planner_pod_ordinal-same : (pod : String) → planner_pod_ordinal pod ≡ redis_pod_ordinal pod
unfolding planner_pod_ordinal redis_pod_ordinal
planner_pod_ordinal-same pod = same (cut_prefix pod "redis-")
  where
    read :
        (o : Option ℤ)
        → elim o [ none ↦ none | some (pos n) ↦ some n | some (negsuc n) ↦ none ] ≡ non_negative o
    read none = refl
    read (some (pos n)) = refl
    read (some (negsuc n)) = refl

    same : (o : Option String) → planner_ordinal_of o ≡ ordinal_of o
    same none = refl
    same (some s) = elim (Bool-cases (is_blank s)) [
      | inl b ↦ rw b refl
      | inr b ↦ rw b (read (atoi s))
    ]
