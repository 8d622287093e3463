-- ===== src/Controller/Ordinal.antt =====
-- internal/controller/pod_ordinal.go: which pod ordinals are taken. `NextPodOrdinal` is an int32 that
-- starts at 0 and only grows, so it is an ℕ; the conversions to int32 are written out.
use llm_k8s_redis.Prelude.{
  ℕ, ◌+◌, ◌%◌, ◌^◌, ◌≤◌, ◌<◌, String, List, [], ◌∷◌, Option, some, none, if◌then◌else◌, ltb, ℤ, pos,
  atoi, cut_prefix, ◌≡◌, arith, inl, inr, In, subst, sym,
}
use llm_k8s_redis.Plan.{ActionType, ensure_node, Step, ObservedNode, param_string}

abbrev non_negative : Option ℤ → Option ℕ
non_negative (some (pos n)) = some n
non_negative _ = none

abbrev ordinal_behind : Option String → Option ℕ
ordinal_behind none = none
ordinal_behind (some s) = non_negative (atoi s)

unfoldable pub controller_pod_ordinal : String → Option ℕ
controller_pod_ordinal pod = ordinal_behind (cut_prefix pod "redis-")

-- int32(n), of which the callers only need the non-negative values.
unfoldable pub to_int32 : ℕ → Option ℕ
to_int32 n = let m = n % 2 ^ 32 in if ltb m (2 ^ 31) then some m else none

-- if next := int32(...); next > old { old = next }
abbrev pub raise : ℕ → Option ℕ → ℕ
raise next none = next
raise next (some m) = if ltb next m then m else next

abbrev pub past_pod : ℕ → Option ℕ → ℕ
past_pod next none = next
past_pod next (some n) = raise next (to_int32 (n + 1))

abbrev pub ensured_ordinal : Option String → Option ℕ
ensured_ordinal none = none
ensured_ordinal (some pod) = controller_pod_ordinal pod

-- The ordinal of the pod that a step ensures, if it does.
abbrev pub step_ordinal : Step → ActionType → Option ℕ
step_ordinal s ensure_node = ensured_ordinal (param_string s.params "pod")
step_ordinal s _ = none

-- The loop of `advanceNextPodOrdinalFromPlan`.
unfoldable pub advance_from_steps : ℕ → List Step → ℕ
unfolding to_int32
advance_from_steps next [] = next
advance_from_steps next (s ∷ steps) =
    advance_from_steps (past_pod next (step_ordinal s s.action)) steps

-- max, kept one higher than in the source, where it starts at -1.
abbrev pub above : ℕ → Option ℕ → ℕ
above bound none = bound
above bound (some n) = if ltb n bound then bound else n + 1

unfoldable pub highest_observed : ℕ → List ObservedNode → ℕ
highest_observed bound [] = bound
highest_observed bound (n ∷ nodes) =
    highest_observed (above bound (controller_pod_ordinal n.pod)) nodes

-- bumpNextPodOrdinalFromObserved
unfoldable pub bump_from_observed : ℕ → List ObservedNode → ℕ
unfolding highest_observed
bump_from_observed next nodes = raise next (to_int32 (highest_observed next nodes))

advance_grows : (next : ℕ) (steps : List Step) → next ≤ advance_from_steps next steps
unfolding advance_from_steps
advance_grows next [] = omega arith
advance_grows next (s ∷ steps) =
    ground (arith, advance_grows (past_pod next (step_ordinal s s.action)) steps)

fits : (n : ℕ) → n + 1 < 2 ^ 31 → to_int32 (n + 1) ≡ some (n + 1)
unfolding to_int32
fits n h = ground arith

past_pod-grows : (next : ℕ) (o : Option ℕ) → next ≤ past_pod next o
past_pod-grows next none = omega arith
past_pod-grows next (some n) = ground arith

past_pod-above : (next n : ℕ) → n + 1 < 2 ^ 31 → n < past_pod next (some n)
past_pod-above next n h = ground (arith, fits n h)

-- After a plan is accepted the next ordinal is not lower than before and above the ordinal of every
-- pod that the plan ensures, if that ordinal is below 2^31 - 1.
pub advance-above :
    (next : ℕ) (steps : List Step) (s : Step) (n : ℕ)
    → In s steps
    → step_ordinal s s.action ≡ some n
    → n + 1 < 2 ^ 31
    → (next ≤ advance_from_steps next steps) × (n < advance_from_steps next steps)
unfolding advance_from_steps
advance-above next [] s n i o h = absurd i
advance-above next (x ∷ steps) s n (inl e) o h =
    let first : step_ordinal x x.action ≡ some n =
      subst (λ y. step_ordinal y y.action ≡ some n) (sym e) o in
    let up : n < past_pod next (step_ordinal x x.action) = rw first (past_pod-above next n h) in
    let rest = advance_grows (past_pod next (step_ordinal x x.action)) steps in
    (omega (arith, rest, past_pod-grows next (step_ordinal x x.action)), omega (arith, up, rest))
advance-above next (x ∷ steps) s n (inr i) o h =
    let (more, over) = advance-above (past_pod next (step_ordinal x x.action)) steps s n i o h in
    (omega (arith, more, past_pod-grows next (step_ordinal x x.action)), over)
