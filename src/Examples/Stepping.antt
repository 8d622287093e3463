-- ===== src/Examples/Stepping.antt =====
-- Single steps of the simulator, on the small cluster.
use llm_k8s_redis.Prelude.{
  ℕ, String, [], ◌∷◌, some, true, false, ok, ◌≡◌, ◌≢◌, ◌↔◌, ◌⊎◌, refl, subst, lookup, insert,
  string_keys, nat_keys,
}
use llm_k8s_redis.Plan.{param_string, param}
use llm_k8s_redis.Validator.Simulator.State.{update_node, new_plan_simulator}
use llm_k8s_redis.Validator.Simulator.Checks.{check_invariants}
use llm_k8s_redis.Validator.Simulator.Steps.{simulate_from, remove}
use llm_k8s_redis.Validator.Simulator.Exclusive.{SlotsAreExclusive, check_invariants_iff}
use llm_k8s_redis.Validator.Simulator.Consistent.{IsConsistent, IsConsistent-IsKeyed}
use llm_k8s_redis.Validator.Simulator.Ownership.{
  owner, IsMigrated, apply-owner, simulate_from-owned,
}
use llm_k8s_redis.Validator.Simulator.Safety.{MayReceive, apply-receives, apply-delete_idle}
use llm_k8s_redis.Validator.Simulator.Demands.{Achieves}
use llm_k8s_redis.Validator.Simulator.Achieved.{apply-Achieves}
use llm_k8s_redis.Validator.Simulator.Indexed.{IsIndexed, entries-IsIndexed, apply-agrees}
use llm_k8s_redis.Validator.Simulator.Start.{new_plan_simulator-IsConsistent}
use llm_k8s_redis.Examples.Small.{
  spec, nodes, nodes-IsObserved, move, add, drop, start, moved, dropped, starts, moves, adds, drops,
  spare_node,
}

new_plan_simulator-IsConsistent_example : IsConsistent (new_plan_simulator spec nodes)
new_plan_simulator-IsConsistent_example =
    new_plan_simulator-IsConsistent spec nodes nodes-IsObserved

start-IsConsistent : IsConsistent start
start-IsConsistent =
    subst IsConsistent starts (new_plan_simulator-IsConsistent spec nodes nodes-IsObserved)

start-IsIndexed : IsIndexed start
unfolding lookup
start-IsIndexed = entries-IsIndexed start ((refl, (refl, tt)), (tt, (tt, (tt, (tt, tt)))))

apply-agrees_example : IsConsistent moved × IsIndexed moved
apply-agrees_example =
    apply-agrees move (move ∷ []) 0 start moves start-IsConsistent start-IsIndexed

apply-Achieves_example : Achieves move.action move.params start moved
apply-Achieves_example = apply-Achieves move start (move ∷ []) 0 moves

apply-owner_example : (owner moved 1 ≡ some "redis-0") ⊎ IsMigrated move moved 1 "redis-0"
unfolding lookup
apply-owner_example = apply-owner move (move ∷ []) 0 start 1 moves refl

apply-receives_example : (owner start 7 ≡ some "redis-2") ⊎ MayReceive start "redis-2"
unfolding lookup
apply-receives_example = apply-receives add (add ∷ []) 0 start 7 adds refl

apply-delete_idle_example :
    ((spare_node true).cluster_member ≡ false)
    × ((slot : ℕ) → owner start slot ≢ some "redis-4")
    × (dropped ≡ update_node "redis-4" remove start)
unfolding param_string param lookup
apply-delete_idle_example =
    apply-delete_idle drop (drop ∷ []) 0 start "redis-4" (spare_node true) start-IsConsistent refl
      refl refl drops

start_passes : check_invariants start ≡ ok tt
unfolding check_invariants lookup insert
start_passes = refl

moved_passes : check_invariants moved ≡ ok tt
unfolding check_invariants lookup insert
moved_passes = refl

runs : simulate_from (move ∷ []) (move ∷ []) 0 start ≡ ok moved
unfolding simulate_from
runs = rw (moves, moved_passes) refl

simulate_from-owned_example : (a : String) × (owner moved 1 ≡ some a)
unfolding lookup
simulate_from-owned_example =
    simulate_from-owned (move ∷ []) (move ∷ []) 0 start 1 runs ("redis-0", refl)

check_invariants_iff_example : (check_invariants start ≡ ok tt) ↔ SlotsAreExclusive start
check_invariants_iff_example = check_invariants_iff start (IsConsistent-IsKeyed start-IsConsistent)
