-- ===== src/Observor.antt =====
-- internal/observor/observation.go: the health of an observed node.
use llm_k8s_redis.Prelude.{
  String, List, [], ◌∷◌, Bool, false, not, ◌&&◌, ◌||◌, string_keys, is_blank, equal_fold,
}
use llm_k8s_redis.Plan.{ObservedNode}

abbrev pub folds_to_any : String → List String → Bool
folds_to_any f [] = false
folds_to_any f (w ∷ want) = equal_fold f w || folds_to_any f want

unfoldable pub observed_has_flag : List String → List String → Bool
observed_has_flag [] want = false
observed_has_flag (f ∷ flags) want = folds_to_any f want || observed_has_flag flags want

abbrev pub bad_flags : List String
bad_flags = "fail" ∷ "fail?" ∷ "handshake" ∷ "noaddr" ∷ []

unfoldable pub observed_node_healthy : ObservedNode → Bool
observed_node_healthy n =
    n.ready
    && not n.deleting
    && not (observed_has_flag n.flags bad_flags)
    && (is_blank n.link_state || equal_fold n.link_state "connected")

unfoldable pub observed_node_forgettable_ghost : ObservedNode → Bool
observed_node_forgettable_ghost n =
    n.redis_seen
    && is_blank n.slots
    && (not n.pod_exists
        || n.deleting
        || observed_has_flag n.flags bad_flags
        || equal_fold n.link_state "disconnected")
