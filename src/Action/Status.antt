-- ===== src/Action/Status.antt =====
-- internal/action/status.go: the conditions and observed nodes that the executor writes.
use llm_k8s_redis.Prelude.{
  ℕ, String, List, [], ◌∷◌, Bool, not, ◌&&◌, ◌==◌, string_keys, if◌then◌else◌,
}
use llm_k8s_redis.Plan.{ObservedNode}
use llm_k8s_redis.Api.{Condition, RedisCluster}

abbrev same_bool : Bool → Bool → Bool
same_bool a b = if a then b else not b

-- The condition that replaces an old one: its time is kept if nothing changes.
abbrev replacing : Condition → Condition → Condition
replacing old new = record new {
  last_transition_time =
      if same_bool old.status new.status && old.reason == new.reason && old.message == new.message
      then old.last_transition_time
      else new.last_transition_time;
}

unfoldable pub put_condition : Condition → List Condition → List Condition
put_condition new [] = new ∷ []
put_condition new (old ∷ conditions) =
    let rest = put_condition new conditions in
    if old.kind == new.kind then replacing old new ∷ conditions else old ∷ rest

-- setCondition at a time
unfoldable pub set_condition : ℕ → RedisCluster → String → Bool → String → String → RedisCluster
unfolding put_condition
set_condition now c kind status reason msg = record c {
  conditions =
      put_condition
        (record {
          kind = kind;
          status = status;
          reason = reason;
          message = msg;
          observed_generation = c.generation;
          last_transition_time = now;
        })
        c.conditions;
}

-- apiObservedNodes, which leaves out the image.
unfoldable pub api_observed_nodes : List ObservedNode → List ObservedNode
api_observed_nodes [] = []
api_observed_nodes (n ∷ nodes) = record n { image = "" } ∷ api_observed_nodes nodes
