-- ===== src/Action/Seeds.antt =====
-- internal/action/topology_observer.go: which pods are asked for CLUSTER NODES, and in which order.
use llm_k8s_redis.Prelude.{
  ℕ, String, List, [], ◌∷◌, ◌++◌, Map, Option, some, none, Bool, true, false, not, ◌&&◌, ltb, ◌==◌,
  string_keys, if◌then◌else◌, insert, lookup, str_lt, sort_by, filter, find,
}
use llm_k8s_redis.Api.{ShardTopology, ClusterTopology}
use llm_k8s_redis.Controller.Ordinal.{controller_pod_ordinal}
use llm_k8s_redis.Action.Pods.{Pod, usable}

abbrev pub Pods : Type 0
Pods = Map String Pod

unfoldable pub index_by_name : List Pod → Pods → Pods
index_by_name [] out = out
index_by_name (p ∷ pods) out = index_by_name pods (insert p.name p out)

abbrev pub seed_of : Option Pod → Option Pod
seed_of none = none
seed_of (some p) = if usable p then some p else none

abbrev cons_seed : Option Pod → List Pod → List Pod
cons_seed none out = out
cons_seed (some p) out = p ∷ out

-- The pods of the masters that the status's topology names, as far as they can be asked.
unfoldable pub master_seeds : Pods → List ShardTopology → List Pod
master_seeds by_name [] = []
master_seeds by_name (sh ∷ shards) =
    cons_seed (seed_of (lookup sh.master.pod by_name)) (master_seeds by_name shards)

abbrev pub known_seeds : Pods → Option ClusterTopology → List Pod
known_seeds by_name none = []
known_seeds by_name (some t) = master_seeds by_name t.shards

-- seen[p.Name]
unfoldable pub named_in : String → List Pod → Bool
named_in name [] = false
named_in name (p ∷ pods) = let rest = named_in name pods in if p.name == name then true else rest

abbrev ordinal_less : Pod → Pod → Option ℕ → Option ℕ → Bool
ordinal_less a b (some i) (some j) = ltb i j
ordinal_less a b _ _ = str_lt a.name b.name

abbrev pub seed_less : Pod → Pod → Bool
seed_less a b = ordinal_less a b (controller_pod_ordinal a.name) (controller_pod_ordinal b.name)

abbrev pub other_seeds : List Pod → List Pod → List Pod
other_seeds out pods = sort_by seed_less (filter (λ p. not (named_in p.name out) && usable p) pods)

abbrev pub seeds_after : List Pod → List Pod → List Pod
seeds_after out pods = out ++ other_seeds out pods

unfoldable pub observation_seed_pods : Option ClusterTopology → List Pod → List Pod
unfolding index_by_name master_seeds named_in
observation_seed_pods topology pods =
    seeds_after (known_seeds (index_by_name pods []) topology) pods

-- pickObservationSeedPod
abbrev pub first_pod : List Pod → Option Pod
first_pod [] = none
first_pod (p ∷ pods) = some p

-- pickSeedPod
unfoldable pub pick_seed_pod : List Pod → Option Pod
pick_seed_pod pods = find usable pods

-- pickSeedPodExcept of internal/action/delete_node.go
unfoldable pub pick_seed_pod_except : List Pod → String → Option Pod
pick_seed_pod_except pods excluded = find (λ p. not (p.name == excluded) && usable p) pods
