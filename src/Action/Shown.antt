-- ===== src/Action/Shown.antt =====
-- internal/action/topology_observer.go: that the observed nodes show every pod and every line of
-- CLUSTER NODES, and nothing else.
use llm_k8s_redis.Prelude.{◌≢◌, String, List, some, string_keys, ◌≡◌, In, sort_by}
use llm_k8s_redis.Plan.{ObservedNode}
use llm_k8s_redis.Cluster.Entries.{Entry}
use llm_k8s_redis.Action.Pods.{Pod}
use llm_k8s_redis.Action.Observed.{NodeMaps, pod_entry, Seen, observed_less, unsorted_nodes}

module _ (maps : NodeMaps) (entries : List Entry) where
  -- A line that is no pod's: neither by its address nor by the node id that the pod is known under.
  abbrev pub IsNoPods : List Pod → Entry → Type 0
  IsNoPods pods e = (p : Pod) → In p pods → pod_entry maps entries p ≢ some e

  -- The pod whose entry has an id.
  abbrev Holder : List Pod → String → Type 0
  Holder pods id =
      (p : Pod) × (In p pods × ((e : Entry) × ((pod_entry maps entries p ≡ some e) × (e.id ≡ id))))

  abbrev nodes : List Pod → List ObservedNode
  nodes pods = sort_by observed_less (unsorted_nodes maps pods entries)
