-- ===== src/Action/Observed.antt =====
-- internal/action/topology_observer.go: the observed nodes, from the pods and the lines of CLUSTER
-- NODES.
use llm_k8s_redis.Prelude.{
  ℕ, String, List, [], ◌∷◌, ◌++◌, Map, Option, some, none, Bool, true, false, ◌||◌, ltb, ◌==◌,
  string_keys, if◌then◌else◌, insert, lookup, has, is_blank, join_with, str_lt, sort_by,
}
use llm_k8s_redis.Plan.{ObservedNode, or_blank}
use llm_k8s_redis.Api.{NodeTopology, ShardTopology, ClusterTopology}
use llm_k8s_redis.Cluster.Entries.{Entry, is_master, is_replica, find_by_ip, find_by_id}
use llm_k8s_redis.Cluster.Markers.{ip_from_addr}
use llm_k8s_redis.Controller.Ordinal.{controller_pod_ordinal}
use llm_k8s_redis.Action.Pods.{
  Pod, pod_ready, is_deleting, pod_redis_image, map_pods_by_ip, pod_name_for_ip,
}

abbrev pub Names : Type 0
Names = Map String String

-- podToNodeID and nodeIDToPod
pub record NodeMaps : Type 0 where
  pub pod_to_node_id : Names
  pub node_id_to_pod : Names

abbrev pub know : String → String → NodeMaps → NodeMaps
know pod id maps = record {
  pod_to_node_id = insert pod id maps.pod_to_node_id;
  node_id_to_pod = insert id pod maps.node_id_to_pod;
}

abbrev add_known : NodeTopology → NodeMaps → NodeMaps
add_known n maps = if is_blank n.pod || is_blank n.node_id then maps else know n.pod n.node_id maps

abbrev add_all_known : List NodeTopology → NodeMaps → NodeMaps
add_all_known [] maps = maps
add_all_known (n ∷ nodes) maps = add_all_known nodes (add_known n maps)

abbrev add_shards : List ShardTopology → NodeMaps → NodeMaps
add_shards [] maps = maps
add_shards (sh ∷ shards) maps =
    add_shards shards (add_all_known sh.replicas (add_known sh.master maps))

abbrev no_maps : NodeMaps
no_maps = record { pod_to_node_id = []; node_id_to_pod = [] }

-- lastKnownNodeMaps, of the status's topology; none is nil.
unfoldable pub last_known_node_maps : Option ClusterTopology → NodeMaps
last_known_node_maps none = no_maps
last_known_node_maps (some t) = add_shards t.shards no_maps

abbrev know_pod : String → String → NodeMaps → NodeMaps
know_pod pod id maps = if is_blank pod then maps else know pod id maps

-- The loop over the entries: what a line says of a node replaces what was known.
unfoldable pub know_entries : Map String Pod → List Entry → NodeMaps → NodeMaps
know_entries by_ip [] maps = maps
know_entries by_ip (e ∷ entries) maps =
    know_entries by_ip entries (know_pod (pod_name_for_ip by_ip (ip_from_addr e.addr)) e.id maps)

unfoldable pub redis_role : Entry → String
redis_role e = if is_master e then "master" else if is_replica e then "replica" else "unknown"

unfoldable pub fill_observed_node : ObservedNode → Entry → Names → ObservedNode
unfolding redis_role
fill_observed_node n e node_id_to_pod = record n {
  redis_seen = true;
  node_id = e.id;
  role = redis_role e;
  slots = join_with "," e.slots;
  master_id = if e.master_id == "-" then n.master_id else e.master_id;
  master_pod =
      if e.master_id == "-" then n.master_pod else or_blank (lookup e.master_id node_id_to_pod);
  flags = e.flags;
  link_state = e.link_state;
}

-- The node of a pod, before an entry fills it.
abbrev pub pod_node : NodeMaps → Pod → ObservedNode
pod_node maps p = record {
  pod = p.name;
  pod_exists = true;
  image = pod_redis_image p;
  redis_seen = false;
  node_id = or_blank (lookup p.name maps.pod_to_node_id);
  role = "unknown";
  slots = "";
  master_id = "";
  master_pod = "";
  ready = pod_ready p;
  deleting = is_deleting p;
  flags = [];
  link_state = "";
}

abbrev pub or_by_id : Option Entry → String → List Entry → Option Entry
or_by_id (some e) id entries = some e
or_by_id none id entries = if is_blank id then none else find_by_id entries id

-- The entry of a pod: by its address, or else by the node id that it is known under.
unfoldable pub pod_entry : NodeMaps → List Entry → Pod → Option Entry
pod_entry maps entries p =
    or_by_id (find_by_ip entries p.pod_ip) (or_blank (lookup p.name maps.pod_to_node_id)) entries

abbrev pub filled : NodeMaps → ObservedNode → Option Entry → ObservedNode
filled maps n none = n
filled maps n (some e) = fill_observed_node n e maps.node_id_to_pod

abbrev pub Seen : Type 0
Seen = Map String (Unit {0})

abbrev pub see : Option Entry → Seen → Seen
see none seen = seen
see (some e) seen = insert e.id tt seen

-- The two results of the loop over the pods: the nodes, and the ids that are seen.
unfoldable pub pod_nodes : NodeMaps → List Entry → List Pod → List ObservedNode
unfolding fill_observed_node pod_entry
pod_nodes maps entries [] = []
pod_nodes maps entries (p ∷ pods) =
    filled maps (pod_node maps p) (pod_entry maps entries p) ∷ pod_nodes maps entries pods

unfoldable pub seen_ids : NodeMaps → List Entry → List Pod → Seen → Seen
unfolding pod_entry
seen_ids maps entries [] seen = seen
seen_ids maps entries (p ∷ pods) seen =
    seen_ids maps entries pods (see (pod_entry maps entries p) seen)

abbrev pub ghost : NodeMaps → Entry → ObservedNode
ghost maps e =
    fill_observed_node
      (record {
        pod = or_blank (lookup e.id maps.node_id_to_pod);
        pod_exists = false;
        image = "";
        redis_seen = false;
        node_id = "";
        role = "";
        slots = "";
        master_id = "";
        master_pod = "";
        ready = false;
        deleting = false;
        flags = [];
        link_state = "";
      })
      e maps.node_id_to_pod

-- The loop over the entries that no pod has.
unfoldable pub ghosts : NodeMaps → Seen → List Entry → List ObservedNode
unfolding fill_observed_node
ghosts maps seen [] = []
ghosts maps seen (e ∷ entries) =
    let rest = ghosts maps seen entries in if has e.id seen then rest else ghost maps e ∷ rest

abbrev by_name : ObservedNode → ObservedNode → Bool
by_name a b = if a.pod == b.pod then str_lt a.node_id b.node_id else str_lt a.pod b.pod

abbrev by_ordinal : ObservedNode → ObservedNode → Option ℕ → Option ℕ → Bool
by_ordinal a b (some i) (some j) = ltb i j
by_ordinal a b (some i) none = true
by_ordinal a b none (some j) = false
by_ordinal a b none none = by_name a b

abbrev pub observed_less : ObservedNode → ObservedNode → Bool
observed_less a b = by_ordinal a b (controller_pod_ordinal a.pod) (controller_pod_ordinal b.pod)

abbrev pub node_maps : Option ClusterTopology → List Pod → List Entry → NodeMaps
node_maps topology pods entries =
    know_entries (map_pods_by_ip pods) entries (last_known_node_maps topology)

abbrev pub unsorted_nodes : NodeMaps → List Pod → List Entry → List ObservedNode
unsorted_nodes maps pods entries =
    pod_nodes maps entries pods ++ ghosts maps (seen_ids maps entries pods []) entries

-- observedNodes, of the topology that the status keeps.
unfoldable pub observed_nodes : Option ClusterTopology → List Pod → List Entry → List ObservedNode
unfolding last_known_node_maps know_entries pod_nodes seen_ids ghosts
observed_nodes topology pods entries =
    sort_by observed_less (unsorted_nodes (node_maps topology pods entries) pods entries)
