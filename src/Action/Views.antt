-- ===== src/Action/Views.antt =====
-- internal/action/topology_observer.go: reading CLUSTER NODES from the seeds. The Redis client is a
-- parameter; the n-th connection that is built may answer otherwise than those before it.
use llm_k8s_redis.Prelude.{
  ℕ, suc, String, List, [], ◌∷◌, Option, some, none, Bool, false, not, ◌&&◌, ◌||◌, ltb, nat_eq,
  if◌then◌else◌, Result, ok, err, ◌>>=◌, ◌<>◌, length,
}
use llm_k8s_redis.Cluster.Entries.{Entry, parse_nodes, Owners, OwnerError, slot_ownership}
use llm_k8s_redis.Action.Pods.{Pod, pod_redis_addr}

-- What a connection answers. An error is its text, and none is no error.
pub record Connection : Type 0 where
  pub ping : Option String
  pub cluster_nodes : Result String String
  pub cluster_info : Result String String

abbrev pub Dial : Type 0
Dial = String → Result String Connection

abbrev seed_error : String → String → String
seed_error addr e = "seed redis at " <> (addr <> (" failed: " <> e))

abbrev pub with_error : {A : Type 0} → (String → String) → Result String A → Result String A
with_error text (ok a) = ok a
with_error text (err e) = err (text e)

abbrev pub no_error : Option String → Result String (Unit {0})
no_error none = ok tt
no_error (some e) = err e

-- clusterNodesFromSeed
unfoldable pub cluster_nodes_from_seed : Dial → Pod → Result String (List Entry)
cluster_nodes_from_seed dial seed =
    let addr = pod_redis_addr seed in
    do
      rc ← with_error (λ e. "build redis client for seed " <> (addr <> (": " <> e))) (dial addr)
      _ ← with_error (seed_error addr) (no_error rc.ping)
      raw ← with_error (seed_error addr) rc.cluster_nodes
      ok (parse_nodes raw)

abbrev pub Reading : Type 0
Reading = Result String (List Entry)

-- What the seeds say in turn. A loop that returns before the last does not ask the rest.
unfoldable pub readings : (ℕ → Dial) → ℕ → List Pod → List Reading
unfolding cluster_nodes_from_seed
readings dials i [] = []
readings dials i (seed ∷ seeds) =
    cluster_nodes_from_seed (dials i) seed ∷ readings dials (suc i) seeds

abbrev all_owned : Result OwnerError Owners → Bool
all_owned (err e) = false
all_owned (ok owners) = nat_eq (length owners) 16384

unfoldable pub owns_all_slots : List Entry → Bool
owns_all_slots entries = all_owned (slot_ownership entries)

abbrev pub longer : List Entry → List Entry → List Entry
longer best entries = if ltb (length best) (length entries) then entries else best

abbrev pub collected : List Entry → Option String → Reading
collected best none = ok best
collected [] (some e) = err e
collected (b ∷ best) (some e) = ok (b ∷ best)

-- The loop of `collectBestClusterNodes`.
unfoldable pub collect_best : List Entry → Option String → List Reading → Reading
unfolding owns_all_slots
collect_best best last_err [] = collected best last_err
collect_best best last_err (err e ∷ rest) = collect_best best (some e) rest
collect_best best last_err (ok entries ∷ rest) =
    let others = collect_best (longer best entries) last_err rest in
    if owns_all_slots entries then ok entries else others

unfoldable pub collect_best_cluster_nodes : (ℕ → Dial) → List Pod → Reading
unfolding collect_best readings
collect_best_cluster_nodes dials seeds = collect_best [] none (readings dials 0 seeds)

pub record ClusterView : Type 0 where
  pub seed : String
  pub entries : List Entry

abbrev viewed : List ClusterView → Option String → Result String (List ClusterView)
viewed [] none = ok []
viewed [] (some e) = err e
viewed (v ∷ views) last_err = ok (v ∷ views)

abbrev add_view : String → Reading → List ClusterView → List ClusterView
add_view name (err e) views = views
add_view name (ok []) views = views
add_view name (ok (e ∷ entries)) views = record { seed = name; entries = e ∷ entries } ∷ views

-- The views that the loop of `collectClusterViews` appends, and its last error.
unfoldable pub views_of : (ℕ → Dial) → ℕ → List Pod → List ClusterView
unfolding cluster_nodes_from_seed
views_of dials i [] = []
views_of dials i (seed ∷ seeds) =
    add_view seed.name (cluster_nodes_from_seed (dials i) seed) (views_of dials (suc i) seeds)

abbrev or_later : Reading → Option String → Option String
or_later r (some e) = some e
or_later (err e) none = some e
or_later (ok entries) none = none

unfoldable pub last_error : List Reading → Option String
last_error [] = none
last_error (r ∷ rest) = or_later r (last_error rest)

unfoldable pub collect_cluster_views : (ℕ → Dial) → ℕ → List Pod → Result String (List ClusterView)
unfolding views_of readings last_error
collect_cluster_views dials i seeds =
    viewed (views_of dials i seeds) (last_error (readings dials i seeds))

abbrev pub better : ClusterView → ClusterView → Bool
better best v =
    ltb (length best.entries) (length v.entries)
    || not (owns_all_slots best.entries) && owns_all_slots v.entries

-- bestClusterView of a view and those behind it.
unfoldable pub best_cluster_view : ClusterView → List ClusterView → ClusterView
unfolding owns_all_slots
best_cluster_view best [] = best
best_cluster_view best (v ∷ views) = best_cluster_view (if better best v then v else best) views
