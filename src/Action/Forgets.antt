-- ===== src/Action/Forgets.antt =====
-- internal/action/forget_node.go: which CLUSTER FORGET a ForgetNode sends.
use llm_k8s_redis.Prelude.{
  String, List, [], ◌∷◌, ◌++◌, Option, some, none, true, false, not, ◌==◌, string_keys, Result, ok,
  err, >>=-eq-ok, ok_injective, guard, guard-eq-ok, ◌≡◌, refl, sym, subst, ap, inl, inr, ◌⊎◌, In,
  append-In, Option-cases, Result-cases, is_blank, is_empty, filter-In, and_left, and_right,
  not_sound,
}
use llm_k8s_redis.Plan.{Step, param_string, or_blank}
use llm_k8s_redis.Api.{RedisCluster}
use llm_k8s_redis.Cluster.Entries.{Entry, parse_nodes, find_by_ip, find_by_id}
use llm_k8s_redis.Cluster.Markers.{has_slots}
use llm_k8s_redis.Action.Pods.{Pod, usable, pod_redis_addr}
use llm_k8s_redis.Action.Seeds.{pick_seed_pod}
use llm_k8s_redis.Action.Observe.{list_managed_pods}
use llm_k8s_redis.Action.World.{
  Ended, Call, cluster_forget, History, World, pods_or_end, no_error, or_end, some_or_end,
  require_string,
}
use llm_k8s_redis.Action.Forget.{
  peer_entry, forget_peers, Target, target_entry, target_name, pod_name, forget_target_node_id,
  forget_target, forget_each, after_forget, forget_node, dialled, forgotten_by, serious,
}

-- What a step has read when it sends its first CLUSTER FORGET.
record Checked (quote : String → String) (w : World) (step : Step) (t : Target) : Type 0 where
  pods : List Pod
  raw : String
  target : Entry
  read : w.cluster_nodes [] t.seed_addr ≡ ok raw
  found : find_by_id (parse_nodes raw) t.node_id ≡ some target
  idle : has_slots target ≡ false
  listed : list_managed_pods (w.list_pods []) ≡ ok pods
  names :
      forget_target_node_id quote step
        (or_blank (param_string step.params "pod"))
        pods
        (parse_nodes raw)
      ≡ ok t.node_id
  peers : t.peers ≡ forget_peers (parse_nodes raw) pods t.node_id

pub or_end_sound :
    {A : Type 0} (r : Result String A) (end : String → Ended) {a : A}
    → or_end r end ≡ ok a
    → r ≡ ok a
or_end_sound (ok b) end h = ap ok (cc h)
or_end_sound (err e) end h = cc h

pods_or_end_sound : (r : Result String (List Pod)) {l : List Pod} → pods_or_end r ≡ ok l → r ≡ ok l
pods_or_end_sound (ok l) h = ap ok (ok_injective _ _ h)
pods_or_end_sound (err e) h = cc h

target_entry-ok :
    (quote : String → String) (w : World) (step : Step) (addr raw : String) (pods : List Pod)
    (id : String) (t : Target)
    → w.cluster_nodes [] addr ≡ ok raw
    → list_managed_pods (w.list_pods []) ≡ ok pods
    → forget_target_node_id quote step
        (or_blank (param_string step.params "pod"))
        pods
        (parse_nodes raw)
      ≡ ok id
    → target_entry quote addr (parse_nodes raw) pods id (find_by_id (parse_nodes raw) id) ≡ ok t
    → Checked quote w step t
target_entry-ok quote w step addr raw pods id t read listed names h =
    elim (Option-cases (find_by_id (parse_nodes raw) id)) [
      | inl gone ↦ absurd (cc (rw gone at h))
      | inr (target, found) ↦
          let (_, idle, h1) = >>=-eq-ok (guard (not (has_slots target)) _) _ (rw found at h) in
          let (_, some_peer, h2) =
            >>=-eq-ok (guard (not (is_empty (forget_peers (parse_nodes raw) pods id))) _) _ h1 in
          subst (Checked quote w step) (cc h2) (record {
            pods = pods;
            raw = raw;
            target = target;
            read = read;
            found = found;
            idle = not_sound _ (guard-eq-ok _ _ idle);
            listed = listed;
            names = names;
            peers = refl;
          })
    ]

forget_target-Checked :
    (quote : String → String) (w : World) (c : RedisCluster) (step : Step) (t : Target)
    → forget_target quote w c step ≡ ok t
    → Checked quote w step t
unfolding forget_target
forget_target-Checked quote w c step t h =
    let (ns, _, h1) = >>=-eq-ok (require_string quote step.params "namespace") _ h in
    let (_, _, h2) = >>=-eq-ok (guard (not (is_blank (target_name quote w c step))) _) _ h1 in
    let (_, _, h3) = >>=-eq-ok (guard (ns == c.name) _) _ h2 in
    let (pods, listed, h4) = >>=-eq-ok (pods_or_end (list_managed_pods (w.list_pods []))) _ h3 in
    let (seed, _, h5) = >>=-eq-ok (some_or_end (pick_seed_pod pods) _) _ h4 in
    let (_, _, h6) = >>=-eq-ok (no_error (w.dial [] (pod_redis_addr seed)) _) _ h5 in
    let (raw, read, h7) = >>=-eq-ok (or_end (w.cluster_nodes [] (pod_redis_addr seed)) _) _ h6 in
    let (id, names, h8) =
      >>=-eq-ok (forget_target_node_id quote step (pod_name quote w c step) pods (parse_nodes raw))
        _ h7 in
    target_entry-ok quote w step (pod_redis_addr seed) raw pods id t (or_end_sound _ _ read)
      (pods_or_end_sound _ listed) names h8

-- A CLUSTER FORGET of a node to a peer.
abbrev pub Sends : String → List Pod → Call → Type 0
Sends id peers call = (p : Pod) × (In p peers × (call ≡ cluster_forget (pod_redis_addr p) id))

module _ (quote : String → String) (w : World) (c : RedisCluster) (step : Step) where
  more_peers :
      (id : String) (p : Pod) (peers : List Pod) (call : Call)
      → Sends id peers call
      → Sends id (p ∷ peers) call
  more_peers id p peers call (q, (i, e)) = (q, (inr i, e))

  forget_each-Sends :
      (id : String) (peers : List Pod) (h : History) (call : Call)
      → In call (forget_each quote w c step id peers h).1
      → In call h ⊎ Sends id peers call
  unfolding forget_each
  forget_each-Sends id [] h call i = inl i
  forget_each-Sends id (p ∷ peers) h call i =
      go (w.dial h (pod_redis_addr p)) (serious quote w c step (w.forget h (pod_redis_addr p) id)) i
        (forget_each-Sends id peers (h ++ cluster_forget (pod_redis_addr p) id ∷ []) call)
    where
      added :
          In call (h ++ cluster_forget (pod_redis_addr p) id ∷ [])
          → In call h ⊎ Sends id (p ∷ peers) call
      added j = elim (append-In call h (cluster_forget (pod_redis_addr p) id ∷ []) j) [
        | inl before ↦ inl before
        | inr (inl e) ↦ inr (p, (inl refl, sym e))
        | inr (inr never) ↦ absurd never
      ]

      go :
          (dial error : Option String)
          → In call
              (dialled quote w c step h p dial (
                forgotten_by quote w c step (h ++ cluster_forget (pod_redis_addr p) id ∷ []) error (
                  forget_each quote w c step id peers
                    (h ++ cluster_forget (pod_redis_addr p) id ∷ [])))).1
          → (In call
                (forget_each quote w c step id peers
                  (h ++ cluster_forget (pod_redis_addr p) id ∷ [])).1
              → In call (h ++ cluster_forget (pod_redis_addr p) id ∷ []) ⊎ Sends id peers call)
          → In call h ⊎ Sends id (p ∷ peers) call
      go (some e) error j rest = inl j
      go none (some e) j rest = added j
      go none none j rest = elim (rest j) [
        | inl before ↦ added before
        | inr sends ↦ inr (more_peers id p peers call sends)
      ]

-- A CLUSTER FORGET that keeps the cluster's slots: of a node that the last CLUSTER NODES lists without
-- slots, to a ready pod whose own node is another one and healthy.
pub record IsSafeForget (quote : String → String) (w : World) (step : Step) (call : Call)
    : Type 0 where
  pub pods : List Pod
  pub peer : Pod
  pub node_id : String
  pub seed_addr : String
  pub raw : String
  pub target : Entry
  pub sends : call ≡ cluster_forget (pod_redis_addr peer) node_id
  pub read : w.cluster_nodes [] seed_addr ≡ ok raw
  pub listed : list_managed_pods (w.list_pods []) ≡ ok pods
  pub names :
      forget_target_node_id quote step
        (or_blank (param_string step.params "pod"))
        pods
        (parse_nodes raw)
      ≡ ok node_id
  pub found : find_by_id (parse_nodes raw) node_id ≡ some target
  pub member : In peer pods
  pub idle : has_slots target ≡ false
  pub ready : usable peer ≡ true
  pub other : peer_entry node_id (find_by_ip (parse_nodes raw) peer.pod_ip) ≡ true

safe_of :
    (quote : String → String) (w : World) (step : Step) (t : Target) (call : Call)
    → Checked quote w step t
    → Sends t.node_id t.peers call
    → IsSafeForget quote w step call
unfolding forget_peers
safe_of quote w step t call k (p, (i, e)) =
    let there : In p (forget_peers (parse_nodes k.raw) k.pods t.node_id) =
      subst (λ l. In p l) k.peers i in
    let (member, good) = filter-In _ p k.pods there in
    record {
      pods = k.pods;
      listed = k.listed;
      names = k.names;
      member = member;
      peer = p;
      node_id = t.node_id;
      seed_addr = t.seed_addr;
      raw = k.raw;
      target = k.target;
      sends = e;
      read = k.read;
      found = k.found;
      idle = k.idle;
      ready = and_left _ _ good;
      other = and_right _ _ good;
    }

-- Every write of a ForgetNode, however it ends, is a CLUSTER FORGET of the node that the step names; CLUSTER
-- NODES, read before the first write, lists it without slots; and it goes to a ready pod of the cluster
-- whose own node is another one and healthy.
pub forget_node-IsSafeForget :
    (quote : String → String) (w : World) (c : RedisCluster) (step : Step) (call : Call)
    → In call (forget_node quote w c step).1
    → IsSafeForget quote w step call
unfolding forget_node
forget_node-IsSafeForget quote w c step call i =
    elim (Result-cases (forget_target quote w c step)) [
      | inr (end, e) ↦ absurd (rw e at i)
      | inl (t, e) ↦
          let k = forget_target-Checked quote w c step t e in
          elim (forget_each-Sends quote w c step t.node_id t.peers [] call
            (written t (rw e at i))) [
              | inl never ↦ absurd never
              | inr sends ↦ safe_of quote w step t call k sends
            ]
    ]
  where
    written :
        (t : Target)
        → In call
            (after_forget quote w c step t (forget_each quote w c step t.node_id t.peers [])).1
        → In call (forget_each quote w c step t.node_id t.peers []).1
    written t j = go (forget_each quote w c step t.node_id t.peers []) j
      where
        go :
            (r : Result Ended (Unit {0}) × History)
            → In call (after_forget quote w c step t r).1
            → In call r.1
        go (ok _, h) j = j
        go (err end, h) j = j
