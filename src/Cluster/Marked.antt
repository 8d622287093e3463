-- ===== src/Cluster/Marked.antt =====
-- internal/rediscluster/cluster.go: where the slots of the marks lie, and the lists of healthy nodes.
use llm_k8s_redis.Prelude.{
  String, List, [], ◌∷◌, Bool, true, false, not, ◌&&◌, string_keys, nat_keys, if◌then◌else◌, ◌≡◌,
  refl, inl, inr, In, keys, Bool-cases, sort_by-In, In-sort_by, filter, filter-In, In-filter, any,
  any_sound, any_of_In, is_empty, Result-cases, ◌↔◌, All,
}
use llm_k8s_redis.Cluster.Slots.{slot_token_range, slots_between, SlotSet}
use llm_k8s_redis.Cluster.Bounds.{
  InBounds, between-InBounds, AllKeys-add_range, slot_token_range-bounds,
}
use llm_k8s_redis.Cluster.Entries.{
  Entry, is_master, healthy, replicates, master_has_healthy_replica,
}
use llm_k8s_redis.Cluster.Markers.{
  healthy_masters, healthy_replicas_of, by_id, mark_range, mark_token, mark_tokens, mark_entries,
  migrating_slots,
}

-- The list of healthy replicas of a master, whatever its order, has the entries that are its healthy
-- replicas and no others.
pub healthy_replicas_of_iff :
    (entries : List Entry) (id : String) (e : Entry)
    → In e (healthy_replicas_of entries id) ↔ (In e entries × (replicates id e ≡ true))
unfolding healthy_replicas_of
healthy_replicas_of_iff entries id e = (
  (λ i.
      filter-In (replicates id) e entries (sort_by-In by_id e (filter (replicates id) entries) i)),
  (λ (i, good).
      In-sort_by by_id e (filter (replicates id) entries)
        (In-filter (replicates id) e entries i good)),
)

pub healthy_masters-In :
    (entries : List Entry) (e : Entry)
    → In e (healthy_masters entries)
    → In e entries × (is_master e && healthy e ≡ true)
unfolding healthy_masters
healthy_masters-In entries e i =
    let test : Entry → Bool = λ e. is_master e && healthy e in
    filter-In test e entries (sort_by-In by_id e (filter test entries) i)

pub In-healthy_masters :
    (entries : List Entry) (e : Entry)
    → In e entries
    → is_master e && healthy e ≡ true
    → In e (healthy_masters entries)
unfolding healthy_masters
In-healthy_masters entries e i good =
    let test : Entry → Bool = λ e. is_master e && healthy e in
    In-sort_by by_id e (filter test entries) (In-filter test e entries i good)

nonempty_of_In : (e : Entry) (l : List Entry) → In e l → is_empty l ≡ false
nonempty_of_In e [] i = absurd i
nonempty_of_In e (x ∷ l) i = refl

In_of_nonempty : (l : List Entry) → is_empty l ≡ false → (e : Entry) × In e l
In_of_nonempty [] h = cc
In_of_nonempty (x ∷ l) h = (x, inl refl)

-- `MasterHasHealthyReplica`, which AddSlots asks, and the length of `HealthyReplicasOf`, which
-- DeleteNode asks, give the same answer.
pub master_has_healthy_replica_nonempty :
    (entries : List Entry) (id : String)
    → master_has_healthy_replica entries id ≡ not (is_empty (healthy_replicas_of entries id))
unfolding master_has_healthy_replica
master_has_healthy_replica_nonempty entries id = elim (Bool-cases (any (replicates id) entries)) [
  | inl has ↦
      let (e, (i, good)) = any_sound (replicates id) entries has in
      let full =
        nonempty_of_In e (healthy_replicas_of entries id)
          ((healthy_replicas_of_iff entries id e).1 (i, good)) in
      rw (has, full) refl
  | inr lacks ↦ elim (Bool-cases (is_empty (healthy_replicas_of entries id))) [
    | inl empty ↦ rw (lacks, empty) refl
    | inr full ↦
        let (e, i) = In_of_nonempty (healthy_replicas_of entries id) full in
        let (there, good) = (healthy_replicas_of_iff entries id e).0 i in
        absurd (cc (lacks, any_of_In (replicates id) e entries there good))
  ]
]

mark_range-InBounds :
    (text : String) (set : SlotSet)
    → All InBounds (keys set)
    → All InBounds (keys (mark_range (slot_token_range text) set))
mark_range-InBounds text set h = elim (Result-cases (slot_token_range text)) [
  | inl ((a, b), e) ↦
      let bounds = slot_token_range-bounds text e in
      rw e (
        AllKeys-add_range InBounds (slots_between a b) set (between-InBounds a b bounds.0 bounds.1)
          h)
  | inr (e, refused) ↦ rw refused h
]

mark_token-InBounds :
    (token : String) (set : SlotSet)
    → All InBounds (keys set)
    → All InBounds (keys (mark_token token set))
unfolding mark_token
mark_token-InBounds token set h = either _ _ h (mark_range-InBounds _ set h)
  where
    either :
        (skip : Bool) (others : SlotSet)
        → All InBounds (keys set)
        → All InBounds (keys others)
        → All InBounds (keys (if skip then set else others))
    either true others kept marked = kept
    either false others kept marked = marked

mark_tokens-InBounds :
    (tokens : List String) (set : SlotSet)
    → All InBounds (keys set)
    → All InBounds (keys (mark_tokens tokens set))
unfolding mark_tokens
mark_tokens-InBounds [] set h = h
mark_tokens-InBounds (t ∷ tokens) set h =
    mark_tokens-InBounds tokens (mark_token t set) (mark_token-InBounds t set h)

mark_entries-InBounds :
    (entries : List Entry) (set : SlotSet)
    → All InBounds (keys set)
    → All InBounds (keys (mark_entries entries set))
unfolding mark_entries
mark_entries-InBounds [] set h = h
mark_entries-InBounds (e ∷ entries) set h =
    mark_entries-InBounds entries (mark_tokens e.slots set) (mark_tokens-InBounds e.slots set h)

pub migrating_slots-InBounds :
    (entries : List Entry) → All InBounds (keys (migrating_slots entries))
unfolding migrating_slots
migrating_slots-InBounds entries = mark_entries-InBounds entries [] tt
