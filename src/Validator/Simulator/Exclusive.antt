-- ===== src/Validator/Simulator/Exclusive.antt =====
-- What `checkInvariants` decides: it passes exactly when every node that exists and is a member
-- has slots only as a master, and each of its slots is its own in the owner index.
use llm_k8s_redis.Prelude.{
  ℕ, String, List, [], ◌∷◌, Map, Option, some, none, true, false, not, ◌==◌, string_keys, nat_keys,
  lookup, insert, lookup-insert, keys, In, All, In-All, All-In, Distinct, In-lookup, lookup_of_In,
  ok, guard, >>=-eq-ok, guard-eq-ok, Option-cases, Bool-cases, ◌≡◌, ◌≢◌, refl, inl, inr, arith, ◌⊎◌,
  ◌↔◌, sym, ◌∙◌, ap, subst, nat_eq_iff, has, In-of_has,
}
use llm_k8s_redis.Validator.Simulator.State.{SimulatedNode, PlanSimulator}
use llm_k8s_redis.Validator.Simulator.Checks.{
  Nodes, owned_by, not_seen, check_slots, is_active, misplaced, check_nodes, check_invariants,
}

owned_by_lem : (pod : String) (o : Option String) → owned_by pod o ≡ true → o ≡ some pod
owned_by_lem pod none h = absurd (cc)
owned_by_lem pod (some a) h = ap some ((string_keys.test_iff a pod).0 h)

owned_by_self : (pod : String) → owned_by pod (some pod) ≡ true
owned_by_self pod = (string_keys.test_iff pod pod).1 refl

module _ (owners : Map ℕ String) where
  -- The node's slots are its own in the index, and only a master has any.
  pub record IsExclusive (pod : String) (n : SimulatedNode) : Type 0 where
    pub placed : misplaced n ≡ false
    pub indexed : (slot : ℕ) → In slot (keys n.slots) → lookup slot owners ≡ some pod

  check_slots-owned :
      (pod : String) (slots : List ℕ) (seen : Map ℕ String) {seen' : Map ℕ String}
      → check_slots owners pod slots seen ≡ ok seen'
      → All (λ slot. lookup slot owners ≡ some pod) slots
  unfolding check_slots
  check_slots-owned pod [] seen h = tt
  check_slots-owned pod (slot ∷ slots) seen h =
      let (u, _, h1) = >>=-eq-ok (not_seen slot pod (lookup slot seen)) _ h in
      let (v, g, h2) = >>=-eq-ok (guard (owned_by pod (lookup slot owners)) _) _ h1 in
      (
        owned_by_lem pod _ (guard-eq-ok _ _ g),
        check_slots-owned pod slots (insert slot pod seen) h2,
      )

  check_nodes_sound :
      (nodes : Nodes) (seen : Map ℕ String) {u : Unit {0}}
      → check_nodes owners nodes seen ≡ ok u
      → (pod : String) (n : SimulatedNode) → In (pod, n) nodes
      → is_active n ≡ true
      → IsExclusive pod n
  unfolding check_nodes
  check_nodes_sound [] seen h pod n m a = absurd m
  check_nodes_sound ((p, x) ∷ nodes) seen h pod n m a = elim (Bool-cases (is_active x)) [
    | inl act ↦
        let (u, g, h1) = >>=-eq-ok (guard (not (misplaced x)) _) _ (rw act at h) in
        let (seen', o, h2) = >>=-eq-ok (check_slots owners p (keys x.slots) seen) _ h1 in
        elim m [
          | inl e ↦
              subst (λ (q : String × SimulatedNode). IsExclusive q.0 q.1) e
                (record {
                  placed = ground (arith, guard-eq-ok _ _ g);
                  indexed =
                      In-All (λ slot. lookup slot owners ≡ some p) (keys x.slots)
                        (check_slots-owned p (keys x.slots) seen o);
                })
          | inr m' ↦ check_nodes_sound nodes seen' h2 pod n m' a
        ]
    | inr idle ↦ elim m [
      | inl e ↦ absurd (cc (ap (λ (q : String × SimulatedNode). is_active q.1) e))
      | inr m' ↦ check_nodes_sound nodes seen (rw idle at h) pod n m' a
    ]
  ]

  -- What has been seen belongs to pods that are not among those still to come.
  abbrev SeenElsewhere : List String → Map ℕ String → Type 0
  SeenElsewhere pods seen =
      (slot : ℕ) (prev : String)
      → lookup slot seen ≡ some prev
      → (lookup slot owners ≡ some prev) × ¬ In prev pods

  check_slots-passes :
      (pod : String) (slots : List ℕ) (seen : Map ℕ String)
      → All (λ slot. lookup slot owners ≡ some pod) slots
      → All (λ slot. lookup slot seen ≡ none) slots
      → Distinct slots
      → (seen' : Map ℕ String) × (check_slots owners pod slots seen ≡ ok seen')
        × ((slot : ℕ) (prev : String)
            → lookup slot seen' ≡ some prev
            → (lookup slot seen ≡ some prev) ⊎ ((prev ≡ pod) × In slot slots))
  unfolding check_slots
  check_slots-passes pod [] seen own fresh d = (seen, refl, λ slot prev h. inl h)
  check_slots-passes pod (slot ∷ slots) seen own fresh d =
      let rest =
        check_slots-passes pod slots (insert slot pod seen) own.1 (still_fresh slots d.0 fresh.1)
          d.1 in
      (
        rest.0,
        rw (fresh.0, own.0) (rw (owned_by_self pod) rest.1),
        λ k prev h. back k prev (rest.2 k prev h),
      )
    where
      still_fresh :
          (l : List ℕ)
          → All (λ y. slot ≢ y) l
          → All (λ k. lookup k seen ≡ none) l
          → All (λ k. lookup k (insert slot pod seen) ≡ none) l
      still_fresh [] a f = tt
      still_fresh (k ∷ l) a f = (
        ground (arith, lookup-insert slot k pod seen, nat_eq_iff slot k, a.0, f.0),
        still_fresh l a.1 f.1,
      )

      back :
          (k : ℕ) (prev : String)
          → (lookup k (insert slot pod seen) ≡ some prev) ⊎ ((prev ≡ pod) × In k slots)
          → (lookup k seen ≡ some prev) ⊎ ((prev ≡ pod) × ((slot ≡ k) ⊎ In k slots))
      back k prev (inl h) = elim (Bool-cases (slot == k)) [
        | inl same ↦
            inr (
              ground (arith, lookup-insert slot k pod seen, same),
              inl ((nat_eq_iff slot k).0 same),
            )
        | inr other ↦ inl (ground (arith, lookup-insert slot k pod seen, other))
      ]
      back k prev (inr (e, m)) = inr (e, inr m)

  check_nodes_complete :
      (nodes : Nodes) (seen : Map ℕ String)
      → Distinct (keys nodes)
      → ((pod : String) (n : SimulatedNode) → In (pod, n) nodes → Distinct (keys n.slots))
      → ((pod : String) (n : SimulatedNode)
          → In (pod, n) nodes
          → is_active n ≡ true
          → IsExclusive pod n)
      → SeenElsewhere (keys nodes) seen
      → check_nodes owners nodes seen ≡ ok tt
  unfolding check_nodes
  check_nodes_complete [] seen d slots excl elsewhere = refl
  check_nodes_complete ((p, x) ∷ nodes) seen d slots excl elsewhere =
      elim (Bool-cases (is_active x)) [
        | inr idle ↦ rw idle (
            check_nodes_complete nodes seen d.1 (λ q n m. slots q n (inr m))
              (λ q n m. excl q n (inr m))
              (λ slot prev h. ((elsewhere slot prev h).0, λ m. (elsewhere slot prev h).1 (inr m))))
        | inl act ↦
            let own = excl p x (inl refl) act in
            let pass =
              check_slots-passes p (keys x.slots) seen (All-In _ (keys x.slots) own.indexed)
                (All-In _ (keys x.slots) (λ slot m. unseen slot (own.indexed slot m)))
                (slots p x (inl refl)) in
            rw act (
              rw (own.placed, pass.1)
                (check_nodes_complete nodes pass.0 d.1 (λ q n m. slots q n (inr m))
                  (λ q n m. excl q n (inr m))
                  (λ slot prev h. after own slot prev (pass.2 slot prev h))))
      ]
    where
      unseen : (slot : ℕ) → lookup slot owners ≡ some p → lookup slot seen ≡ none
      unseen slot o = elim (Option-cases (lookup slot seen)) [
        | inl e ↦ e
        | inr (prev, e) ↦
            let prev≡p : p ≡ prev = cc (o, (elsewhere slot prev e).0) in
            absurd ((elsewhere slot prev e).1 (inl prev≡p))
      ]

      after :
          IsExclusive p x
          → (slot : ℕ) (prev : String)
          → (lookup slot seen ≡ some prev) ⊎ ((prev ≡ p) × In slot (keys x.slots))
          → (lookup slot owners ≡ some prev) × ¬ In prev (keys nodes)
      after own slot prev (inl h) =
          ((elsewhere slot prev h).0, λ m. (elsewhere slot prev h).1 (inr m))
      after own slot prev (inr (e, m)) = (
        own.indexed slot m ∙ ap some (sym e),
        λ there. In-All (λ y. p ≢ y) (keys nodes) d.0 prev there (sym e),
      )

-- The keys are those of Go maps: none stands twice.
pub record IsKeyed (s : PlanSimulator) : Type 0 where
  pub pods : Distinct (keys s.nodes)
  pub owned : Distinct (keys s.slot_owners)
  pub sets :
      (pod : String) (n : SimulatedNode) → lookup pod s.nodes ≡ some n → Distinct (keys n.slots)

-- Every node that exists and is a member has slots only as a master, and the index gives each of
-- its slots to it.
abbrev pub SlotsAreExclusive : PlanSimulator → Type 0
SlotsAreExclusive s =
    (pod : String) (n : SimulatedNode)
    → lookup pod s.nodes ≡ some n
    → is_active n ≡ true
    → IsExclusive s.slot_owners pod n

-- On maps with no key twice, `checkInvariants` passes exactly when the slots are exclusive. So its
-- verdict does not depend on the order in which the maps are walked.
pub check_invariants_iff :
    (s : PlanSimulator) → IsKeyed s → (check_invariants s ≡ ok tt) ↔ SlotsAreExclusive s
unfolding check_invariants lookup
check_invariants_iff s k = (
  λ h pod n l a. check_nodes_sound s.slot_owners s.nodes [] h pod n (In-lookup pod n s.nodes l) a,
  λ excl.
      check_nodes_complete s.slot_owners s.nodes [] k.pods
        (λ pod n m. k.sets pod n (lookup_of_In pod n s.nodes k.pods m))
        (λ pod n m a. excl pod n (lookup_of_In pod n s.nodes k.pods m) a)
        (λ slot prev h. absurd (cc)),
)

-- A slot is held by at most one node that exists and is a member.
pub check_invariants-one_holder :
    (s : PlanSimulator) (p q : String) (m n : SimulatedNode) (slot : ℕ)
    → check_invariants s ≡ ok tt
    → lookup p s.nodes ≡ some m
    → lookup q s.nodes ≡ some n
    → is_active m ≡ true
    → is_active n ≡ true
    → has slot m.slots ≡ true
    → has slot n.slots ≡ true
    → p ≡ q
unfolding check_invariants
check_invariants-one_holder s p q m n slot h lp lq ap' aq hp hq =
    let sound = check_nodes_sound s.slot_owners s.nodes [] h in
    cc (
      (sound p m (In-lookup p m s.nodes lp) ap').indexed slot (In-of_has slot m.slots hp),
      (sound q n (In-lookup q n s.nodes lq) aq).indexed slot (In-of_has slot n.slots hq),
    )
