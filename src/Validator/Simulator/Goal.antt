-- ===== src/Validator/Simulator/Goal.antt =====
-- What a passed VerifyCluster step says of the simulated cluster.
use llm_k8s_redis.Prelude.{
  ℕ, suc, ◌≤◌, ◌<◌, String, [], ◌∷◌, Option, some, none, true, false, not, ◌&&◌, ◌||◌, ◌==◌,
  string_keys, nat_keys, lookup, keys, has, nonempty_of_has, length-keys, has_of_In, lookup_of_has,
  In, All-In, In-lookup, is_empty, is_blank, length, Bool-cases, ◌≡◌, ◌≢◌, inl, inr, arith, sym,
  ◌∙◌, ap, subst, if◌then◌else◌, nat_eq, nat_eq_iff, str_eq_iff, ok, guard, >>=-eq-ok, guard-eq-ok,
  ℤ, pos, int_eq, int_eq_iff, Distinct-full,
}
use llm_k8s_redis.Plan.{Step, param_int}
use llm_k8s_redis.Cluster.Slots.{slot_range_bound}
use llm_k8s_redis.Validator.Simulator.State.{SimulatedNode, PlanSimulator}
use llm_k8s_redis.Validator.Simulator.Checks.{
  Nodes, check_invariants, replica_count, serving_master, count_masters, check_members, need_int,
  verify_cluster,
}
use llm_k8s_redis.Validator.Simulator.Ownership.{owner}
use llm_k8s_redis.Validator.Simulator.Exclusive.{SlotsAreExclusive, check_invariants_iff}
use llm_k8s_redis.Validator.Simulator.Consistent.{IsSound, IsConsistent, IsConsistent-IsKeyed}

-- How many masters serve.
pub count_serving : Nodes → ℕ
count_serving [] = 0
count_serving ((pod, n) ∷ nodes) =
    let rest = count_serving nodes in if serving_master n then suc rest else rest

module _ (s : PlanSimulator) (expected : ℤ) where
  -- What the first loop asks of one node.
  pub record IsCounted (pod : String) (n : SimulatedNode) : Type 0 where
    pub inside : (n.exists && not n.cluster_member && not n.forgotten) ≡ false
    pub busy : serving_master n ≡ true → is_empty n.slots ≡ false
    pub replicas : serving_master n ≡ true → pos (replica_count s pod) ≡ expected

  count_masters_sound :
      (nodes : Nodes) {m : ℕ}
      → count_masters s expected nodes ≡ ok m
      → (m ≡ count_serving nodes)
        × ((pod : String) (n : SimulatedNode) → In (pod, n) nodes → IsCounted pod n)
  unfolding count_masters count_serving
  count_masters_sound [] h = (cc, λ pod n m. absurd m)
  count_masters_sound ((p, x) ∷ nodes) {m} h =
      elim (Bool-cases (x.exists && not x.cluster_member && not x.forgotten)) [
        | inl out ↦ absurd (cc (rw out at h))
        | inr inside ↦ elim (Bool-cases (serving_master x)) [
          | inr idle ↦
              let (e, all) = count_masters_sound nodes (rw (inside, idle) at h) in
              (
                rw idle e,
                λ pod n i.
                    here_or pod n i
                      (record {
                        inside = inside;
                        busy = λ b. absurd (cc);
                        replicas = λ b. absurd (cc);
                      })
                      all,
              )
          | inl serves ↦
              let (u, g, h1) =
                >>=-eq-ok (guard (not (is_empty x.slots)) _) _ (rw (inside, serves) at h) in
              let (v, r, h2) =
                >>=-eq-ok (guard (int_eq (pos (replica_count s p)) expected) _) _ h1 in
              let (k, c, h3) = >>=-eq-ok (count_masters s expected nodes) _ h2 in
              let (e, all) = count_masters_sound nodes c in
              (
                rw serves (cc),
                λ pod n i.
                    here_or pod n i
                      (record {
                        inside = inside;
                        busy = λ b. ground (arith, guard-eq-ok _ _ g);
                        replicas = λ b. (int_eq_iff _ _).0 (guard-eq-ok _ _ r);
                      })
                      all,
              )
        ]
      ]
    where
      here_or :
          (pod : String) (n : SimulatedNode)
          → In (pod, n) ((p, x) ∷ nodes)
          → IsCounted p x
          → ((pod : String) (n : SimulatedNode) → In (pod, n) nodes → IsCounted pod n)
          → IsCounted pod n
      here_or pod n (inl e) this all =
          subst (λ (q : String × SimulatedNode). IsCounted q.0 q.1) e this
      here_or pod n (inr i) this all = all pod n i

-- What the second loop asks of one node.
pub record IsPresent (image : String) (n : SimulatedNode) : Type 0 where
  pub right_image : n.exists ≡ true → n.image ≡ image
  pub alive : n.cluster_member ≡ true → n.forgotten ≡ false → (n.exists ≡ true) × (n.ready ≡ true)

check_members_sound :
    (image : String) (nodes : Nodes) {u : Unit {0}}
    → check_members image nodes ≡ ok u
    → (pod : String) (n : SimulatedNode) → In (pod, n) nodes
    → IsPresent image n
unfolding check_members
check_members_sound image [] h pod n i = absurd i
check_members_sound image ((p, x) ∷ nodes) h pod n i =
    let (u, a, h1) = >>=-eq-ok (guard (not (x.exists && is_blank x.image)) _) _ h in
    let (v, b, h2) = >>=-eq-ok (guard (not (x.exists && not (x.image == image))) _) _ h1 in
    let (w, c, h3) =
      >>=-eq-ok
        (guard (not (x.cluster_member && not x.forgotten && (not x.exists || not x.ready))) _) _
        h2 in
    here_or (guard-eq-ok _ _ b) (guard-eq-ok _ _ c) (check_members_sound image nodes h3 pod n) i
  where
    here_or :
        not (x.exists && not (x.image == image)) ≡ true
        → not (x.cluster_member && not x.forgotten && (not x.exists || not x.ready)) ≡ true
        → (In (pod, n) nodes → IsPresent image n)
        → In (pod, n) ((p, x) ∷ nodes)
        → IsPresent image n
    here_or b c rest (inl e) =
        subst (λ (q : String × SimulatedNode). IsPresent image q.1) e
          (record {
            right_image = λ ex. ground (arith, str_eq_iff x.image image);
            alive = λ m f. ground arith;
          })
    here_or b c rest (inr i) = rest i

-- The node that serves a slot.
pub record Serves (s : PlanSimulator) (replicas : ℤ) (slot : ℕ) : Type 0 where
  pub pod : String
  pub node : SimulatedNode
  pub found : lookup pod s.nodes ≡ some node
  pub indexed : owner s slot ≡ some pod
  pub holds : has slot node.slots ≡ true
  pub serving : serving_master node ≡ true
  pub right_image : node.image ≡ s.spec.image
  pub replicated : pos (replica_count s pod) ≡ replicas

-- The cluster that VerifyCluster demands: as many serving masters as the step expects, and for
-- each of the 16384 slots one of them that holds it, with the expected number of replicas.
pub record MeetsGoal (step : Step) (s : PlanSimulator) : Type 0 where
  pub shards : ℤ
  pub replicas : ℤ
  pub shards_param : param_int step.params "expectedShards" ≡ some shards
  pub replicas_param : param_int step.params "expectedReplicasPerShard" ≡ some replicas
  pub masters : pos (count_serving s.nodes) ≡ shards
  pub covered : (slot : ℕ) → slot ≤ slot_range_bound → Serves s replicas slot

need_int-ok : (key : String) (o : Option ℤ) {i : ℤ} → need_int key o ≡ ok i → o ≡ some i
need_int-ok key none h = absurd (cc)
need_int-ok key (some i) h = cc

-- Every slot in bounds has an owner, once the index has 16384 entries.
all_owned :
    (s : PlanSimulator)
    → IsConsistent s
    → nat_eq (length s.slot_owners) 16384 ≡ true
    → (slot : ℕ) → slot ≤ slot_range_bound
    → (pod : String) × (owner s slot ≡ some pod)
all_owned s c full slot b = elim (Bool-cases (has slot s.slot_owners)) [
  | inl yes' ↦ lookup_of_has slot s.slot_owners yes'
  | inr none' ↦ absurd (
      Distinct-full 16384 (keys s.slot_owners) slot c.owned (All-In _ (keys s.slot_owners) below)
        (length-keys s.slot_owners ∙ (nat_eq_iff (length s.slot_owners) 16384).0 full) (omega arith)
        (All-In (λ y. slot ≢ y) (keys s.slot_owners)
          (λ y i e. apart none' (subst (λ z. In z (keys s.slot_owners)) (sym e) i))))
]
  where
    apart : has slot s.slot_owners ≡ false → ¬ In slot (keys s.slot_owners)
    apart none' i = cc (none', has_of_In slot s.slot_owners i)

    below : (k : ℕ) → In k (keys s.slot_owners) → k < 16384
    below k i =
        let (pod, o) = lookup_of_has k s.slot_owners (has_of_In k s.slot_owners i) in
        omega (arith, c.bounded k pod o)

module _ (s : PlanSimulator) (c : IsConsistent s) (replicas : ℤ)
    (counted : (pod : String) (n : SimulatedNode)
      → In (pod, n) s.nodes
      → IsCounted s replicas pod n)
    (present : (pod : String) (n : SimulatedNode) → In (pod, n) s.nodes → IsPresent s.spec.image n)
    (exclusive : SlotsAreExclusive s) where
  -- The owner of a slot is a serving master.
  owner-Serves : (slot : ℕ) (pod : String) → owner s slot ≡ some pod → Serves s replicas slot
  owner-Serves slot pod o =
      let (n, l, h) = c.held slot pod o in
      let sound = c.sound pod n l in
      let i = In-lookup pod n s.nodes l in
      let nonempty : is_empty n.slots ≡ false = nonempty_of_has slot n.slots h in
      let member = sound.held_by_member nonempty in
      let live = up n member (present pod n i) sound in
      let master = exclusive pod n l (ground (arith, member, live.0)) in
      let serves : serving_master n ≡ true =
        ground (arith, member, live.0, live.1, nonempty, master.placed) in
      record {
        pod = pod;
        node = n;
        found = l;
        indexed = o;
        holds = h;
        serving = serves;
        right_image = (present pod n i).right_image live.0;
        replicated = (counted pod n i).replicas serves;
      }
    where
      up :
          (n : SimulatedNode)
          → n.cluster_member ≡ true
          → IsPresent s.spec.image n
          → IsSound n
          → (n.exists ≡ true) × (n.ready ≡ true)
      up n member p sound = elim (Bool-cases n.forgotten) [
        | inl gone ↦ let ready = sound.rejoined gone member in (sound.ready_exists ready, ready)
        | inr known ↦ p.alive member known
      ]

-- A consistent state that passes VerifyCluster meets the goal.
pub verify_cluster-MeetsGoal :
    (step : Step) (s : PlanSimulator) {u : Unit {0}}
    → IsConsistent s
    → verify_cluster step s ≡ ok u
    → MeetsGoal step s
unfolding verify_cluster
verify_cluster-MeetsGoal step s c h =
    let (shards, p, h1) =
      >>=-eq-ok (need_int "expectedShards" (param_int step.params "expectedShards")) _ h in
    let (replicas, q, h2) =
      >>=-eq-ok
        (need_int "expectedReplicasPerShard" (param_int step.params "expectedReplicasPerShard")) _
        h1 in
    let (masters, m, h3) = >>=-eq-ok (count_masters s replicas s.nodes) _ h2 in
    let (a, g, h4) = >>=-eq-ok (guard (int_eq (pos masters) shards) _) _ h3 in
    let (b, full, h5) = >>=-eq-ok (guard (nat_eq (length s.slot_owners) 16384) _) _ h4 in
    let (d, members, invariants) = >>=-eq-ok (check_members s.spec.image s.nodes) _ h5 in
    let (counts, counted) = count_masters_sound s replicas s.nodes m in
    record {
      shards = shards;
      replicas = replicas;
      shards_param = need_int-ok _ _ p;
      replicas_param = need_int-ok _ _ q;
      masters = ap pos (sym counts) ∙ (int_eq_iff (pos masters) shards).0 (guard-eq-ok _ _ g);
      covered = λ slot bound.
          let (pod, o) = all_owned s c (guard-eq-ok _ _ full) slot bound in
          owner-Serves s c replicas counted (check_members_sound s.spec.image s.nodes members)
            ((check_invariants_iff s (IsConsistent-IsKeyed c)).0 (invariants_ok invariants)) slot
            pod o;
    }
  where
    invariants_ok : {u : Unit {0}} → check_invariants s ≡ ok u → check_invariants s ≡ ok tt
    invariants_ok e = e
