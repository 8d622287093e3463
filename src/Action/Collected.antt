-- ===== src/Action/Collected.antt =====
-- internal/action/topology_observer.go: what the collected lines of CLUSTER NODES are.
use llm_k8s_redis.Prelude.{
  ℕ, ◌≤◌, ◌<◌, String, List, [], ◌∷◌, Option, some, none, true, false, ltb, ok, err, is_empty,
  length, ◌≡◌, refl, inl, inr, ◌⊎◌, In, Bool-cases, arith, subst, sym, ap, lookup, nat_keys,
  Result-cases, nat_eq_iff,
}
use llm_k8s_redis.Cluster.Entries.{Entry, Owners, slot_ownership}
use llm_k8s_redis.Cluster.Full.{slot_ownership-full}
use llm_k8s_redis.Action.Pods.{Pod}
use llm_k8s_redis.Action.Views.{
  Dial, Reading, readings, owns_all_slots, longer, collected, collect_best,
  collect_best_cluster_nodes,
}

-- A reading that no other is better than, in a loop that started from `first`.
record Longest (rs : List Reading) (first best : List Entry) : Type 0 where
  least : length first ≤ length best
  read : (best ≡ first) ⊎ In (ok best) rs
  others :
      (entries : List Entry)
      → In (ok entries) rs
      → (owns_all_slots entries ≡ false) × (length entries ≤ length best)

abbrev Best : List Reading → List Entry → List Entry → Type 0
Best rs first best = (In (ok best) rs × (owns_all_slots best ≡ true)) ⊎ Longest rs first best

Best-err :
    (e : String) (rs : List Reading) (first best : List Entry)
    → Best rs first best
    → Best (err e ∷ rs) first best
Best-err e rs first best (inl (i, full)) = inl (inr i, full)
Best-err e rs first best (inr l) = inr (record {
  least = l.least;
  read = elim l.read [ inl same ↦ inl same | inr i ↦ inr (inr i) ];
  others = λ entries i. elim i [ inl never ↦ absurd (cc never) | inr j ↦ l.others entries j ];
})

Best-ok :
    (entries : List Entry) (rs : List Reading) (first best : List Entry)
    → owns_all_slots entries ≡ false
    → Best rs (longer first entries) best
    → Best (ok entries ∷ rs) first best
Best-ok entries rs first best part (inl (i, full)) = inl (inr i, full)
Best-ok entries rs first best part (inr l) = inr (record {
  least = ground (arith, l.least);
  read = elim l.read [ inl same ↦ read_of same | inr i ↦ inr (inr i) ];
  others = λ x i. elim i [
    | inl same ↦
        let e≡x : entries ≡ x = cc in
        subst (λ y. (owns_all_slots y ≡ false) × (length y ≤ length best)) e≡x
          (part, ground (arith, l.least))
    | inr j ↦ l.others x j
  ];
})
  where
    read_of : best ≡ longer first entries → (best ≡ first) ⊎ In (ok best) (ok entries ∷ rs)
    read_of same = elim (Bool-cases (ltb (length first) (length entries))) [
      | inl more ↦ inr (inl (ap ok (sym (rw more at same))))
      | inr no_more ↦ inl (rw no_more at same)
    ]

collected-ok :
    (first : List Entry) (last_err : Option String) {best : List Entry}
    → collected first last_err ≡ ok best
    → best ≡ first
collected-ok first none h = cc
collected-ok [] (some e) h = cc
collected-ok (b ∷ first) (some e) h = cc

collected-err :
    (first : List Entry) (last_err : Option String) {e : String}
    → collected first last_err ≡ err e
    → (is_empty first ≡ true) × (last_err ≡ some e)
collected-err first none h = cc
collected-err [] (some d) h = (refl, cc)
collected-err (b ∷ first) (some d) h = cc

collect_best-Best :
    (rs : List Reading) (first : List Entry) (last_err : Option String) (best : List Entry)
    → collect_best first last_err rs ≡ ok best
    → Best rs first best
unfolding collect_best
collect_best-Best [] first last_err best h =
    let same : best ≡ first = collected-ok first last_err h in
    inr (record {
      least = subst (λ x. length first ≤ length x) (sym same) (omega arith);
      read = inl same;
      others = λ entries i. absurd i;
    })
collect_best-Best (err e ∷ rs) first last_err best h =
    Best-err e rs first best (collect_best-Best rs first (some e) best h)
collect_best-Best (ok entries ∷ rs) first last_err best h =
    elim (Bool-cases (owns_all_slots entries)) [
      | inl full ↦
          let same : ok entries ≡ ok best = rw full at h in
          let e≡b : entries ≡ best = cc in
          inl (inl same, subst (λ x. owns_all_slots x ≡ true) e≡b full)
      | inr part ↦
          Best-ok entries rs first best part
            (collect_best-Best rs (longer first entries) last_err best (rw part at h))
    ]

-- What `collectBestClusterNodes` returns without an error is a reading that owns all slots, or, where no
-- seed's does, a reading that is as long as any, or nothing if there is none to read.
pub collect_best_cluster_nodes-best :
    (dials : ℕ → Dial) (seeds : List Pod) (best : List Entry)
    → collect_best_cluster_nodes dials seeds ≡ ok best
    → (In (ok best) (readings dials 0 seeds) × (owns_all_slots best ≡ true))
      ⊎ (((best ≡ []) ⊎ In (ok best) (readings dials 0 seeds))
          × ((entries : List Entry)
              → In (ok entries) (readings dials 0 seeds)
              → (owns_all_slots entries ≡ false) × (length entries ≤ length best)))
unfolding collect_best_cluster_nodes
collect_best_cluster_nodes-best dials seeds best h =
    elim (collect_best-Best (readings dials 0 seeds) [] none best h) [
      | inl full ↦ inl full
      | inr l ↦ inr (l.read, l.others)
    ]

longer_empty :
    (first entries : List Entry)
    → is_empty (longer first entries) ≡ true
    → (is_empty first ≡ true) × (is_empty entries ≡ true)
longer_empty [] [] h = (refl, refl)
longer_empty [] (e ∷ entries) h =
    let grows : ltb 0 (length (e ∷ entries)) ≡ true = ground arith in absurd (cc (rw grows at h))
longer_empty (f ∷ first) [] h =
    let stays : ltb (length (f ∷ first)) 0 ≡ false = ground arith in absurd (cc (rw stays at h))
longer_empty (f ∷ first) (e ∷ entries) h =
    elim (Bool-cases (ltb (length (f ∷ first)) (length (e ∷ entries)))) [
      | inl more ↦ absurd (cc (rw more at h))
      | inr no_more ↦ absurd (cc (rw no_more at h))
    ]

-- Of a loop that starts from `first` and ends in an error.
record Nothing (rs : List Reading) (first : List Entry) (last : Option String) (e : String)
    : Type 0 where
  blank : is_empty first ≡ true
  told : (last ≡ some e) ⊎ In (err e) rs
  others : (entries : List Entry) → In (ok entries) rs → is_empty entries ≡ true

collect_best-Nothing :
    (rs : List Reading) (first : List Entry) (last_err : Option String) (e : String)
    → collect_best first last_err rs ≡ err e
    → Nothing rs first last_err e
unfolding collect_best
collect_best-Nothing [] first last_err e h =
    let (empty, last) = collected-err first last_err h in
    record { blank = empty; told = inl last; others = λ entries i. absurd i }
collect_best-Nothing (err d ∷ rs) first last_err e h =
    let n = collect_best-Nothing rs first (some d) e h in
    record {
      blank = n.blank;
      told = elim n.told [ inl same ↦ inr (inl (cc)) | inr i ↦ inr (inr i) ];
      others = λ x i. elim i [ inl never ↦ absurd (cc never) | inr j ↦ n.others x j ];
    }
collect_best-Nothing (ok entries ∷ rs) first last_err e h =
    elim (Bool-cases (owns_all_slots entries)) [
      | inl full ↦ absurd (cc (rw full at h))
      | inr part ↦
          let n = collect_best-Nothing rs (longer first entries) last_err e (rw part at h) in
          let (none_first, none_here) = longer_empty first entries n.blank in
          record {
            blank = none_first;
            told = elim n.told [ inl same ↦ inl same | inr i ↦ inr (inr i) ];
            others = λ x i. elim i [
              | inl same ↦
                  let e≡x : entries ≡ x = cc in subst (λ y. is_empty y ≡ true) e≡x none_here
              | inr j ↦ n.others x j
            ];
          }
    ]

-- `collectBestClusterNodes` fails only if no seed returned a line of CLUSTER NODES and some seed could not
-- be read; the error is that of such a seed.
pub collect_best_cluster_nodes-err :
    (dials : ℕ → Dial) (seeds : List Pod) (e : String)
    → collect_best_cluster_nodes dials seeds ≡ err e
    → In (err e) (readings dials 0 seeds)
      × ((entries : List Entry)
          → In (ok entries) (readings dials 0 seeds)
          → is_empty entries ≡ true)
unfolding collect_best_cluster_nodes
collect_best_cluster_nodes-err dials seeds e h =
    let n = collect_best-Nothing (readings dials 0 seeds) [] none e h in
    (elim n.told [ inl never ↦ absurd (cc never) | inr i ↦ i ], n.others)

-- Lines that own all slots give every slot an owner among them.
pub owns_all_slots-owner :
    (entries : List Entry) (k : ℕ)
    → owns_all_slots entries ≡ true
    → k < 16384
    → (owners : Owners) × ((slot_ownership entries ≡ ok owners)
        × ((e : Entry) × (In e entries × (lookup k owners ≡ some e.id))))
unfolding owns_all_slots
owns_all_slots-owner entries k h lt = elim (Result-cases (slot_ownership entries)) [
  | inl (owners, e) ↦
      let count : length owners ≡ 16384 = (nat_eq_iff _ _).0 (rw e at h) in
      (owners, (e, slot_ownership-full entries owners k e count lt))
  | inr (d, bad) ↦ absurd (cc (rw bad at h))
]
