-- ===== src/Cluster/Full.antt =====
-- internal/rediscluster/cluster.go: a map of owners with 16384 slots has an owner for each slot.
use llm_k8s_redis.Prelude.{
  ℕ, ◌<◌, String, List, [], ◌∷◌, some, true, ◌==◌, nat_keys, string_keys, ok, >>=-eq-ok, insert,
  lookup, lookup-insert_cases, has_char, keys, All, In, Distinct, Distinct-insert, Bool-cases,
  Option-cases, Result-cases, inl, inr, ◌≡◌, refl, sym, ◌∙◌, subst, ap, arith, length,
  Distinct-full, length-keys, has_of_In, has, lookup_of_has, In-All, All-In, ◌≢◌,
}
use llm_k8s_redis.Cluster.Slots.{is_bracket, slot_token_range, slots_between}
use llm_k8s_redis.Cluster.Bounds.{
  InBounds, AllKeys-insert, between-InBounds, slot_token_range-bounds,
}
use llm_k8s_redis.Cluster.Entries.{
  Entry, Owners, own_slots, own_range, own_tokens, own_entries, slot_ownership,
}

-- A map of slots in bounds, each once, to ids that pass.
record Sane (P : String → Type 0) (owners : Owners) : Type 0 where
  bounds : All InBounds (keys owners)
  distinct : Distinct (keys owners)
  named : (k : ℕ) (v : String) → lookup k owners ≡ some v → P v

module _ (P : String → Type 0) where
  Sane-insert :
      (id : String) (s : ℕ) (owners : Owners)
      → P id
      → InBounds s
      → Sane P owners
      → Sane P (insert s id owners)
  Sane-insert id s owners p b m = record {
    bounds = AllKeys-insert InBounds s id owners b m.bounds;
    distinct = Distinct-insert s id owners m.distinct;
    named = λ k v l. elim (lookup-insert_cases s k id v owners l) [
      | inl (_, id≡v) ↦ subst P id≡v p
      | inr before ↦ m.named k v before
    ];
  }

  own_slots-Sane :
      (id : String) (slots : List ℕ) (owners : Owners) {out : Owners}
      → P id
      → All InBounds slots
      → own_slots id slots owners ≡ ok out
      → Sane P owners
      → Sane P out
  unfolding own_slots
  own_slots-Sane id [] owners p b h m = subst (Sane P) (cc) m
  own_slots-Sane id (s ∷ slots) owners p b h m = elim (Option-cases (lookup s owners)) [
    | inl free ↦
        own_slots-Sane id slots (insert s id owners) p b.1 (rw free at h)
          (Sane-insert id s owners p b.0 m)
    | inr (prev, owned) ↦ elim (Bool-cases (prev == id)) [
      | inl same ↦
          own_slots-Sane id slots (insert s id owners) p b.1 (rw (owned, same) at h)
            (Sane-insert id s owners p b.0 m)
      | inr other ↦ absurd (cc (rw (owned, other) at h))
    ]
  ]

  own_range-Sane :
      (id token : String) (owners : Owners) {out : Owners}
      → P id
      → own_range id (slot_token_range token) owners ≡ ok out
      → Sane P owners
      → Sane P out
  own_range-Sane id token owners p h m = elim (Result-cases (slot_token_range token)) [
    | inl ((a, b), e) ↦
        let bounds = slot_token_range-bounds token e in
        own_slots-Sane id (slots_between a b) owners p (between-InBounds a b bounds.0 bounds.1)
          (rw e at h) m
    | inr (e, bad) ↦ let same : ok owners ≡ ok _ = rw bad at h in subst (Sane P) (cc) m
  ]

  own_tokens-Sane :
      (id : String) (tokens : List String) (owners : Owners) {out : Owners}
      → P id
      → own_tokens id tokens owners ≡ ok out
      → Sane P owners
      → Sane P out
  unfolding own_tokens
  own_tokens-Sane id [] owners p h m = subst (Sane P) (cc) m
  own_tokens-Sane id (t ∷ tokens) owners p h m =
      let (next, r, h1) = >>=-eq-ok _ (λ next. own_tokens id tokens next) h in
      own_tokens-Sane id tokens next p h1 (elim (Bool-cases (has_char is_bracket t)) [
        | inl moving ↦
            let same : ok owners ≡ ok next = rw moving at r in
            let owners≡next : owners ≡ next = cc in subst (Sane P) owners≡next m
        | inr stable ↦ own_range-Sane id t owners p (rw stable at r) m
      ])

  own_entries-Sane :
      (entries : List Entry) (owners : Owners) {out : Owners}
      → All (λ (e : Entry). P e.id) entries
      → own_entries entries owners ≡ ok out
      → Sane P owners
      → Sane P out
  unfolding own_entries
  own_entries-Sane [] owners p h m = subst (Sane P) (cc) m
  own_entries-Sane (e ∷ entries) owners p h m =
      let (next, r, h1) = >>=-eq-ok (own_tokens e.id e.slots owners) _ h in
      own_entries-Sane entries next p.1 h1 (own_tokens-Sane e.id e.slots owners p.0 r m)

no_owners : (P : String → Type 0) → Sane P []
unfolding lookup
no_owners P = record { bounds = tt; distinct = tt; named = λ k v l. cc }

-- The id of one of the nodes.
abbrev Listed : List Entry → String → Type 0
Listed entries id = (e : Entry) × (In e entries × (e.id ≡ id))

pub full_has :
    (owners : Owners) (k : ℕ)
    → All InBounds (keys owners)
    → Distinct (keys owners)
    → length owners ≡ 16384
    → k < 16384
    → has k owners ≡ true
full_has owners k bounds distinct full lt = elim (Bool-cases (has k owners)) [
  | inl there ↦ there
  | inr gone ↦
      let apart : (j : ℕ) → In j (keys owners) → k ≢ j =
        λ j i e. cc (gone, has_of_In k owners (subst (λ x. In x (keys owners)) (sym e) i)) in
      let below : (j : ℕ) → In j (keys owners) → j < 16384 =
        λ j i. let b = In-All InBounds (keys owners) bounds j i in omega arith in
      absurd (
        Distinct-full 16384 (keys owners) k distinct (All-In (λ j. j < 16384) (keys owners) below)
          (length-keys owners ∙ full) lt (All-In (λ j. k ≢ j) (keys owners) apart))
]

pub slot_ownership-full :
    (entries : List Entry) (owners : Owners) (k : ℕ)
    → slot_ownership entries ≡ ok owners
    → length owners ≡ 16384
    → k < 16384
    → (e : Entry) × (In e entries × (lookup k owners ≡ some e.id))
unfolding slot_ownership
slot_ownership-full entries owners k h full lt =
    let listed : All (λ (e : Entry). Listed entries e.id) entries =
      All-In _ entries (λ e i. (e, (i, refl))) in
    let m = own_entries-Sane (Listed entries) entries [] listed h (no_owners (Listed entries)) in
    let (v, l) = lookup_of_has k owners (full_has owners k m.bounds m.distinct full lt) in
    let (e, (i, same)) = m.named k v l in (e, (i, l ∙ ap some (sym same)))
