-- ===== src/Cluster/Owners.antt =====
-- internal/rediscluster/cluster.go: the slot owners that `SlotOwnership` returns.
use llm_k8s_redis.Prelude.{
  ℕ, zero, suc, ◌+◌, ◌-◌, ◌≤◌, ◌<◌, String, List, [], ◌∷◌, Map, Option, some, none, false, ◌==◌,
  string_keys, nat_keys, Result, ok, err, >>=-eq-ok, lookup, insert, lookup-insert, has_char,
  Bool-cases, In, range, ◌≡◌, refl, sym, ◌∙◌, ap, subst, inl, inr, arith, ◌⊎◌, str_eq_iff,
  nat_eq_iff,
}
use llm_k8s_redis.Cluster.Slots.{is_bracket, slot_token_range, slots_between, SlotError}
use llm_k8s_redis.Cluster.Entries.{
  Entry, OwnerError, own_next, own_slots, own_range, own_tokens, own_entries, slot_ownership,
}

In-range : (k start count : ℕ) → start ≤ k → k < start + count → In k (range start count)
In-range k start zero l h = absurd (omega arith)
In-range k start (suc count) l h = elim (Bool-cases (start == k)) [
  | inl e ↦ inl ((nat_eq_iff start k).0 e)
  | inr e ↦ inr (In-range k (start + 1) count (ground arith) (omega arith))
]

In-between : (k a b : ℕ) → a ≤ k → k ≤ b → In k (slots_between a b)
unfolding slots_between
In-between k a b l h = In-range k a (b + 1 - a) l (omega arith)

own_next-ok :
    (id : String) (s : ℕ) (o : Option String) (rest : Result OwnerError (Map ℕ String))
    {final : Map ℕ String}
    → own_next id s o rest ≡ ok final
    → (rest ≡ ok final) × ((o ≡ none) ⊎ (o ≡ some id))
own_next-ok id s none rest h = (h, inl refl)
own_next-ok id s (some prev) rest h = elim (Bool-cases (prev == id)) [
  | inl same ↦ (rw same at h, inr (ap some ((str_eq_iff prev id).0 same)))
  | inr other ↦ absurd (cc (rw other at h))
]

-- A slot that has an owner keeps it, and those of the loop get this one.
own_slots-keeps :
    (id : String) (slots : List ℕ) (owners : Map ℕ String) {final : Map ℕ String} (k : ℕ)
    (x : String)
    → own_slots id slots owners ≡ ok final
    → lookup k owners ≡ some x
    → lookup k final ≡ some x
unfolding own_slots
own_slots-keeps id [] owners {final} k x h l =
    let same : owners ≡ final = cc in subst (λ m. lookup k m ≡ some x) same l
own_slots-keeps id (s ∷ slots) owners k x h l =
    let (rest, before) = own_next-ok id s (lookup s owners) _ h in
    own_slots-keeps id slots (insert s id owners) k x rest (still before)
  where
    still :
        (lookup s owners ≡ none) ⊎ (lookup s owners ≡ some id)
        → lookup k (insert s id owners) ≡ some x
    still o = ground (arith, lookup-insert s k id owners, nat_eq_iff s k)

own_slots-gives :
    (id : String) (slots : List ℕ) (owners : Map ℕ String) {final : Map ℕ String} (k : ℕ)
    → own_slots id slots owners ≡ ok final
    → In k slots
    → lookup k final ≡ some id
unfolding own_slots
own_slots-gives id [] owners k h i = absurd i
own_slots-gives id (s ∷ slots) owners k h (inl e) =
    own_slots-keeps id slots (insert s id owners) k id (own_next-ok id s (lookup s owners) _ h).0
      (ground (arith, lookup-insert s k id owners, nat_eq_iff s k))
own_slots-gives id (s ∷ slots) owners k h (inr i) =
    own_slots-gives id slots (insert s id owners) k (own_next-ok id s (lookup s owners) _ h).0 i

own_range-keeps :
    (id : String) (r : Result SlotError (ℕ × ℕ)) (owners : Map ℕ String) {final : Map ℕ String}
    (k : ℕ) (x : String)
    → own_range id r owners ≡ ok final
    → lookup k owners ≡ some x
    → lookup k final ≡ some x
own_range-keeps id (ok (a, b)) owners k x h l =
    own_slots-keeps id (slots_between a b) owners k x h l
own_range-keeps id (err e) owners {final} k x h l =
    let same : owners ≡ final = cc in subst (λ m. lookup k m ≡ some x) same l

-- The slots that a token names, when the program reads it.
pub record Names (token : String) (k : ℕ) : Type 0 where
  pub stable : has_char is_bracket token ≡ false
  pub first : ℕ
  pub last : ℕ
  pub reads : slot_token_range token ≡ ok (first, last)
  pub from : first ≤ k
  pub upto : k ≤ last

own_tokens-keeps :
    (id : String) (tokens : List String) (owners : Map ℕ String) {final : Map ℕ String} (k : ℕ)
    (x : String)
    → own_tokens id tokens owners ≡ ok final
    → lookup k owners ≡ some x
    → lookup k final ≡ some x
unfolding own_tokens
own_tokens-keeps id [] owners {final} k x h l =
    let same : owners ≡ final = cc in subst (λ m. lookup k m ≡ some x) same l
own_tokens-keeps id (token ∷ tokens) owners k x h l =
    elim (Bool-cases (has_char is_bracket token)) [
      | inl moving ↦ own_tokens-keeps id tokens owners k x (rw moving at h) l
      | inr stable ↦
          let (next, n, h1) =
            >>=-eq-ok (own_range id (slot_token_range token) owners)
              (λ next. own_tokens id tokens next) (rw stable at h) in
          own_tokens-keeps id tokens next k x h1
            (own_range-keeps id (slot_token_range token) owners k x n l)
    ]

own_tokens-gives :
    (id : String) (tokens : List String) (owners : Map ℕ String) {final : Map ℕ String}
    (token : String) (k : ℕ)
    → own_tokens id tokens owners ≡ ok final
    → In token tokens
    → Names token k
    → lookup k final ≡ some id
unfolding own_tokens
own_tokens-gives id [] owners token k h i n = absurd i
own_tokens-gives id (t ∷ tokens) owners token k h (inl e) n =
    let m : Names t k = subst (λ u. Names u k) (sym e) n in
    let (next, r, h1) =
      >>=-eq-ok (own_range id (slot_token_range t) owners) (λ next. own_tokens id tokens next)
        (rw m.stable at h) in
    let r1 : own_slots id (slots_between m.first m.last) owners ≡ ok next = rw m.reads at r in
    own_tokens-keeps id tokens next k id h1 (
      own_slots-gives id (slots_between m.first m.last) owners k r1
        (In-between k m.first m.last m.from m.upto))
own_tokens-gives id (t ∷ tokens) owners token k h (inr i) n =
    let (next, r, h1) = >>=-eq-ok _ (λ next. own_tokens id tokens next) h in
    own_tokens-gives id tokens next token k h1 i n

own_entries-keeps :
    (entries : List Entry) (owners : Map ℕ String) {final : Map ℕ String} (k : ℕ) (x : String)
    → own_entries entries owners ≡ ok final
    → lookup k owners ≡ some x
    → lookup k final ≡ some x
unfolding own_entries
own_entries-keeps [] owners {final} k x h l =
    let same : owners ≡ final = cc in subst (λ m. lookup k m ≡ some x) same l
own_entries-keeps (e ∷ entries) owners k x h l =
    let (next, r, h1) = >>=-eq-ok (own_tokens e.id e.slots owners) _ h in
    own_entries-keeps entries next k x h1 (own_tokens-keeps e.id e.slots owners k x r l)

own_entries-gives :
    (entries : List Entry) (owners : Map ℕ String) {final : Map ℕ String} (e : Entry)
    (token : String) (k : ℕ)
    → own_entries entries owners ≡ ok final
    → In e entries
    → In token e.slots
    → Names token k
    → lookup k final ≡ some e.id
unfolding own_entries
own_entries-gives [] owners e token k h i j n = absurd i
own_entries-gives (d ∷ entries) owners e token k h (inl same) j n =
    let (next, r, h1) = >>=-eq-ok (own_tokens d.id d.slots owners) _ h in
    let j1 : In token d.slots = subst (λ (x : Entry). In token x.slots) (sym same) j in
    own_entries-keeps entries next k e.id h1
      (own_tokens-gives d.id d.slots owners token k r j1 n ∙ ap (λ (x : Entry). some x.id) same)
own_entries-gives (d ∷ entries) owners e token k h (inr i) j n =
    let (next, r, h1) = >>=-eq-ok (own_tokens d.id d.slots owners) _ h in
    own_entries-gives entries next e token k h1 i j n

-- If `SlotOwnership` returns a map, then the map gives each slot that a line of CLUSTER NODES claims
-- outside brackets to that line's node. So no two lines with different node ids claim one slot.
pub slot_ownership-owner :
    (entries : List Entry) (owners : Map ℕ String) (e : Entry) (token : String) (k : ℕ)
    → slot_ownership entries ≡ ok owners
    → In e entries
    → In token e.slots
    → Names token k
    → lookup k owners ≡ some e.id
unfolding slot_ownership
slot_ownership-owner entries owners e token k h i j n =
    own_entries-gives entries [] e token k h i j n
