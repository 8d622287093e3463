-- ===== src/Action/Adds.antt =====
-- internal/action/add_slots.go: which slots an AddSlots assigns.
use llm_k8s_redis.Prelude.{
  ℕ, zero, suc, String, List, [], ◌∷◌, Option, some, none, false, ◌==◌, string_keys, nat_keys,
  Result, ok, >>=-eq-ok, ◌≡◌, refl, sym, subst, inl, inr, ◌⊎◌, In, Bool-cases, lookup, has,
}
use llm_k8s_redis.Cluster.Entries.{Entry, Owners}
use llm_k8s_redis.Cluster.Markers.{migrating_slots}
use llm_k8s_redis.Action.World.{Ended}
use llm_k8s_redis.Action.AddSlots.{to_add_next, to_add, chunk_from, batches}

-- A slot that may be assigned: asked for, without an owner, and in no migration.
pub record IsFree (entries : List Entry) (owners : Owners) (desired : List ℕ) (slot : ℕ)
    : Type 0 where
  pub wanted : In slot desired
  pub unowned : lookup slot owners ≡ none
  pub settled : has slot (migrating_slots entries) ≡ false

IsFree-later :
    (entries : List Entry) (owners : Owners) (desired : List ℕ) (t s : ℕ)
    → IsFree entries owners desired s
    → IsFree entries owners (t ∷ desired) s
IsFree-later entries owners desired t s f = record {
  wanted = inr f.wanted;
  unowned = f.unowned;
  settled = f.settled;
}

to_add_next-cases :
    (id : String) (t : ℕ) (o : Option String) (rest : Result Ended (List ℕ)) {missing : List ℕ}
    → to_add_next id t o rest ≡ ok missing
    → (more : List ℕ) × ((rest ≡ ok more)
        × (((o ≡ none) × (t ∷ more ≡ missing)) ⊎ (more ≡ missing)))
to_add_next-cases id t none rest h =
    let (more, e, h1) = >>=-eq-ok rest _ h in (more, (e, inl (refl, cc h1)))
to_add_next-cases id t (some cur) rest {missing} h = elim (Bool-cases (cur == id)) [
  | inl mine ↦ (missing, (rw mine at h, inr refl))
  | inr other ↦ absurd (cc (rw other at h))
]

pub to_add-IsFree :
    (id : String) (entries : List Entry) (owners : Owners) (desired missing : List ℕ) (s : ℕ)
    → to_add id (migrating_slots entries) owners desired ≡ ok missing
    → In s missing
    → IsFree entries owners desired s
unfolding to_add
to_add-IsFree id entries owners [] missing s h i =
    let none_missing : [] ≡ missing = cc h in absurd (subst (λ l. In s l) (sym none_missing) i)
to_add-IsFree id entries owners (t ∷ desired) missing s h i =
    elim (Bool-cases (has t (migrating_slots entries))) [
      | inl moving ↦ absurd (cc (rw (to_add, moving) at h))
      | inr settled ↦
          let rest = to_add id (migrating_slots entries) owners desired in
          let (more, (e, cases)) =
            to_add_next-cases id t (lookup t owners) rest (rw (to_add, settled) at h) in
          let later = to_add-IsFree id entries owners desired more s e in
          elim cases [
            | inr same ↦
                IsFree-later entries owners desired t s (later (subst (λ l. In s l) (sym same) i))
            | inl (free, same) ↦ elim (subst (λ l. In s l) (sym same) i) [
              | inr there ↦ IsFree-later entries owners desired t s (later there)
              | inl this ↦
                  subst (IsFree entries owners (t ∷ desired)) this
                    (record { wanted = inl refl; unowned = free; settled = settled })
            ]
          ]
    ]

-- The slots of a first part and of its later parts.
abbrev Within : List ℕ → List ℕ × List (List ℕ) → Type 0
Within slots (part, parts) =
    ((s : ℕ) → In s part → In s slots) × ((b : List ℕ) → In b parts → (s : ℕ) → In s b → In s slots)

open_part :
    (s : ℕ) (slots : List ℕ) (r : List ℕ × List (List ℕ))
    → Within slots r
    → Within (s ∷ slots) (s ∷ r.0, r.1)
open_part s slots (part, parts) (first, others) =
    (λ x i. elim i [ inl e ↦ inl e | inr j ↦ inr (first x j) ], λ b i x j. inr (others b i x j))

chunk_from-Within : (room : ℕ) (slots : List ℕ) → Within slots (chunk_from room slots)
unfolding chunk_from
chunk_from-Within room [] = (λ x i. i, λ b i x j. absurd i)
chunk_from-Within zero (s ∷ slots) =
    let (first, others) = open_part s slots (chunk_from 511 slots) (chunk_from-Within 511 slots) in
    (
      λ x i. absurd i,
      λ b i x j. elim i [
        | inl e ↦ first x (subst (λ l. In x l) (sym e) j)
        | inr k ↦ others b k x j
      ],
    )
chunk_from-Within (suc room) (s ∷ slots) =
    open_part s slots (chunk_from room slots) (chunk_from-Within room slots)

pub batches-In : (slots b : List ℕ) (s : ℕ) → In b (batches slots) → In s b → In s slots
unfolding batches
batches-In [] b s i j = absurd i
batches-In (t ∷ slots) b s i j =
    let (first, others) = open_part t slots (chunk_from 511 slots) (chunk_from-Within 511 slots) in
    elim i [ inl e ↦ first s (subst (λ l. In s l) (sym e) j) | inr k ↦ others b k s j ]
