-- ===== src/Validator/WellFormed.antt =====
-- What `isPlanValid` decides: the form of a plan.
use llm_k8s_redis.Prelude.{
  ℕ, ◌+◌, String, List, [], ◌∷◌, ◌++◌, map, Map, some, false, ◌==◌, string_keys, lookup, insert,
  has, has-insert, All, Distinct, is_blank, Bool-cases, ◌≡◌, ◌≢◌, refl, inl, inr, arith, ◌↔◌, sym,
  ap, subst, ok, guard, >>=-eq-ok, guard-eq-ok, str_eq_iff,
}
use llm_k8s_redis.Plan.{ActionType, verify_cluster, Step, Plan, dsl_version}
use llm_k8s_redis.Validator.Schema.{
  pass, wrap, wrap-eq-ok, validate_step_schema, check_steps, last_is_verify, check_last, some_steps,
  is_plan_valid,
}

abbrev pub step_id : Step → String
step_id s = s.id

abbrev pub HasForm : Step → Type 0
HasForm s = (is_blank s.id ≡ false) × (validate_step_schema s ≡ pass)

-- The last step is a VerifyCluster.
abbrev pub EndsInVerify : List Step → Type 0
EndsInVerify steps =
    (before : List Step) × (last : Step) × (steps ≡ before ++ last ∷ [])
    × (last.action ≡ verify_cluster)

pub record IsWellFormed (p : Plan) : Type 0 where
  pub version : p.dsl_version ≡ dsl_version
  pub forms : All HasForm p.steps
  pub ids : Distinct (map step_id p.steps)
  pub ends : EndsInVerify p.steps

Unseen : Map String (Unit {0}) → Step → Type 0
Unseen seen s = has s.id seen ≡ false

check_steps_sound :
    (i : ℕ) (seen : Map String (Unit {0})) (steps : List Step)
    → check_steps i seen steps ≡ pass
    → All HasForm steps × Distinct (map step_id steps) × All (Unseen seen) steps
unfolding check_steps Unseen
check_steps_sound i seen [] h = (tt, tt, tt)
check_steps_sound i seen (s ∷ steps) h = elim (Bool-cases (is_blank s.id)) [
  | inl blank ↦ absurd (cc (rw blank at h))
  | inr named ↦ elim (Bool-cases (has s.id seen)) [
    | inl again ↦ absurd (cc (rw (named, again) at h))
    | inr new ↦
        let (u, form, h1) =
          >>=-eq-ok (wrap s.id (validate_step_schema s)) _ (rw (named, new) at h) in
        let (forms, ids, unseen) = check_steps_sound (i + 1) (insert s.id tt seen) steps h1 in
        (
          ((named, wrap-eq-ok s.id _ form), forms),
          (apart steps unseen, ids),
          (new, earlier steps unseen),
        )
  ]
]
  where
    apart :
        (l : List Step) → All (Unseen (insert s.id tt seen)) l → All (λ y. s.id ≢ y) (map step_id l)
    apart [] a = tt
    apart (t ∷ l) a =
        (λ e. ground (arith, has-insert s.id t.id tt seen, str_eq_iff s.id t.id, a.0), apart l a.1)

    earlier : (l : List Step) → All (Unseen (insert s.id tt seen)) l → All (Unseen seen) l
    earlier [] a = tt
    earlier (t ∷ l) a = (ground (arith, has-insert s.id t.id tt seen, a.0), earlier l a.1)

check_steps_complete :
    (i : ℕ) (seen : Map String (Unit {0})) (steps : List Step)
    → All HasForm steps
    → Distinct (map step_id steps)
    → All (Unseen seen) steps
    → check_steps i seen steps ≡ pass
unfolding check_steps Unseen
check_steps_complete i seen [] f d u = refl
check_steps_complete i seen (s ∷ steps) f d u =
    rw (f.0.0, u.0)
      (rw (f.0.1)
        (check_steps_complete (i + 1) (insert s.id tt seen) steps f.1 d.1 (later steps d.0 u.1)))
  where
    later :
        (l : List Step)
        → All (λ y. s.id ≢ y) (map step_id l)
        → All (Unseen seen) l
        → All (Unseen (insert s.id tt seen)) l
    later [] a b = tt
    later (t ∷ l) a b = (
      ground (arith, has-insert s.id t.id tt seen, str_eq_iff s.id t.id, a.0, b.0),
      later l a.1 b.1,
    )

last_is_verify_sound : (a : ActionType) → last_is_verify a ≡ pass → a ≡ verify_cluster
last_is_verify_sound verify_cluster h = refl
last_is_verify_sound _ h = absurd (cc)

pub check_last_sound : (steps : List Step) → check_last steps ≡ pass → EndsInVerify steps
unfolding check_last
check_last_sound [] h = absurd (cc)
check_last_sound (s ∷ []) h = ([], s, refl, last_is_verify_sound s.action h)
check_last_sound (s ∷ t ∷ steps) h =
    let (before, last, e, v) = check_last_sound (t ∷ steps) h in
    (s ∷ before, last, ap (λ l. s ∷ l) e, v)

check_last_complete :
    (before : List Step) (last : Step)
    → last.action ≡ verify_cluster
    → check_last (before ++ last ∷ []) ≡ pass
unfolding check_last
check_last_complete [] last v = rw v refl
check_last_complete (s ∷ []) last v = rw v refl
check_last_complete (s ∷ t ∷ before) last v = check_last_complete (t ∷ before) last v

some_steps_complete : (before : List Step) (last : Step) → some_steps (before ++ last ∷ []) ≡ pass
some_steps_complete [] last = refl
some_steps_complete (s ∷ before) last = refl

pub is_plan_valid_sound : (p q : Plan) → is_plan_valid (some p) ≡ ok q → IsWellFormed p × (p ≡ q)
unfolding is_plan_valid
is_plan_valid_sound p q h =
    let (a, g, h1) = >>=-eq-ok (guard (p.dsl_version == dsl_version) _) _ h in
    let (b, _, h2) = >>=-eq-ok (some_steps p.steps) _ h1 in
    let (c, steps, h3) = >>=-eq-ok (check_steps 0 [] p.steps) _ h2 in
    let (d, last, h4) = >>=-eq-ok (check_last p.steps) _ h3 in
    let (forms, ids, _) = check_steps_sound 0 [] p.steps steps in
    (
      record {
        version = (str_eq_iff p.dsl_version dsl_version).0 (guard-eq-ok _ _ g);
        forms = forms;
        ids = ids;
        ends = check_last_sound p.steps last;
      },
      cc,
    )

none_seen : (l : List Step) → All (Unseen []) l
unfolding Unseen has lookup
none_seen [] = tt
none_seen (s ∷ l) = (refl, none_seen l)

is_plan_valid_complete : (p : Plan) → IsWellFormed p → is_plan_valid (some p) ≡ ok p
unfolding is_plan_valid
is_plan_valid_complete p w =
    let (before, last, e, v) = w.ends in
    rw
      (
        (str_eq_iff p.dsl_version dsl_version).1 w.version,
        subst (λ l. some_steps l ≡ pass) (sym e) (some_steps_complete before last),
        check_steps_complete 0 [] p.steps w.forms w.ids (none_seen p.steps),
        subst (λ l. check_last l ≡ pass) (sym e) (check_last_complete before last v),
      )
      refl

-- A plan passes `isPlanValid` exactly when its version is the supported one, every step has an id
-- and the parameters of its action, no id stands twice, and the last step is a VerifyCluster.
pub is_plan_valid_iff : (p : Plan) → (is_plan_valid (some p) ≡ ok p) ↔ IsWellFormed p
is_plan_valid_iff p = (λ h. (is_plan_valid_sound p p h).0, is_plan_valid_complete p)
