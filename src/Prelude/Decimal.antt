-- ===== src/Prelude/Decimal.antt =====
-- Decimal texts: strconv.Itoa and `%d`, for numbers that are not negative, and that Atoi reads them.
use Prim.Native.Nat.{ℕ, zero, suc, ◌+◌, ◌*◌, ◌/◌, ◌%◌, ◌≤◌, ◌<◌}
use Prim.Native.Char.{Char, code}
use Prim.Native.String.{String}
use mathlib.Core.Path.{◌≡◌, refl, ◌∙◌, ap}
use mathlib.Core.Bool.{Bool, true, false, ◌&&◌}
use mathlib.Core.Option.{some}
use mathlib.Core.Logic.{dite, dif_pos, dif_neg, ◌⊎◌, inl, inr}
use mathlib.Core.WellFounded.{Acc, WellFounded}
use native.Mathlib.Decide.{dec_lt}
use native.Mathlib.Bridge.{le_prop}
use native.Mathlib.Omega.{arith}
use llm_k8s_redis.Prelude.Tests.{leb, nat_eq, if◌then◌else◌, Bool-cases}
use llm_k8s_redis.Prelude.Int.{pos}
use llm_k8s_redis.Prelude.Strings.{read_digits, atoi, int_max}

Acc-below : (k n : ℕ) → n < k → Acc ◌<◌ n
Acc-below zero n h = absurd (omega arith)
Acc-below (suc k) n h = Acc.intro n (λ m lt. Acc-below k m (omega arith))

unfoldable pub lt_wf : WellFounded ◌<◌
unfolding Acc-below
lt_wf = record { apply = λ n. Acc-below (suc n) n (omega arith) }

pub tenth_lt : {n : ℕ} → 0 < n → n / 10 < n
tenth_lt h = omega arith

unfoldable pub digit_char : ℕ → Char
digit_char zero = "0"
digit_char (suc zero) = "1"
digit_char (suc (suc zero)) = "2"
digit_char (suc (suc (suc zero))) = "3"
digit_char (suc (suc (suc (suc zero)))) = "4"
digit_char (suc (suc (suc (suc (suc zero))))) = "5"
digit_char (suc (suc (suc (suc (suc (suc zero)))))) = "6"
digit_char (suc (suc (suc (suc (suc (suc (suc zero))))))) = "7"
digit_char (suc (suc (suc (suc (suc (suc (suc (suc zero)))))))) = "8"
digit_char (suc (suc (suc (suc (suc (suc (suc (suc (suc n))))))))) = "9"

-- The digits of `n` before a text; none for 0.
unfoldable pub emit : (n : ℕ) → Acc ◌<◌ n → String → String
emit n (Acc.intro _ smaller) out =
    dite (dec_lt 0 n)
      (λ h. emit (n / 10) (smaller (n / 10) (tenth_lt h)) (String.◌∷◌ (digit_char (n % 10)) out))
      (λ _. out)

unfoldable pub show : ℕ → String
unfolding emit lt_wf
show n = if nat_eq n 0 then "0" else emit n (lt_wf.apply n) ""

show_runs : (show 0 ≡ "0") × (show 7 ≡ "7") × (show 16383 ≡ "16383")
unfolding show dec_lt digit_char
show_runs = (refl, refl, refl)

code-digit_char : (d : ℕ) → d < 10 → code (digit_char d) ≡ 48 + d
unfolding digit_char
code-digit_char zero h = refl
code-digit_char (suc zero) h = refl
code-digit_char (suc (suc zero)) h = refl
code-digit_char (suc (suc (suc zero))) h = refl
code-digit_char (suc (suc (suc (suc zero)))) h = refl
code-digit_char (suc (suc (suc (suc (suc zero))))) h = refl
code-digit_char (suc (suc (suc (suc (suc (suc zero)))))) h = refl
code-digit_char (suc (suc (suc (suc (suc (suc (suc zero))))))) h = refl
code-digit_char (suc (suc (suc (suc (suc (suc (suc (suc zero)))))))) h = refl
code-digit_char (suc (suc (suc (suc (suc (suc (suc (suc (suc zero))))))))) h = refl
code-digit_char (suc (suc (suc (suc (suc (suc (suc (suc (suc (suc n)))))))))) h =
    absurd (omega arith)

read_digits-digit :
    (acc d : ℕ) (out : String)
    → d < 10
    → read_digits acc (String.◌∷◌ (digit_char d) out) ≡ read_digits (acc * 10 + d) out
unfolding read_digits
read_digits-digit acc d out h = ground (arith, code-digit_char d h)

read_digits-emit :
    (n : ℕ) (w : Acc ◌<◌ n) (out : String) → read_digits 0 (emit n w out) ≡ read_digits n out
unfolding emit
read_digits-emit n (Acc.intro _ smaller) out = elim (dec_lt 0 n) [
  | yes h ↦ rw (dif_pos _ le_prop h) (
      read_digits-emit (n / 10) (smaller (n / 10) (tenth_lt h))
        (String.◌∷◌ (digit_char (n % 10)) out)
      ∙ read_digits-digit (n / 10) (n % 10) out (omega arith)
      ∙ ap (λ k. read_digits k out) (omega arith))
  | no h ↦ rw (dif_neg _ h) (ap (λ k. read_digits k out) (omega arith))
]

-- Does the text begin with a digit?
abbrev pub starts_with_digit : String → Bool
starts_with_digit String.[] = false
starts_with_digit (String.◌∷◌ c s) = leb 48 (code c) && leb (code c) 57

digit_char-digit :
    (d : ℕ) (out : String) → d < 10 → starts_with_digit (String.◌∷◌ (digit_char d) out) ≡ true
digit_char-digit d out h = ground (arith, code-digit_char d h)

emit-digit :
    (n : ℕ) (w : Acc ◌<◌ n) (out : String)
    → (0 < n) ⊎ (starts_with_digit out ≡ true)
    → starts_with_digit (emit n w out) ≡ true
unfolding emit
emit-digit n (Acc.intro _ smaller) out o = elim (dec_lt 0 n) [
  | yes h ↦ rw (dif_pos _ le_prop h) (
      emit-digit (n / 10) (smaller (n / 10) (tenth_lt h)) (String.◌∷◌ (digit_char (n % 10)) out)
        (inr (digit_char-digit (n % 10) out (omega arith))))
  | no h ↦ rw (dif_neg _ h) (begun h o)
]
  where
    begun : ¬ (0 < n) → (0 < n) ⊎ (starts_with_digit out ≡ true) → starts_with_digit out ≡ true
    begun h (inl p) = absurd (h p)
    begun h (inr d) = d

pub show-digit : (n : ℕ) → starts_with_digit (show n) ≡ true
unfolding show
show-digit n = elim (Bool-cases (nat_eq n 0)) [
  | inl zero' ↦ rw zero' refl
  | inr more ↦ rw more (emit-digit n (lt_wf.apply n) "" (inl (ground arith)))
]

pub read_digits-show : (n : ℕ) → read_digits 0 (show n) ≡ some n
unfolding show read_digits
read_digits-show n = elim (Bool-cases (nat_eq n 0)) [
  | inl zero' ↦ rw zero' (ground arith)
  | inr more ↦ rw more (read_digits-emit n (lt_wf.apply n) "")
]

atoi_of_digits :
    (s : String) (n : ℕ)
    → starts_with_digit s ≡ true
    → read_digits 0 s ≡ some n
    → n ≤ int_max
    → atoi s ≡ some (pos n)
unfolding atoi
atoi_of_digits String.[] n d r h = absurd (cc)
atoi_of_digits (String.◌∷◌ c s) n d r h = ground arith

-- Atoi reads the decimal text of every number that an `int` holds.
pub atoi-show : (n : ℕ) → n ≤ int_max → atoi (show n) ≡ some (pos n)
atoi-show n h = atoi_of_digits (show n) n (show-digit n) (read_digits-show n) h
