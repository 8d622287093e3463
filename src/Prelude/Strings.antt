-- ===== src/Prelude/Strings.antt =====
-- Go's `strings` and `strconv`, as far as the program calls them, over the native text.
use Prim.Native.Nat.{ℕ, ◌+◌, ◌-◌, ◌*◌}
use Prim.Native.Char.{Char, code}
use Prim.Native.String.{String}
use mathlib.Core.Bool.{Bool, true, false, ◌&&◌, ◌||◌}
use mathlib.Core.Option.{Option, none, some}
use mathlib.Core.List.{List, [], ◌∷◌}
use llm_k8s_redis.Prelude.Tests.{leb, nat_eq, if◌then◌else◌}
use llm_k8s_redis.Prelude.Int.{ℤ, pos, neg}

infixr 66 ◌<>◌
abbrev pub ◌<>◌ : String → String → String
String.[] <> t = t
(String.◌∷◌ c s) <> t = String.◌∷◌ c (s <> t)

abbrev pub is_blank : String → Bool
is_blank String.[] = true
is_blank (String.◌∷◌ c s) = false

-- unicode.IsSpace
unfoldable pub is_space : Char → Bool
is_space c =
    let n = code c in
    leb 9 n && leb n 13
    || nat_eq n 32
    || nat_eq n 0x85
    || nat_eq n 0xa0
    || nat_eq n 0x1680
    || leb 0x2000 n && leb n 0x200a
    || nat_eq n 0x2028
    || nat_eq n 0x2029
    || nat_eq n 0x202f
    || nat_eq n 0x205f
    || nat_eq n 0x3000

module _ (cut : Char → Bool) where
  -- strings.TrimLeftFunc
  unfoldable pub trim_left : String → String
  trim_left String.[] = ""
  trim_left (String.◌∷◌ c s) = let rest = trim_left s in if cut c then rest else String.◌∷◌ c s

  -- strings.TrimRightFunc
  unfoldable pub trim_right : String → String
  trim_right String.[] = ""
  trim_right (String.◌∷◌ c s) =
      let rest = trim_right s in if is_blank rest && cut c then "" else String.◌∷◌ c rest

  unfoldable pub trim : String → String
  unfolding trim_left trim_right
  trim s = trim_left (trim_right s)

  -- Does a character of the text pass the test (strings.ContainsAny)?
  unfoldable pub has_char : String → Bool
  has_char String.[] = false
  has_char (String.◌∷◌ c s) = let rest = has_char s in cut c || rest

  -- The text before the first character that passes and the text after it (strings.Cut).
  unfoldable pub cut_at : String → Option (String × String)
  cut_at String.[] = none
  cut_at (String.◌∷◌ c s) =
      let rest = cut_at s in
      if cut c
      then some ("", s)
      else elim rest [ none ↦ none | some (a, b) ↦ some (String.◌∷◌ c a, b) ]

  -- strings.Split by one separator: always at least one part, here the first and the others.
  unfoldable pub split_first : String → String × List String
  split_first String.[] = ("", [])
  split_first (String.◌∷◌ c s) =
      let (part, parts) = split_first s in
      if cut c then ("", part ∷ parts) else (String.◌∷◌ c part, parts)

  unfoldable pub split : String → List String
  unfolding split_first
  split s = let (part, parts) = split_first s in part ∷ parts

abbrev pub is_char : ℕ → Char → Bool
is_char n c = nat_eq (code c) n

abbrev pub keep_nonblank : List String → List String
keep_nonblank [] = []
keep_nonblank (s ∷ l) = let rest = keep_nonblank l in if is_blank s then rest else s ∷ rest

-- strings.TrimSpace and strings.Fields
unfoldable pub trim_space : String → String
unfolding trim is_space
trim_space = trim is_space

unfoldable pub fields : String → List String
unfolding split is_space
fields s = keep_nonblank (split is_space s)

-- strings.CutPrefix: the rest behind a prefix.
unfoldable pub cut_prefix : String → String → Option String
cut_prefix s String.[] = some s
cut_prefix String.[] (String.◌∷◌ c p) = none
cut_prefix (String.◌∷◌ d s) (String.◌∷◌ c p) =
    let rest = cut_prefix s p in if nat_eq (code d) (code c) then rest else none

-- The lower case of the letters of ASCII, with the long s and the Kelvin sign, which are the only
-- others that fold to one of them. So it is strings.EqualFold where one side is ASCII.
unfoldable pub fold_code : Char → ℕ
fold_code c =
    let n = code c in
    if leb b'A' n && leb n b'Z'
    then n + 32
    else if nat_eq n 0x17f
    then b's'
    else if nat_eq n 0x212a
    then b'k'
    else n

unfoldable pub equal_fold : String → String → Bool
unfolding fold_code
equal_fold String.[] String.[] = true
equal_fold String.[] (String.◌∷◌ d t) = false
equal_fold (String.◌∷◌ c s) String.[] = false
equal_fold (String.◌∷◌ c s) (String.◌∷◌ d t) =
    let rest = equal_fold s t in nat_eq (fold_code c) (fold_code d) && rest

abbrev pub int_max : ℕ
int_max = 9223372036854775807

-- The decimal digits of a text, read from the left.
unfoldable pub read_digits : ℕ → String → Option ℕ
read_digits acc String.[] = some acc
read_digits acc (String.◌∷◌ c s) =
    let n = code c in
    let rest = read_digits (acc * 10 + (n - b'0')) s in
    if leb b'0' n && leb n b'9' then rest else none

unfoldable pub read_unsigned : String → Option ℕ
unfolding read_digits
read_unsigned String.[] = none
read_unsigned (String.◌∷◌ c s) = read_digits 0 (String.◌∷◌ c s)

abbrev in_range : (ℕ → ℤ) → ℕ → Option ℕ → Option ℤ
in_range sign bound none = none
in_range sign bound (some n) = if leb n bound then some (sign n) else none

-- strconv.Atoi with its 64-bit range; `none` is either of its errors.
unfoldable pub atoi : String → Option ℤ
unfolding read_unsigned
atoi String.[] = none
atoi (String.◌∷◌ c s) =
    if is_char b'-' c
    then in_range neg (int_max + 1) (read_unsigned s)
    else if is_char b'+' c
    then in_range pos int_max (read_unsigned s)
    else in_range pos int_max (read_unsigned (String.◌∷◌ c s))

-- strings.Join
unfoldable pub join_with : String → List String → String
join_with sep [] = ""
join_with sep (s ∷ []) = s
join_with sep (s ∷ t ∷ parts) = s <> (sep <> join_with sep (t ∷ parts))

-- strings.TrimSuffix of one "-".
unfoldable pub trim_dash : String → String
trim_dash String.[] = ""
trim_dash (String.◌∷◌ c s) = if is_blank s && is_char b'-' c then "" else String.◌∷◌ c (trim_dash s)

-- The text before the first occurrence of another and the text behind it (strings.Index).
unfoldable pub cut_text : String → String → Option (String × String)
unfolding cut_prefix
cut_text sep String.[] = elim (cut_prefix "" sep) [ none ↦ none | some rest ↦ some ("", rest) ]
cut_text sep (String.◌∷◌ c s) = elim (cut_prefix (String.◌∷◌ c s) sep) [
  | some rest ↦ some ("", rest)
  | none ↦ elim (cut_text sep s) [ none ↦ none | some (a, b) ↦ some (String.◌∷◌ c a, b) ]
]

-- The text before the last character that passes and the text behind it (strings.LastIndex).
unfoldable pub cut_last : (Char → Bool) → String → Option (String × String)
cut_last test String.[] = none
cut_last test (String.◌∷◌ c s) = elim (cut_last test s) [
  | some (a, b) ↦ some (String.◌∷◌ c a, b)
  | none ↦ if test c then some ("", s) else none
]

-- The order of Go's strings. That of the bytes of UTF-8 is that of the code points.
unfoldable pub str_lt : String → String → Bool
str_lt s String.[] = false
str_lt String.[] (String.◌∷◌ d t) = true
str_lt (String.◌∷◌ c s) (String.◌∷◌ d t) =
    let rest = str_lt s t in if nat_eq (code c) (code d) then rest else leb (code c) (code d)
