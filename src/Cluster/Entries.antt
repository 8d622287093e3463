-- ===== src/Cluster/Entries.antt =====
-- internal/rediscluster/cluster.go: the lines of CLUSTER NODES and CLUSTER INFO, and what they say of
-- the nodes and of the slots that each owns.
use llm_k8s_redis.Prelude.{
  ℕ, String, List, [], ◌∷◌, Map, Option, some, none, Bool, true, false, not, ◌&&◌, ◌||◌, ◌==◌,
  string_keys, nat_keys, if◌then◌else◌, Result, ok, err, ◌>>=◌, lookup, insert, is_blank, is_char,
  split, fields, trim_space, has_char, equal_fold, cut_prefix, cut_at, ◌<>◌, find, any,
}
use llm_k8s_redis.Cluster.Slots.{is_bracket, slot_token_range, slots_between, SlotError}

pub record Entry : Type 0 where
  pub id : String
  pub addr : String
  pub flags : List String
  pub master_id : String
  pub link_state : String
  pub slots : List String

abbrev pub is_master : Entry → Bool
is_master e = e.master_id == "-"

abbrev pub is_replica : Entry → Bool
is_replica e = not (e.master_id == "-")

abbrev any_folds : List String → String → Bool
any_folds [] flag = false
any_folds (f ∷ flags) flag = equal_fold f flag || any_folds flags flag

unfoldable pub has_flag : Entry → String → Bool
has_flag e flag = any_folds e.flags flag

abbrev pub is_handshake : Entry → Bool
is_handshake e = has_flag e "handshake" || has_flag e "noaddr"

unfoldable pub healthy : Entry → Bool
healthy e =
    not (is_handshake e)
    && not (has_flag e "fail" || has_flag e "fail?")
    && equal_fold e.link_state "connected"

-- The fields of a line; none if there are fewer than eight.
abbrev entry_of : List String → Option Entry
entry_of (id ∷ addr ∷ flags ∷ master_id ∷ _ ∷ _ ∷ _ ∷ link_state ∷ slots) = some (record {
  id = id;
  addr = addr;
  flags = split (is_char b',') flags;
  master_id = master_id;
  link_state = link_state;
  slots = slots;
})
entry_of _ = none

abbrev put_entry : Option Entry → List Entry → List Entry
put_entry none entries = entries
put_entry (some e) entries = e ∷ entries

unfoldable pub parse_lines : List String → List Entry
parse_lines [] = []
parse_lines (line ∷ lines) = put_entry (entry_of (fields (trim_space line))) (parse_lines lines)

unfoldable pub parse_nodes : String → List Entry
unfolding parse_lines
parse_nodes raw = parse_lines (split (is_char 10) raw)

abbrev has_ip : String → Entry → Bool
has_ip ip e = elim (cut_prefix e.addr (ip <> ":")) [ none ↦ false | some rest ↦ true ]

unfoldable pub find_by_ip : List Entry → String → Option Entry
find_by_ip entries ip = if is_blank ip then none else find (has_ip ip) entries

unfoldable pub find_by_id : List Entry → String → Option Entry
find_by_id entries id = find (λ e. e.id == id) entries

abbrev is_comment : String → Bool
is_comment line = elim (cut_prefix line "#") [ none ↦ false | some rest ↦ true ]

abbrev put_pair : String → Option (String × String) → Map String String → Map String String
put_pair line none info = info
put_pair line (some (k, v)) info =
    if is_blank line || is_comment line then info else insert (trim_space k) (trim_space v) info

unfoldable pub info_lines : List String → Map String String → Map String String
info_lines [] info = info
info_lines (raw ∷ lines) info =
    let line = trim_space raw in info_lines lines (put_pair line (cut_at (is_char b':') line) info)

unfoldable pub parse_info : String → Map String String
unfolding info_lines
parse_info raw = info_lines (split (is_char 10) raw) []

unfoldable pub state_ok : Map String String → Bool
state_ok info = elim (lookup "cluster_state" info) [
  | none ↦ equal_fold "" "ok"
  | some s ↦ equal_fold s "ok"
]

-- The slot, its owner so far and the node that claims it too.
pub data OwnerError : Type 0 where
  owned_by_both : ℕ → String → String → OwnerError

abbrev pub Owners : Type 0
Owners = Map ℕ String

-- The test on the previous owner.
abbrev pub own_next :
    String → ℕ → Option String → Result OwnerError Owners → Result OwnerError Owners
own_next id s none rest = rest
own_next id s (some prev) rest = if prev == id then rest else err (owned_by_both s prev id)

-- The loop over the slots of a token.
unfoldable pub own_slots : String → List ℕ → Owners → Result OwnerError Owners
own_slots id [] owners = ok owners
own_slots id (s ∷ slots) owners =
    own_next id s (lookup s owners) (own_slots id slots (insert s id owners))

abbrev pub own_range : String → Result SlotError (ℕ × ℕ) → Owners → Result OwnerError Owners
own_range id (err e) owners = ok owners
own_range id (ok (start, end)) owners = own_slots id (slots_between start end) owners

-- A token in brackets tells of a migration and an unreadable one is passed over.
unfoldable pub own_tokens : String → List String → Owners → Result OwnerError Owners
unfolding own_slots
own_tokens id [] owners = ok owners
own_tokens id (token ∷ tokens) owners =
    (if has_char is_bracket token then ok owners else own_range id (slot_token_range token) owners)
    >>= λ next. own_tokens id tokens next

unfoldable pub own_entries : List Entry → Owners → Result OwnerError Owners
unfolding own_tokens
own_entries [] owners = ok owners
own_entries (e ∷ entries) owners =
    own_tokens e.id e.slots owners >>= λ next. own_entries entries next

unfoldable pub slot_ownership : List Entry → Result OwnerError Owners
unfolding own_entries
slot_ownership entries = own_entries entries []

abbrev pub replicates : String → Entry → Bool
replicates master_id e = is_replica e && e.master_id == master_id && healthy e

unfoldable pub master_has_healthy_replica : List Entry → String → Bool
master_has_healthy_replica entries master_id = any (replicates master_id) entries
