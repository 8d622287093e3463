-- ===== src/Cluster/Markers.antt =====
-- internal/rediscluster/cluster.go: the slots that a migration has marked, the healthy nodes, and the
-- addresses of nodes.
use llm_k8s_redis.Prelude.{
  ℕ, String, Char, List, [], ◌∷◌, Map, Option, some, none, Bool, ◌&&◌, ◌||◌, not, string_keys,
  nat_keys, if◌then◌else◌, ℤ, pos, pos_part, leb, is_neg, Result, ok, err, insert, lookup, is_blank,
  is_char, is_empty, ◌≡◌, refl, cut_prefix, trim, trim_space, trim_dash, has_char, cut_at, cut_text,
  cut_last, atoi, equal_fold, str_lt, sort_by, filter,
}
use llm_k8s_redis.Cluster.Slots.{
  slot_range_bound, is_bracket, slot_token_range, slots_between, SlotError, SlotSet, add_range,
}
use llm_k8s_redis.Cluster.Entries.{Entry, is_master, healthy, replicates}

abbrev pub has_slots : Entry → Bool
has_slots e = not (is_empty e.slots)

abbrev pub is_connected : Entry → Bool
is_connected e = equal_fold e.link_state "connected"

abbrev is_angle : Char → Bool
is_angle c = is_char b'<' c || is_char b'>' c

abbrev pub mark_range : Result SlotError (ℕ × ℕ) → SlotSet → SlotSet
mark_range (err e) set = set
mark_range (ok (start, end)) set = add_range (slots_between start end) set

-- The slot's text before the mark.
abbrev marked_text : Option (String × String) → String
marked_text none = ""
marked_text (some (before, behind)) = trim_dash (trim_space before)

unfoldable pub mark_token : String → SlotSet → SlotSet
mark_token token set =
    let slot_str = marked_text (cut_at is_angle (trim is_bracket token)) in
    if not (has_char is_bracket token) || is_blank slot_str
    then set
    else mark_range (slot_token_range slot_str) set

unfoldable pub mark_tokens : List String → SlotSet → SlotSet
unfolding mark_token
mark_tokens [] set = set
mark_tokens (token ∷ tokens) set = mark_tokens tokens (mark_token token set)

unfoldable pub mark_entries : List Entry → SlotSet → SlotSet
unfolding mark_tokens
mark_entries [] set = set
mark_entries (e ∷ entries) set = mark_entries entries (mark_tokens e.slots set)

unfoldable pub migrating_slots : List Entry → SlotSet
unfolding mark_entries
migrating_slots entries = mark_entries entries []

pub record MigrationMarker : Type 0 where
  pub source_id : String
  pub target_id : String

abbrev Markers : Type 0
Markers = Map ℕ MigrationMarker

abbrev slot_in_bounds : Option ℤ → Option ℕ
slot_in_bounds none = none
slot_in_bounds (some n) =
    if is_neg n || not (leb (pos_part n) slot_range_bound) then none else some (pos_part n)

unfoldable pub migration_marker_slot : String → Option ℕ
migration_marker_slot raw = slot_in_bounds (atoi (trim_dash (trim_space raw)))

abbrev pub put_marker : Option ℕ → String → String → Markers → Markers
put_marker none source target markers = markers
put_marker (some slot) source target markers =
    insert slot (record { source_id = source; target_id = target }) markers

abbrev pub importing : String → Option (String × String) → Markers → Markers
importing id none markers = markers
importing id (some (before, behind)) markers =
    put_marker (migration_marker_slot before) (trim_space behind) id markers

abbrev pub moving : String → Option (String × String) → Option (String × String) → Markers → Markers
moving id (some (before, behind)) arrow markers =
    put_marker (migration_marker_slot before) id (trim_space behind) markers
moving id none arrow markers = importing id arrow markers

unfoldable pub marker_token : String → String → Markers → Markers
marker_token id token markers =
    let inner = trim is_bracket token in
    if not (has_char is_bracket token)
    then markers
    else moving id (cut_text "->-" inner) (cut_text "<-" inner) markers

unfoldable pub marker_tokens : String → List String → Markers → Markers
unfolding marker_token
marker_tokens id [] markers = markers
marker_tokens id (token ∷ tokens) markers = marker_tokens id tokens (marker_token id token markers)

unfoldable pub marker_entries : List Entry → Markers → Markers
unfolding marker_tokens
marker_entries [] markers = markers
marker_entries (e ∷ entries) markers = marker_entries entries (marker_tokens e.id e.slots markers)

unfoldable pub slot_migration_markers : List Entry → Markers
unfolding marker_entries
slot_migration_markers entries = marker_entries entries []

abbrev pub by_id : Entry → Entry → Bool
by_id e f = str_lt e.id f.id

unfoldable pub healthy_masters : List Entry → List Entry
healthy_masters entries = sort_by by_id (filter (λ e. is_master e && healthy e) entries)

unfoldable pub healthy_replicas_of : List Entry → String → List Entry
healthy_replicas_of entries master_id = sort_by by_id (filter (replicates master_id) entries)

abbrev before_or : String → Option (String × String) → String
before_or addr none = addr
before_or addr (some (before, behind)) = before

unfoldable pub ip_from_addr : String → String
ip_from_addr addr = before_or addr (cut_at (is_char b':') addr)

unfoldable pub redis_addr_from_cluster_addr : String → String
redis_addr_from_cluster_addr addr = before_or addr (cut_at (is_char b'@') addr)

-- n, err := strconv.Atoi(s); err == nil && n > 0
abbrev port_or : ℕ → Option ℤ → ℕ
port_or port (some (pos n)) = if leb 1 n then n else port
port_or port _ = port

abbrev or_local : String → String
or_local host = if is_blank host then "127.0.0.1" else host

abbrev host_port : String → Option (String × String) → String × ℕ
host_port addr none = (or_local addr, 6379)
host_port addr (some (before, behind)) = (or_local before, port_or 6379 (atoi behind))

unfoldable pub redis_host_port_from_addr : String → String × ℕ
unfolding redis_addr_from_cluster_addr
redis_host_port_from_addr addr =
    let redis_addr = redis_addr_from_cluster_addr addr in
    host_port redis_addr (cut_last (is_char b':') redis_addr)

-- A migration's two marks, an unreadable mark, and addresses.
marks_read :
    (slot_migration_markers (
        record {
          id = "a";
          addr = "";
          flags = [];
          master_id = "-";
          link_state = "";
          slots = "0-99" ∷ "[93->-b]" ∷ "[77-<-c]" ∷ "[x->-b]" ∷ [];
        }
        ∷ [])
      ≡ (93, record { source_id = "a"; target_id = "b" })
        ∷ (77, record { source_id = "c"; target_id = "a" })
        ∷ [])
    × (mark_tokens ("0-99" ∷ "[93->-b]" ∷ "[77-<-c]" ∷ "[x->-b]" ∷ []) []
        ≡ (93, tt) ∷ (77, tt) ∷ [])
    × (ip_from_addr "10.0.0.1:6379@16379" ≡ "10.0.0.1")
    × (redis_host_port_from_addr "10.0.0.1:7001@17001" ≡ ("10.0.0.1", 7001))
    × (redis_host_port_from_addr ":@1" ≡ ("127.0.0.1", 6379))
unfolding slot_migration_markers mark_tokens ip_from_addr redis_host_port_from_addr
    migration_marker_slot cut_text cut_at cut_last cut_prefix trim has_char trim_dash trim_space
    atoi slot_token_range slots_between add_range insert lookup
marks_read = (refl, refl, refl, refl, refl)
