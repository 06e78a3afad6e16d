-- ===== src/Mountfs/OverlayState.antt =====
-- internal/mountfs/overlay_state.go: the entries that an overlay mount keeps in memory, in the order
-- of their keys, and what they use of the memory budget. The map is a function; an mtime is the bits
-- of its float64. An operation that returns an error leaves the state as it was.
pub mod Keys
pub mod Accounting
pub mod Budget
pub mod Updates
pub mod Appends
mod Examples
use montygo.Prelude.{
  Bool, Bytes, List, Option, [], bytes_eq, drop, false, if◌then◌else◌, leb, length, ltb, none, some,
  suc, take, true, ℕ, ◌%◌, ◌++◌, ◌+◌, ◌-◌, ◌==◌, ◌∷◌,
}
use montygo.Mountfs.Errors.{Result, memory_limit, reject_if}

abbrev pub max_uint64 : ℕ
max_uint64 = 18446744073709551615

-- satAdd of host.go, and satSub.
unfoldable pub sat_add : ℕ → ℕ → ℕ
sat_add a b = let s = (a + b) % 18446744073709551616 in if leb a s then s else max_uint64

unfoldable pub sat_sub : ℕ → ℕ → ℕ
sat_sub a b = if ltb a b then 0 else a - b

abbrev pub entry_memory_usage : ℕ
entry_memory_usage = 256

abbrev pub overlay_entry_size : ℕ
overlay_entry_size = 48

-- overlayEntry, by its kind: a file has its content, a reference to a host file its relative path
-- and size; all but the mark of a deletion have an mtime.
pub data OverlayEntry : Type 0 where
  file : Bytes → ℕ → OverlayEntry
  real_file_ref : Bytes → ℕ → ℕ → OverlayEntry
  directory : ℕ → OverlayEntry
  deleted : OverlayEntry

pub record OverlayState : Type 0 where
  pub entries : Bytes → Option OverlayEntry
  pub keys : List Bytes
  pub usage : ℕ

abbrev pub new_overlay_state : OverlayState
new_overlay_state = record { entries = λ key. none; keys = []; usage = 0 }

unfoldable pub get : Bytes → OverlayState → Option OverlayEntry
get key s = s.entries key

pub memory_usage : OverlayState → ℕ
memory_usage s = s.usage

-- baseEntryUsage and entryUsage.
unfoldable pub base_entry_usage : Bytes → ℕ
unfolding sat_add
base_entry_usage key = sat_add (sat_add entry_memory_usage (length key)) overlay_entry_size

abbrev variable_usage : OverlayEntry → ℕ
variable_usage (file content mtime) = length content
variable_usage (real_file_ref relative mtime size) = length relative
variable_usage (directory mtime) = 0
variable_usage deleted = 0

unfoldable pub entry_usage : Bytes → OverlayEntry → ℕ
unfolding sat_add base_entry_usage
entry_usage key e = sat_add (base_entry_usage key) (variable_usage e)

-- The order of Go strings, and sort.SearchStrings on a sorted slice.
unfoldable pub bytes_less : Bytes → Bytes → Bool
bytes_less s [] = false
bytes_less [] (d ∷ t) = true
bytes_less (c ∷ s) (d ∷ t) =
    let rest = bytes_less s t in if ltb c d then true else if c == d then rest else false

unfoldable pub search_strings : List Bytes → Bytes → ℕ
search_strings [] key = 0
search_strings (x ∷ keys) key =
    let rest = search_strings keys key in if bytes_less x key then suc rest else 0

abbrev pub assign :
    (Bytes → Option OverlayEntry) → Bytes → Option OverlayEntry → Bytes → Option OverlayEntry
assign entries key e x = if bytes_eq x key then e else entries x

unfoldable pub insert_key : List Bytes → Bytes → List Bytes
unfolding search_strings
insert_key keys key = let i = search_strings keys key in take i keys ++ key ∷ drop i keys

pub remove_key : List Bytes → Bytes → List Bytes
unfolding search_strings
remove_key keys key = let i = search_strings keys key in take i keys ++ drop (suc i) keys

-- overlayState.put.
unfoldable pub put : Bytes → OverlayEntry → OverlayState → OverlayState
unfolding insert_key
put key e s = record s {
  entries = assign s.entries key (some e);
  keys = elim (s.entries key) [ none ↦ insert_key s.keys key | some old ↦ s.keys ];
}

-- overlayState.remove: the entry that was there.
pub remove : Bytes → OverlayState → Option OverlayEntry × OverlayState
unfolding remove_key
remove key s = elim (s.entries key) [
  | none ↦ (none, s)
  | some e ↦ (
    some e,
    record s {
      entries = assign s.entries key none;
      keys = remove_key s.keys key;
      usage = sat_sub s.usage (entry_usage key e);
    },
  )
]

abbrev pub usage_of : Bytes → Option OverlayEntry → ℕ
usage_of key none = 0
usage_of key (some e) = entry_usage key e

unfoldable pub projected_usage : Bytes → OverlayEntry → OverlayState → ℕ
projected_usage key e s =
    sat_add (sat_sub s.usage (usage_of key (s.entries key))) (entry_usage key e)

unfoldable pub insert : Bytes → OverlayEntry → ℕ → OverlayState → Result OverlayState
unfolding projected_usage
insert key e limit s =
    let projected = projected_usage key e s in
    if ltb limit projected
    then Result.err (memory_limit limit)
    else Result.ok (record (put key e s) { usage = projected })

pub insert_unchecked : Bytes → OverlayEntry → OverlayState → OverlayState
unfolding projected_usage
insert_unchecked key e s = put key e (record s { usage = projected_usage key e s })

-- overlayState.appendFile: whether there was a file to append to.
unfoldable pub append_file : Bytes → Bytes → ℕ → ℕ → OverlayState → Result (Bool × OverlayState)
append_file key data_ mtime limit s = elim (s.entries key) [
  | some (file content old) ↦
      let projected = sat_add s.usage (length data_) in
      if ltb limit projected
      then Result.err (memory_limit limit)
      else Result.ok (
        true,
        record s {
          entries = assign s.entries key (some (file (content ++ data_) mtime));
          usage = projected;
        },
      )
  | _ ↦ Result.ok (false, s)
]

-- overlayState.checkFileReplacement.
unfoldable pub check_file_replacement : Bytes → ℕ → ℕ → OverlayState → Result (Unit {0})
check_file_replacement key content_len limit s =
    reject_if
      (ltb limit (
        sat_add (sat_sub s.usage (usage_of key (s.entries key)))
          (sat_add (base_entry_usage key) content_len)))
      (memory_limit limit)

-- overlayState.checkReplacements: `replaced` is the map of the usages that the batch has set.
pub record Replacement : Type 0 where
  pub key : Bytes
  pub entry : OverlayEntry

abbrev old_usage : OverlayState → Bytes → Option ℕ → ℕ
old_usage s key (some next) = next
old_usage s key none = usage_of key (s.entries key)

project_batch : OverlayState → List Replacement → (Bytes → Option ℕ) → ℕ → ℕ
project_batch s [] replaced projected = projected
project_batch s (r ∷ batch) replaced projected =
    let next = entry_usage r.key r.entry in
    project_batch s batch (λ x. if bytes_eq x r.key then some next else replaced x)
      (sat_add (sat_sub projected (old_usage s r.key (replaced r.key))) next)

pub check_replacements : List Replacement → ℕ → OverlayState → Result (Unit {0})
unfolding project_batch
check_replacements batch limit s =
    reject_if (ltb limit (project_batch s batch (λ x. none) s.usage)) (memory_limit limit)

-- overlayState.prefixKeys.
pub prefix_keys : Bytes → OverlayState → List Bytes
prefix_keys [] s = s.keys
prefix_keys (c ∷ rest) s =
    let prefix = c ∷ rest in
    let start = search_strings s.keys prefix in
    let end = search_strings s.keys (take (length prefix - 1) prefix ++ b'0' ∷ []) in
    drop start (take end s.keys)
