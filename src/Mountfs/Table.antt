-- ===== src/Mountfs/Table.antt =====
-- internal/mountfs/table.go, mode.go: the mounts of a sandbox and the routing of its OS calls.
-- `execute` ends where the call enters the direct or the overlay execution, which are other files;
-- the host directory behind a mount, its counters and its overlay are not read before that.
pub mod Order
pub mod Routing
pub mod Matching
mod Examples
use montygo.Prelude.{
  Bool, Bytes, List, Option, [], bytes_eq, codes, contains_byte, false, get_elem?, has_prefix,
  if◌then◌else◌, length, ltb, none, not, some, suc, true, ℕ, ◌&&◌, ◌==◌, ◌||◌, ◌∷◌,
}
use montygo.Value.Vpath.{normalize_virtual_path, root, slash}
use montygo.Value.FileMode.{ModeError, Parsed, canonical_file_mode, mode_creates}
use montygo.Wire.OsCall.{
  OsCall, is_existence_check, is_fs, is_write, null_message, op_open, op_rename,
}
use montygo.Mountfs.Errors.{MountError, Result, cross_mount, reject_if, value_error}
use montygo.Mountfs.PathPolicy.{reject_overlong_path}

-- Mode.
pub data Mode : Type 0 where
  read_only read_write overlay : Mode

-- ParseMode, without its message, and Mode.String.
pub parse_mode : Bytes → Option Mode
parse_mode s =
    if bytes_eq s (codes "read-only")
    then some Mode.read_only
    else if bytes_eq s (codes "read-write")
    then some Mode.read_write
    else if bytes_eq s (codes "overlay")
    then some Mode.overlay
    else none

pub mode_string : Mode → Bytes
mode_string Mode.read_only = codes "read-only"
mode_string Mode.read_write = codes "read-write"
mode_string Mode.overlay = codes "overlay"

-- A Spec, and a mount as far as the routing reads it.
pub record Mount : Type 0 where
  pub virtual_path : Bytes
  pub mode : Mode

pub record Table : Type 0 where
  pub mounts : List Mount
  pub first_path : Option Bytes

-- Table.push.
unfoldable pub push : List Mount → Mount → List Mount
push [] m = m ∷ []
push (x ∷ xs) m =
    if ltb (length m.virtual_path) (length x.virtual_path) then x ∷ push xs m else m ∷ x ∷ xs

push_all : List Mount → List Mount → List Mount
push_all mounts [] = mounts
push_all mounts (spec ∷ specs) = push_all (push mounts spec) specs

first_virtual_path : List Mount → Option Bytes
first_virtual_path [] = none
first_virtual_path (spec ∷ specs) = some spec.virtual_path

-- NewTable.
pub new_table : List Mount → Table
unfolding push_all first_virtual_path
new_table specs = record { mounts = push_all [] specs; first_path = first_virtual_path specs }

-- pathMatchesMount; `none == some` is the index out of range that the length test excludes.
next_is_slash : Option ℕ → Bool
next_is_slash none = false
next_is_slash (some c) = c == slash

unfoldable pub path_matches_mount : Bytes → Bytes → Bool
unfolding next_is_slash
path_matches_mount normalized mount =
    if bytes_eq mount root || bytes_eq normalized mount
    then true
    else has_prefix normalized mount
      && ltb (length mount) (length normalized)
      && next_is_slash (get_elem? normalized (length mount))

-- The loop of Table.findMount; `none` is -1.
unfoldable pub find_from : ℕ → List Mount → Bytes → Option ℕ
find_from i [] normalized = none
find_from i (m ∷ mounts) normalized =
    let rest = find_from (suc i) mounts normalized in
    if path_matches_mount normalized m.virtual_path then some i else rest

unfoldable pub find_mount : List Mount → Bytes → Option ℕ
unfolding find_from
find_mount mounts vpath = find_from 0 mounts (normalize_virtual_path vpath)

-- isWriteCall.
unfoldable pub is_write_call : OsCall → Bytes → Bool
is_write_call c mode = if c.op == op_open then mode_creates mode else is_write c

-- Where a call ends up: with the caller, with an answer, or in the execution of a mount.
-- `fails_mode` is the ValueError that carries the message of a mode error.
pub data Executor : Type 0 where
  direct with_overlay : Executor

pub data Outcome : Type 0 where
  unhandled : Outcome
  answers_false : Outcome
  fails : MountError → Outcome
  fails_mode : ModeError → Outcome
  runs : ℕ → Executor → Bytes → Outcome

-- The mode is read byte by byte; one that is not ASCII is refused either way, as the rune that Go
-- finds there.
canonical_mode : OsCall → Parsed Bytes
canonical_mode c = if c.op == op_open then canonical_file_mode c.mode else Parsed.ok []

executor : Mode → Executor
executor Mode.overlay = with_overlay
executor _ = direct

abbrev is_read_only : Mode → Bool
is_read_only Mode.read_only = true
is_read_only _ = false

-- mount.execute of the mount at the index `i`.
unfoldable pub execute : ℕ → Mount → OsCall → Outcome
unfolding executor canonical_mode
execute i m c = elim (canonical_mode c) [
  | Parsed.err e ↦ fails_mode e
  | Parsed.ok mode ↦
      if is_read_only m.mode && is_write_call c mode
      then fails (MountError.read_only c.path)
      else runs i (executor m.mode) mode
]

-- Table.route: no mount, an error, or the index of the mount.
pub data Route : Type 0 where
  nowhere : Route
  refused : MountError → Route
  to : ℕ → Route

abbrev to_found : Option ℕ → Route
to_found none = nowhere
to_found (some i) = to i

same_mount : MountError → Option ℕ → Option ℕ → Route
same_mount cross none none = nowhere
same_mount cross none (some j) = refused cross
same_mount cross (some i) none = refused cross
same_mount cross (some i) (some j) = if i == j then to i else refused cross

unfoldable pub route : List Mount → OsCall → Route
unfolding same_mount
route mounts c =
    let src = find_mount mounts c.path in
    if not (c.op == op_rename) then to_found src else elim (reject_overlong_path c.dst) [
      | Result.err e ↦ refused e
      | Result.ok _ ↦
          if contains_byte 0 c.dst
          then refused (value_error (null_message c true))
          else same_mount (cross_mount c.path c.dst) src (find_mount mounts c.dst)
    ]

-- The checks of Table.handle on the path as sent.
unfoldable pub rejection : OsCall → Result (Unit {0})
rejection c = elim (reject_overlong_path c.path) [
  | Result.err e ↦ Result.err e
  | Result.ok _ ↦ reject_if (contains_byte 0 c.path) (value_error (null_message c false))
]

abbrev execute_at : ℕ → Option Mount → OsCall → Outcome
execute_at i none c = unhandled
execute_at i (some m) c = execute i m c

-- Table.handle, and HandleOsCall with it, for a call that is not nil. The index that `route` returns
-- is in range.
unfoldable pub handle : List Mount → OsCall → Outcome
handle mounts c = if not (is_fs c) then unhandled else elim (rejection c) [
  | Result.err e ↦ if is_existence_check c then answers_false else fails e
  | Result.ok _ ↦ elim (route mounts c) [
    | nowhere ↦ unhandled
    | refused e ↦ fails e
    | to i ↦ execute_at i (get_elem? mounts i) c
  ]
]
