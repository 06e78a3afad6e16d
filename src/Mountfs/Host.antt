-- ===== src/Mountfs/Host.antt =====
-- internal/mountfs: what a mount asks of its host directory (host.go, errors.go), and the walk along
-- the components of a path (overlay.go). A Host is the os.Root of the mount, as it stands during one
-- operation; what the operating system answers is a parameter.
use montygo.Prelude.{
  Bool, Bytes, List, Option, [], bytes_eq, codes, false, if◌then◌else◌, leb, length, ltb, none,
  some, split, take, true, ℕ, ◌++◌, ◌-◌, ◌||◌, ◌∷◌,
}
use montygo.Value.Vpath.{slash}
use montygo.Mountfs.Errors.{
  IoKind, MountError, Result, already_exists, err, io_err, is_a_directory, memory_limit,
  not_a_directory, not_found, ok, path_escape, permission_denied, reject_if, ◌>>=◌, ◌>>◌,
}
use montygo.Mountfs.OverlayState.{sat_add}

-- An error of the os package, as isPathEscape, ioKindOf and ioDisplay see it.
pub data OsError : Type 0 where
  escapes : OsError
  os_error : IoKind → Bytes → OsError

pub data FileType : Type 0 where
  dir_type regular_type symlink_type irregular_type : FileType

pub record FileInfo : Type 0 where
  pub file_type : FileType
  pub size : ℕ
  pub mtime : ℕ

pub data Looked : Type 0 where
  failed : OsError → Looked
  found : FileInfo → Looked

-- An open file: what its Stat says first and what it says again, the bytes that it delivers, and how
-- they end.
pub record OpenFile : Type 0 where
  pub info : FileInfo
  pub restat : Looked
  pub bytes : Bytes
  pub fault : Option OsError

-- An open that is refused, a file that opens but whose first Stat fails, and an open file.
pub data Opened : Type 0 where
  refused unstated : OsError → Opened
  opened : OpenFile → Opened

-- A directory that is read: the names, as far as they are delivered.
pub data Listed : Type 0 where
  unlisted : OsError → Listed
  listed : List Bytes → Listed

-- A directory below the root is opened name by name.
pub record Host : Type 0 where
  pub lstat : List Bytes → Bytes → Looked
  pub open_root : List Bytes → Bytes → Option OsError
  pub stat : Bytes → Looked
  pub open_file : Bytes → Opened
  pub read_dir : Bytes → Listed

-- hostExists, hostIsDir, hostIsFile and hostIsSymlink.
abbrev pub is_found : Looked → Bool
is_found (found fi) = true
is_found (failed e) = false

abbrev pub has_type : FileType → FileType → Bool
has_type dir_type dir_type = true
has_type regular_type regular_type = true
has_type symlink_type symlink_type = true
has_type irregular_type irregular_type = true
has_type _ _ = false

abbrev pub found_as : FileType → Looked → Bool
found_as t (found fi) = has_type t fi.file_type
found_as t (failed e) = false

abbrev pub host_exists : Host → Bytes → Bool
host_exists h rel = is_found (h.stat rel)

abbrev pub host_is_dir : Host → Bytes → Bool
host_is_dir h rel = found_as dir_type (h.stat rel)

abbrev pub host_is_file : Host → Bytes → Bool
host_is_file h rel = found_as regular_type (h.stat rel)

abbrev pub host_is_symlink : Host → Bytes → Bool
host_is_symlink h rel = found_as symlink_type (h.lstat [] rel)

abbrev pub not_found_error : Bytes → MountError
not_found_error vpath = io_err not_found (codes "No such file or directory") vpath

abbrev pub is_a_directory_error : Bytes → MountError
is_a_directory_error vpath = io_err is_a_directory (codes "Is a directory") vpath

abbrev pub not_a_directory_error : Bytes → MountError
not_a_directory_error vpath = io_err not_a_directory (codes "Not a directory") vpath

abbrev pub file_exists : Bytes → MountError
file_exists vpath = io_err already_exists (codes "File exists") vpath

abbrev pub permission_denied_error : Bytes → MountError
permission_denied_error vpath = io_err permission_denied (codes "Permission denied") vpath

abbrev pub map_io : OsError → Bytes → MountError
map_io escapes vpath = path_escape vpath
map_io (os_error kind msg) vpath = io_err kind msg vpath

-- `!isPathEscape(err) && ioKindOf(err) == ioNotFound`.
abbrev pub is_missing : OsError → Bool
is_missing (os_error not_found msg) = true
is_missing _ = false

-- memoryBudget.
pub record MemoryBudget : Type 0 where
  pub available : ℕ
  pub limit : ℕ

abbrev pub check : MemoryBudget → ℕ → Result (Unit {0})
check b n = reject_if (ltb b.available n) (memory_limit b.limit)

abbrev pub shrink : MemoryBudget → ℕ → Result MemoryBudget
shrink b n =
    if ltb b.available n
    then err (memory_limit b.limit)
    else ok (record b { available = b.available - n })

-- rejectNonRegular, and the test of openRegular.
abbrev pub regular_only : FileType → Bytes → Result (Unit {0})
regular_only dir_type vpath = err (is_a_directory_error vpath)
regular_only regular_type vpath = ok tt
regular_only _ vpath = err (permission_denied_error vpath)

abbrev pub reject_non_regular : Looked → Bytes → Result (Unit {0})
reject_non_regular (failed e) vpath = ok tt
reject_non_regular (found fi) vpath = regular_only fi.file_type vpath

abbrev pub open_regular : Opened → Bytes → Result OpenFile
open_regular (refused e) vpath = err (map_io e vpath)
open_regular (unstated e) vpath = err (map_io e vpath)
open_regular (opened f) vpath = regular_only f.info.file_type vpath >> ok f

-- readAtMost.
abbrev pub read_at_most : OpenFile → ℕ → Bytes → Result Bytes
read_at_most f limit vpath =
    if leb limit (length f.bytes)
    then ok (take limit f.bytes)
    else elim f.fault [ none ↦ ok f.bytes | some e ↦ err (map_io e vpath) ]

-- The information that readFileLimited asks the open file for again.
abbrev pub stated : Looked → Bytes → Result FileInfo
stated (failed e) vpath = err (map_io e vpath)
stated (found fi) vpath = ok fi

-- readFileLimited.
unfoldable pub read_file_limited : Host → Bytes → Bytes → MemoryBudget → Result Bytes
read_file_limited h rel vpath b = do
  reject_non_regular (h.stat rel) vpath
  f ← open_regular (h.open_file rel) vpath
  fi ← stated f.restat vpath
  check b fi.size
  content ← read_at_most f (sat_add b.available 1) vpath
  check b (length content)
  ok content

-- classifyTarget.
pub data RealTarget : Type 0 where
  target_dir target_file target_symlink target_absent : RealTarget

abbrev pub target_of : FileType → RealTarget
target_of symlink_type = target_symlink
target_of dir_type = target_dir
target_of _ = target_file

unfoldable pub classify_target : Looked → Bytes → Result RealTarget
classify_target (failed e) vpath = if is_missing e then ok target_absent else err (map_io e vpath)
classify_target (found fi) vpath = ok (target_of fi.file_type)

-- componentWalk: the names of the directories opened so far.
pub record ComponentWalk : Type 0 where
  pub at : List Bytes
  pub exhausted : Bool

abbrev pub start_walk : ComponentWalk
start_walk = record { at = []; exhausted = false }

abbrev pub descend :
    Option OsError → Bytes → Bytes → ComponentWalk → Result (RealTarget × ComponentWalk)
descend none component vpath w = ok (target_dir, record w { at = w.at ++ component ∷ [] })
descend (some e) component vpath w =
    if is_missing e then ok (target_absent, record w { exhausted = true }) else err (map_io e vpath)

abbrev pub after_class :
    Host → Bytes → Bytes → ComponentWalk → RealTarget → Result (RealTarget × ComponentWalk)
after_class h component vpath w target_dir = descend (h.open_root w.at component) component vpath w
after_class h component vpath w t = ok (t, record w { exhausted = true })

unfoldable pub walk_step :
    Host → Bytes → Bytes → ComponentWalk → Result (RealTarget × ComponentWalk)
unfolding classify_target
walk_step h component vpath w =
    if w.exhausted
    then ok (target_absent, w)
    else classify_target (h.lstat w.at component) vpath >>= after_class h component vpath w

-- rejectSymlinkChain.
abbrev pub past :
    Bytes → (ComponentWalk → Result (Unit {0})) → RealTarget × ComponentWalk → Result (Unit {0})
past vpath go (target_symlink, w) = err (path_escape vpath)
past vpath go (target_absent, w) = ok tt
past vpath go (target_file, w) = ok tt
past vpath go (target_dir, w) = go w

unfoldable pub walk_chain : Host → Bytes → List Bytes → ComponentWalk → Result (Unit {0})
unfolding walk_step
walk_chain h vpath [] w = ok tt
walk_chain h vpath (name ∷ names) w =
    walk_step h name vpath w >>= past vpath (walk_chain h vpath names)

unfoldable pub reject_symlink_chain : Host → Bytes → Bytes → Result (Unit {0})
unfolding walk_chain
reject_symlink_chain h rel vpath =
    if bytes_eq rel [] || bytes_eq rel (b'.' ∷ [])
    then ok tt
    else walk_chain h vpath (split slash rel) start_walk
