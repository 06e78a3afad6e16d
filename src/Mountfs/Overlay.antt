-- ===== src/Mountfs/Overlay.antt =====
-- internal/mountfs/overlay.go, and the write counter of table.go: the calls of an overlay mount that
-- read and write. The host is read and never written, so that a call leaves a mount behind and no
-- host. `now` is currentTimestamp. The counts that Write and Append return, and the handle of Open,
-- are left out. Except in Mkdir, a call that fails leaves the mount as it was.
pub mod Changes
pub mod Removal
pub mod Looking
pub mod Writing
pub mod Bounded
pub mod Copying
pub mod Appending
pub mod Appended
pub mod Removing
pub mod Gone
pub mod Calls
pub mod Symlinks
pub mod Sources
mod Examples
use montygo.Prelude.{
  Bytes, List, Option, [], bytes_eq, if◌then◌else◌, last_index, length, ltb, none, some, split,
  take, ℕ, ◌++◌, ◌-◌, ◌∷◌,
}
use montygo.Value.Vpath.{slash}
use montygo.Mountfs.Errors.{
  Result, err, memory_limit, ok, path_escape, reject_if, write_limit, ◌>>=◌, ◌>>◌,
}
use montygo.Mountfs.PathPolicy.{component, dir_op, resolve_virtual_path}
use montygo.Mountfs.OverlayState.{
  OverlayEntry, OverlayState, check_file_replacement, deleted, directory, file, get, insert,
  real_file_ref, sat_add,
}
use montygo.Mountfs.Host.{
  ComponentWalk, Host, Looked, MemoryBudget, RealTarget, check, classify_target, failed, found,
  is_a_directory_error, is_missing, map_io, not_found_error, read_file_limited,
  reject_symlink_chain, start_walk, target_dir, target_symlink, walk_step,
}

pub record OverlayMount : Type 0 where
  pub virtual_path : Bytes
  pub write_used : ℕ
  pub write_limit : Option ℕ
  pub mem_limit : ℕ
  pub state : OverlayState

-- mount.checkWriteLimit and mount.commitWriteBytes.
unfoldable pub check_write_limit : ℕ → OverlayMount → Result (Unit {0})
check_write_limit n m = elim m.write_limit [
  | none ↦ ok tt
  | some limit ↦ reject_if (ltb limit (sat_add m.write_used n)) (write_limit limit)
]

unfoldable pub commit_write_bytes : ℕ → OverlayMount → OverlayMount
commit_write_bytes n m = elim m.write_limit [
  | none ↦ m
  | some limit ↦ record m { write_used = sat_add m.write_used n }
]

-- mount.resolveReal.
unfoldable pub resolve_real : Host → OverlayMount → Bytes → Result Bytes
resolve_real h m vpath = do
  rel ← resolve_virtual_path vpath m.virtual_path
  reject_symlink_chain h (dir_op rel) vpath
  ok rel

-- mount.checkedRefPath.
unfoldable pub checked_ref_path : Host → Bytes → Bytes → Result Bytes
checked_ref_path h relative vpath = reject_symlink_chain h relative vpath >> ok relative

-- mount.availableMemory.
unfoldable pub available_memory : OverlayMount → Result MemoryBudget
available_memory m =
    if ltb m.mem_limit m.state.usage
    then err (memory_limit m.mem_limit)
    else ok (record { available = m.mem_limit - m.state.usage; limit = m.mem_limit })

-- mount.resolveRealPathState with lookupPropagate: the path for the os package, if it is there.
abbrev pub looked_up : Looked → Bytes → Bytes → Result (Option Bytes)
looked_up (found fi) rel vpath = ok (some (dir_op rel))
looked_up (failed e) rel vpath = if is_missing e then ok none else err (map_io e vpath)

unfoldable pub resolve_real_path_state : Host → OverlayMount → Bytes → Result (Option Bytes)
unfolding resolve_real
resolve_real_path_state h m vpath =
    resolve_real h m vpath >>= (λ rel. looked_up (h.stat (dir_op rel)) rel vpath)

-- mount.overlayRead.
unfoldable pub read_entry : Host → Bytes → Bytes → OverlayMount → Option OverlayEntry → Result Bytes
read_entry h rel vpath m none = do
  target ← resolve_real h m vpath
  budget ← available_memory m
  read_file_limited h (dir_op target) vpath budget
read_entry h rel vpath m (some (file content mtime)) = do
  budget ← available_memory m
  check budget (length content)
  ok content
read_entry h rel vpath m (some (real_file_ref relative mtime size)) = do
  ref ← checked_ref_path h relative vpath
  budget ← available_memory m
  read_file_limited h ref vpath budget
read_entry h rel vpath m (some (directory mtime)) = err (is_a_directory_error vpath)
read_entry h rel vpath m (some deleted) = err (not_found_error vpath)

unfoldable pub overlay_read : Host → Bytes → Bytes → OverlayMount → Result Bytes
unfolding read_entry
overlay_read h rel vpath m = read_entry h rel vpath m (get rel m.state)

-- mount.ensureParentExists: each directory above, as the overlay or else the host has it.
abbrev pub child_key : Bytes → Bytes → Bytes
child_key current component =
    if bytes_eq current [] then component else current ++ (slash ∷ component)

abbrev parent_seen : Option OverlayEntry → RealTarget → Bytes → Result (Unit {0})
parent_seen (some (directory mtime)) real vpath = ok tt
parent_seen (some _) real vpath = err (not_found_error vpath)
parent_seen none target_dir vpath = ok tt
parent_seen none target_symlink vpath = err (path_escape vpath)
parent_seen none _ vpath = err (not_found_error vpath)

unfoldable pub parents_from :
    Host → OverlayMount → Bytes → Bytes → ComponentWalk → List Bytes → Result (Unit {0})
parents_from h m vpath current w [] = ok tt
parents_from h m vpath current w (name ∷ names) =
    let next = child_key current name in
    walk_step h name vpath w
    >>= (λ p. parent_seen (get next m.state) p.0 vpath >> parents_from h m vpath next p.1 names)

unfoldable pub ensure_parent_exists : Host → Bytes → Bytes → OverlayMount → Result (Unit {0})
unfolding parents_from
ensure_parent_exists h rel vpath m = elim (last_index slash rel) [
  | none ↦ ok tt
  | some i ↦ parents_from h m vpath [] start_walk (split slash (take i rel))
]

-- mount.rejectDirectoryTarget.
abbrev refused_target : RealTarget → Bytes → Result (Unit {0})
refused_target target_dir vpath = err (is_a_directory_error vpath)
refused_target target_symlink vpath = err (path_escape vpath)
refused_target _ vpath = ok tt

abbrev pub target_kind : Host → OverlayMount → Bytes → Result RealTarget
target_kind h m vpath = do
  target ← resolve_real h m vpath
  classify_target (h.lstat [] (dir_op target)) vpath

abbrev writable_entry : Host → OverlayMount → Bytes → Option OverlayEntry → Result (Unit {0})
writable_entry h m vpath (some (directory mtime)) = err (is_a_directory_error vpath)
writable_entry h m vpath (some _) = ok tt
writable_entry h m vpath none = target_kind h m vpath >>= (λ kind. refused_target kind vpath)

unfoldable pub reject_directory_target : Host → Bytes → Bytes → OverlayMount → Result (Unit {0})
reject_directory_target h rel vpath m = writable_entry h m vpath (get rel m.state)

-- Storing an entry in the mount's overlay.
unfoldable pub store : Bytes → OverlayEntry → OverlayMount → Result OverlayMount
store rel e m = insert rel e m.mem_limit m.state >>= (λ s. ok (record m { state = s }))

-- mount.overlayWrite.
unfoldable pub overlay_write : Host → Bytes → Bytes → ℕ → OverlayMount → Result OverlayMount
unfolding store
overlay_write h vpath data_ now m = do
  check_write_limit (length data_) m
  rel ← resolve_virtual_path vpath m.virtual_path
  ensure_parent_exists h rel vpath m
  reject_directory_target h rel vpath m
  check_file_replacement rel (length data_) m.mem_limit m.state
  n ← store rel (file data_ now) m
  ok (commit_write_bytes (length data_) n)
