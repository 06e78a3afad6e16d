-- ===== src/Mountfs/Overlay/Changes.antt =====
-- internal/mountfs/overlay.go: appending, creating directories, deleting files and opening.
use montygo.Prelude.{
  Bool, Bytes, List, Option, [], false, if◌then◌else◌, length, none, some, split, true, ℕ, ◌++◌,
  ◌∷◌,
}
use montygo.Value.Vpath.{slash}
use montygo.Mountfs.Errors.{Result, err, ok, path_escape, ◌>>=◌, ◌>>◌}
use montygo.Mountfs.PathPolicy.{format_child_path, resolve_virtual_path}
use montygo.Mountfs.OverlayState.{
  OverlayEntry, append_file, check_file_replacement, deleted, directory, file, get, real_file_ref,
  sat_add,
}
use montygo.Mountfs.Host.{
  ComponentWalk, Host, Looked, MemoryBudget, RealTarget, check, failed, file_exists, found,
  is_a_directory_error, map_io, not_a_directory_error, not_found_error, read_file_limited, shrink,
  start_walk, target_absent, target_dir, target_file, target_symlink, walk_step,
}
use montygo.Mountfs.Overlay.{
  OverlayMount, available_memory, check_write_limit, checked_ref_path, child_key,
  commit_write_bytes, ensure_parent_exists, reject_directory_target, resolve_real_path_state, store,
  target_kind,
}

-- mount.hostFileLen, existingFileLen and existingFileBytes.
abbrev host_file_len : Looked → Bytes → Result ℕ
host_file_len (found fi) vpath = ok fi.size
host_file_len (failed e) vpath = err (map_io e vpath)

abbrev pub len_at : Host → Bytes → Option Bytes → Result ℕ
len_at h vpath none = ok 0
len_at h vpath (some rel) = host_file_len (h.stat rel) vpath

abbrev pub bytes_at : Host → Bytes → MemoryBudget → Option Bytes → Result Bytes
bytes_at h vpath budget none = ok []
bytes_at h vpath budget (some rel) = read_file_limited h rel vpath budget

unfoldable pub existing_file_len : Host → Bytes → OverlayMount → Option OverlayEntry → Result ℕ
existing_file_len h vpath m none = resolve_real_path_state h m vpath >>= len_at h vpath
existing_file_len h vpath m (some (file content mtime)) = ok (length content)
existing_file_len h vpath m (some (real_file_ref relative mtime size)) = do
  ref ← checked_ref_path h relative vpath
  host_file_len (h.stat ref) vpath
existing_file_len h vpath m (some (directory mtime)) = err (is_a_directory_error vpath)
existing_file_len h vpath m (some deleted) = ok 0

unfoldable pub existing_file_bytes :
    Host → Bytes → MemoryBudget → OverlayMount → Option OverlayEntry → Result Bytes
existing_file_bytes h vpath budget m none =
    resolve_real_path_state h m vpath >>= bytes_at h vpath budget
existing_file_bytes h vpath budget m (some (file content mtime)) =
    check budget (length content) >> ok content
existing_file_bytes h vpath budget m (some (real_file_ref relative mtime size)) = do
  ref ← checked_ref_path h relative vpath
  read_file_limited h ref vpath budget
existing_file_bytes h vpath budget m (some (directory mtime)) = err (is_a_directory_error vpath)
existing_file_bytes h vpath budget m (some deleted) = ok []

-- What an append costs the write limit: all of a file that the overlay does not have yet.
abbrev pub charge : Option ℕ → Option OverlayEntry → ℕ → ℕ → ℕ
charge none entry existing n = n
charge (some limit) (some (file content mtime)) existing n = n
charge (some limit) _ existing n = sat_add existing n

-- The part of overlayAppend for a file that is not in the overlay.
unfoldable pub copy_and_append :
    Host → Bytes → Bytes → Bytes → ℕ → ℕ → OverlayMount → Result OverlayMount
unfolding existing_file_bytes
copy_and_append h rel vpath data_ existing now m = do
  let final = sat_add existing (length data_)
  check_file_replacement rel final m.mem_limit m.state
  budget ← available_memory m
  check budget final
  shrunk ← shrink budget (length data_)
  content ← existing_file_bytes h vpath shrunk m (get rel m.state)
  store rel (file (content ++ data_) now) m

-- mount.overlayAppend.
unfoldable pub overlay_append : Host → Bytes → Bytes → ℕ → OverlayMount → Result OverlayMount
unfolding copy_and_append existing_file_len
overlay_append h vpath data_ now m = do
  rel ← resolve_virtual_path vpath m.virtual_path
  ensure_parent_exists h rel vpath m
  reject_directory_target h rel vpath m
  existing ← existing_file_len h vpath m (get rel m.state)
  let charged = charge m.write_limit (get rel m.state) existing (length data_)
  check_write_limit charged m
  appended ← append_file rel data_ now m.mem_limit m.state
  n ←
      if appended.0
      then ok (record m { state = appended.1 })
      else copy_and_append h rel vpath data_ existing now m
  ok (commit_write_bytes charged n)

-- mount.createOverlayParents: it keeps what it has created when it fails.
abbrev pub wants : Option OverlayEntry → RealTarget → Bytes → Result Bool
wants (some (directory mtime)) real vpath = ok false
wants (some deleted) real vpath = ok true
wants (some _) real vpath = err (not_a_directory_error vpath)
wants none target_dir vpath = ok false
wants none target_symlink vpath = err (path_escape vpath)
wants none target_file vpath = err (not_a_directory_error vpath)
wants none target_absent vpath = ok true

abbrev pub Changed : Type 0
Changed = Result (Unit {0}) × OverlayMount

abbrev pub continued : Result OverlayMount → OverlayMount → (OverlayMount → Changed) → Changed
continued (err e) m go = (err e, m)
continued (ok n) m go = go n

abbrev pub created : Bytes → ℕ → OverlayMount → (OverlayMount → Changed) → Changed
created key now m go = continued (store key (directory now) m) m go

abbrev pub created_if : Result Bool → Bytes → ℕ → OverlayMount → (OverlayMount → Changed) → Changed
created_if (err e) key now m go = (err e, m)
created_if (ok false) key now m go = go m
created_if (ok true) key now m go = created key now m go

abbrev pub on_way :
    Result (RealTarget × ComponentWalk)
    → Bytes
    → Bytes
    → ℕ
    → OverlayMount
    → (ComponentWalk → OverlayMount → Changed)
    → Changed
on_way (err e) next vpath now m go = (err e, m)
on_way (ok (real, w)) next vpath now m go =
    created_if (wants (get next m.state) real vpath) next now m (go w)

unfoldable pub create_parents :
    Host → ℕ → Bytes → ComponentWalk → List Bytes → OverlayMount → Changed
create_parents h now current w [] m = (ok tt, m)
create_parents h now current w (name ∷ names) m =
    let next = child_key current name in
    let vpath = format_child_path m.virtual_path next in
    on_way (walk_step h name vpath w) next vpath now m (λ v. create_parents h now next v names)

-- mount.overlayMkdir; the answer for what is there already, or none.
abbrev there : Bool → Bytes → Option (Result (Unit {0}))
there exist_ok vpath = if exist_ok then some (ok tt) else some (err (file_exists vpath))

abbrev mkdir_real : Bool → Bytes → Result RealTarget → Option (Result (Unit {0}))
mkdir_real exist_ok vpath (err e) = some (err e)
mkdir_real exist_ok vpath (ok target_dir) = there exist_ok vpath
mkdir_real exist_ok vpath (ok target_file) = some (err (file_exists vpath))
mkdir_real exist_ok vpath (ok target_symlink) = some (err (path_escape vpath))
mkdir_real exist_ok vpath (ok target_absent) = none

abbrev mkdir_answer :
    Host → Bool → Bytes → OverlayMount → Option OverlayEntry → Option (Result (Unit {0}))
mkdir_answer h exist_ok vpath m (some (directory mtime)) = there exist_ok vpath
mkdir_answer h exist_ok vpath m (some deleted) = none
mkdir_answer h exist_ok vpath m (some _) = some (err (file_exists vpath))
mkdir_answer h exist_ok vpath m none = mkdir_real exist_ok vpath (target_kind h m vpath)

abbrev pub mkdir_parents : Host → Bytes → Bool → ℕ → Bytes → OverlayMount → Changed
mkdir_parents h rel true now vpath m = create_parents h now [] start_walk (split slash rel) m
mkdir_parents h rel false now vpath m = (ensure_parent_exists h rel vpath m, m)

abbrev pub then_created : Bytes → ℕ → Changed → Changed
then_created rel now (err e, n) = (err e, n)
then_created rel now (ok _, n) = created rel now n (λ p. (ok tt, p))

abbrev pub unless_there : Option (Result (Unit {0})) → OverlayMount → Changed → Changed
unless_there (some answer) m made = (answer, m)
unless_there none m made = made

unfoldable pub overlay_mkdir : Host → Bytes → Bool → Bool → ℕ → Bytes → OverlayMount → Changed
unfolding create_parents
overlay_mkdir h rel parents exist_ok now vpath m =
    unless_there (mkdir_answer h exist_ok vpath m (get rel m.state)) m
      (then_created rel now (mkdir_parents h rel parents now vpath m))

-- mount.overlayUnlink.
abbrev unlink_real : RealTarget → Bytes → Result (Unit {0})
unlink_real target_file vpath = ok tt
unlink_real target_dir vpath = err (is_a_directory_error vpath)
unlink_real target_symlink vpath = err (path_escape vpath)
unlink_real target_absent vpath = err (not_found_error vpath)

abbrev pub can_unlink :
    Host → Bytes → Bytes → OverlayMount → Option OverlayEntry → Result (Unit {0})
can_unlink h rel vpath m (some (directory mtime)) = err (is_a_directory_error vpath)
can_unlink h rel vpath m (some deleted) = err (not_found_error vpath)
can_unlink h rel vpath m (some _) = ok tt
can_unlink h rel vpath m none = do
  ensure_parent_exists h rel vpath m
  kind ← target_kind h m vpath
  unlink_real kind vpath

unfoldable pub overlay_unlink : Host → Bytes → Bytes → OverlayMount → Result OverlayMount
overlay_unlink h rel vpath m = can_unlink h rel vpath m (get rel m.state) >> store rel deleted m
