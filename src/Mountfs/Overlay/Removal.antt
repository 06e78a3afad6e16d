-- ===== src/Mountfs/Overlay/Removal.antt =====
-- internal/mountfs/overlay.go: removing directories, and opening files.
use montygo.Prelude.{
  Bool, Bytes, List, Option, [], bytes_eq, codes, false, if◌then◌else◌, none, not, some, true, ℕ,
  ◌&&◌, ◌++◌, ◌==◌, ◌||◌, ◌∷◌,
}
use montygo.Value.Vpath.{slash}
use montygo.Mountfs.Utf8.{lossy_utf8}
use montygo.Mountfs.Errors.{
  MountError, Result, directory_not_empty, err, io_err, ok, path_escape, reject_if, ◌>>=◌, ◌>>◌,
}
use montygo.Mountfs.PathPolicy.{dir_op, resolve_virtual_path}
use montygo.Mountfs.OverlayState.{OverlayEntry, deleted, directory, file, get, prefix_keys}
use montygo.Mountfs.Host.{
  Host, Listed, RealTarget, host_exists, host_is_dir, is_a_directory_error, listed, map_io,
  not_a_directory_error, not_found_error, target_absent, target_dir, target_file, target_symlink,
  unlisted,
}
use montygo.Mountfs.Overlay.{
  OverlayMount, ensure_parent_exists, overlay_write, resolve_real, resolve_real_path_state, store,
  target_kind,
}

abbrev pub directory_not_empty_error : Bytes → MountError
directory_not_empty_error vpath = io_err directory_not_empty (codes "Directory not empty") vpath

-- directoryPrefix.
abbrev pub directory_prefix : Bytes → Bytes
directory_prefix [] = []
directory_prefix (c ∷ rel) = (c ∷ rel) ++ (slash ∷ [])

-- `m.overlay.get(key).kind != entDeleted`; a key has an entry.
abbrev pub is_live : Option OverlayEntry → Bool
is_live (some deleted) = false
is_live _ = true

-- mount.overlayDirectoryHasChildren.
unfoldable pub any_child : OverlayMount → Bytes → List Bytes → Bool
any_child m rel [] = false
any_child m rel (key ∷ keys) =
    (not (bytes_eq key rel) && is_live (get key m.state)) || any_child m rel keys

unfoldable pub overlay_directory_has_children : OverlayMount → Bytes → Bool
unfolding any_child
overlay_directory_has_children m rel = any_child m rel (prefix_keys (directory_prefix rel) m.state)

-- mount.realDirectoryHasVisibleChildren. lossyUTF8 always returns a text.
abbrev shows : OverlayMount → Bytes → Option Bytes → Bool
shows m prefix none = true
shows m prefix (some name) = is_live (get (prefix ++ name) m.state)

unfoldable pub any_visible : OverlayMount → Bytes → List Bytes → Bool
any_visible m prefix [] = false
any_visible m prefix (name ∷ names) = shows m prefix (lossy_utf8 name) || any_visible m prefix names

unfoldable pub real_directory_has_visible_children :
    Listed → OverlayMount → Bytes → Bytes → Result Bool
unfolding any_visible
real_directory_has_visible_children (unlisted e) m rel vpath = err (map_io e vpath)
real_directory_has_visible_children (listed names) m rel vpath =
    ok (any_visible m (directory_prefix rel) names)

-- mount.overlayRmdir.
abbrev pub rmdir_real : Host → Bytes → Bytes → OverlayMount → Result (Unit {0})
rmdir_real h rel vpath m = do
  ensure_parent_exists h rel vpath m
  target ← resolve_real h m vpath
  let op = dir_op target
  reject_if (not (host_is_dir h op))
      (if host_exists h op then not_a_directory_error vpath else not_found_error vpath)
  visible ← real_directory_has_visible_children (h.read_dir op) m rel vpath
  reject_if (visible || overlay_directory_has_children m rel) (directory_not_empty_error vpath)

abbrev pub can_rmdir : Host → Bytes → Bytes → OverlayMount → Option OverlayEntry → Result (Unit {0})
can_rmdir h rel vpath m (some (directory mtime)) =
    reject_if (overlay_directory_has_children m rel) (directory_not_empty_error vpath)
can_rmdir h rel vpath m (some deleted) = err (not_found_error vpath)
can_rmdir h rel vpath m (some _) = err (not_a_directory_error vpath)
can_rmdir h rel vpath m none = rmdir_real h rel vpath m

unfoldable pub overlay_rmdir : Host → Bytes → Bytes → OverlayMount → Result OverlayMount
overlay_rmdir h rel vpath m =
    if bytes_eq rel []
    then err (path_escape vpath)
    else can_rmdir h rel vpath m (get rel m.state) >> store rel deleted m

-- mount.ensureAppendTargetExists: whether it creates the file.
abbrev pub append_real : RealTarget → Bytes → Result Bool
append_real target_dir vpath = err (is_a_directory_error vpath)
append_real target_symlink vpath = err (path_escape vpath)
append_real target_file vpath = ok false
append_real target_absent vpath = ok true

abbrev pub append_creates : Host → Bytes → Bytes → OverlayMount → Option OverlayEntry → Result Bool
append_creates h rel vpath m (some (directory mtime)) = err (is_a_directory_error vpath)
append_creates h rel vpath m (some deleted) = ensure_parent_exists h rel vpath m >> ok true
append_creates h rel vpath m (some _) = ok false
append_creates h rel vpath m none = do
  kind ← target_kind h m vpath
  creates ← append_real kind vpath
  ensure_parent_exists h rel vpath m
  ok creates

unfoldable pub ensure_append_target_exists : Host → Bytes → ℕ → OverlayMount → Result OverlayMount
ensure_append_target_exists h vpath now m = do
  rel ← resolve_virtual_path vpath m.virtual_path
  creates ← append_creates h rel vpath m (get rel m.state)
  if creates then store rel (file [] now) m else ok m

-- mount.overlayOpen, whose mode is canonical and so not empty.
abbrev open_real : Host → Bytes → Option Bytes → Result (Unit {0})
open_real h vpath none = err (not_found_error vpath)
open_real h vpath (some real) = reject_if (host_is_dir h real) (is_a_directory_error vpath)

abbrev pub can_open : Host → Bytes → OverlayMount → Option OverlayEntry → Result (Unit {0})
can_open h vpath m (some (directory mtime)) = err (is_a_directory_error vpath)
can_open h vpath m (some deleted) = err (not_found_error vpath)
can_open h vpath m (some _) = ok tt
can_open h vpath m none = resolve_real_path_state h m vpath >>= open_real h vpath

unfoldable pub overlay_open : Host → Bytes → Bytes → ℕ → OverlayMount → Result OverlayMount
unfolding ensure_append_target_exists
overlay_open h vpath [] now m = ok m
overlay_open h vpath (c ∷ mode) now m =
    if c == b'r'
    then resolve_virtual_path vpath m.virtual_path
      >>= (λ rel. can_open h vpath m (get rel m.state) >> ok m)
    else if c == b'w'
    then overlay_write h vpath [] now m
    else if c == b'a'
    then ensure_append_target_exists h vpath now m
    else ok m
