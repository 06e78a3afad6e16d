-- ===== src/Mountfs/Overlay/Looking.antt =====
-- internal/mountfs/overlay.go: the calls that ask what is at a path.
use montygo.Prelude.{
  Bool, Bytes, Option, [], false, if◌then◌else◌, last_index, length, none, some, take, true, ℕ,
  ◌&&◌,
}
use montygo.Value.Vpath.{slash}
use montygo.Mountfs.Errors.{Result, err, ok, ◌>>=◌}
use montygo.Mountfs.PathPolicy.{dir_op, resolve_virtual_path}
use montygo.Mountfs.OverlayState.{OverlayEntry, deleted, directory, file, get, real_file_ref}
use montygo.Mountfs.Host.{
  Host, Looked, dir_type, failed, found, found_as, host_is_symlink, is_found, map_io,
  not_found_error, regular_type, reject_symlink_chain,
}
use montygo.Mountfs.Overlay.{OverlayMount, checked_ref_path, resolve_real}

-- mount.overlayPredicate for Exists, IsFile and IsDir. A path that does not resolve is not there.
pub data Predicate : Type 0 where
  exists is_file is_dir : Predicate

abbrev pub by_kind : Predicate → OverlayEntry → Bool
by_kind exists deleted = false
by_kind exists _ = true
by_kind is_file (file content mtime) = true
by_kind is_file (real_file_ref relative mtime size) = true
by_kind is_file _ = false
by_kind is_dir (directory mtime) = true
by_kind is_dir _ = false

abbrev pub by_host : Predicate → Looked → Bool
by_host exists l = is_found l
by_host is_file l = found_as regular_type l
by_host is_dir l = found_as dir_type l

abbrev pub host_answer : Host → Predicate → Result Bytes → Bool
host_answer h p (err e) = false
host_answer h p (ok target) =
    is_found (h.stat (dir_op target)) && by_host p (h.stat (dir_op target))

abbrev pub seen_as : Host → Predicate → Bytes → OverlayMount → Option OverlayEntry → Bool
seen_as h p vpath m none = host_answer h p (resolve_real h m vpath)
seen_as h p vpath m (some e) = by_kind p e

unfoldable pub overlay_predicate : Host → Predicate → Bytes → Bytes → OverlayMount → Bool
overlay_predicate h p rel vpath m = seen_as h p vpath m (get rel m.state)

-- mount.overlayIsSymlink.
abbrev walks : Result (Unit {0}) → Bool
walks (ok _) = true
walks (err e) = false

abbrev parent_of : Bytes → Bytes
parent_of op = elim (last_index slash op) [ none ↦ [] | some i ↦ take i op ]

abbrev symlink_at : Host → Bytes → Result Bytes → Bool
symlink_at h vpath (err e) = false
symlink_at h vpath (ok target) =
    let op = dir_op target in
    walks (reject_symlink_chain h (parent_of op) vpath) && host_is_symlink h op

unfoldable pub overlay_is_symlink : Host → Bytes → Bytes → OverlayMount → Bool
overlay_is_symlink h rel vpath m = elim (get rel m.state) [
  | some e ↦ false
  | none ↦ symlink_at h vpath (resolve_virtual_path vpath m.virtual_path)
]

-- fileStat and dirStat, and mount.overlayStat.
pub data StatResult : Type 0 where
  file_stat : ℕ → ℕ → StatResult
  dir_stat : ℕ → StatResult

abbrev pub host_stat : Looked → Bytes → Result StatResult
host_stat (failed e) vpath = err (map_io e vpath)
host_stat (found fi) vpath =
    ok (if found_as dir_type (found fi) then dir_stat fi.mtime else file_stat fi.size fi.mtime)

unfoldable pub stat_entry : Host → Bytes → OverlayMount → Option OverlayEntry → Result StatResult
stat_entry h vpath m none = do
  target ← resolve_real h m vpath
  host_stat (h.stat (dir_op target)) vpath
stat_entry h vpath m (some (file content mtime)) = ok (file_stat (length content) mtime)
stat_entry h vpath m (some (real_file_ref relative mtime size)) = do
  ref ← checked_ref_path h relative vpath
  ok (file_stat size mtime)
stat_entry h vpath m (some (directory mtime)) = ok (dir_stat mtime)
stat_entry h vpath m (some deleted) = err (not_found_error vpath)

unfoldable pub overlay_stat : Host → Bytes → Bytes → OverlayMount → Result StatResult
unfolding stat_entry
overlay_stat h rel vpath m = stat_entry h vpath m (get rel m.state)
