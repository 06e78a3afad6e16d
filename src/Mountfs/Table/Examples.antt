-- ===== src/Mountfs/Table/Examples.antt =====
-- Runs of the routing, and its theorems at concrete mounts.
use montygo.Prelude.{
  All, Bytes, List, [], bytes_eq, codes, contains_byte, cut_prefix, ends_with, false, get_elem?,
  has_prefix, last_index, length, none, refl, some, split, true, ℕ, ◌↔◌, ◌∷◌, ◌≡◌, ◌≤◌,
}
use montygo.Mountfs.Table.{
  Mode, Mount, canonical_mode, execute, executor, fails, find_from, find_mount, handle,
  is_write_call, new_table, next_is_slash, path_matches_mount, push, push_all, rejection, route,
  runs, same_mount, with_overlay,
}
use montygo.Wire.OsCall.{OsCall, is_fs, is_write, op_rename, op_unlink}
use montygo.Mountfs.Table.Matching.{find_mount_longest, matches}
use montygo.Value.Vpath.{
  build, is_normalized_virtual_path, is_special, normalize_virtual_path, rebuild, step,
}
use montygo.Mountfs.PathPolicy.{behind, component, is_overlong, overlong_from, reject_overlong_path}
use montygo.Mountfs.Table.Routing.{DstChecked, handle_runs}
use montygo.Mountfs.Errors.{MountError}

abbrev specs : List Mount
specs =
    record { virtual_path = codes "/data"; mode = Mode.read_only }
    ∷ record { virtual_path = codes "/data/cache"; mode = Mode.overlay }
    ∷ []

abbrev call : ℕ → Bytes → OsCall
call op path = record {
  op = op;
  path = path;
  dst = [];
  mode = [];
  parents = false;
  exist_ok = false;
}

inner_first : find_mount (new_table specs).mounts (codes "/data/cache/x") ≡ some 0
unfolding find_mount find_from new_table push_all push path_matches_mount next_is_slash
    normalize_virtual_path rebuild is_normalized_virtual_path build step split has_prefix ends_with
    last_index bytes_eq is_special cut_prefix
inner_first = refl

uncovered : find_mount (new_table specs).mounts (codes "/etc/x") ≡ none
unfolding find_mount find_from new_table push_all push path_matches_mount next_is_slash
    normalize_virtual_path rebuild is_normalized_virtual_path build step split has_prefix ends_with
    last_index bytes_eq is_special cut_prefix
uncovered = refl

removed_in_overlay :
    handle (new_table specs).mounts (call op_unlink (codes "/data/cache/x"))
    ≡ runs 0 with_overlay []
unfolding handle rejection route same_mount execute executor canonical_mode is_fs is_write_call
    is_write find_mount find_from new_table push_all push path_matches_mount next_is_slash
    normalize_virtual_path rebuild is_normalized_virtual_path build step split has_prefix ends_with
    last_index bytes_eq is_special cut_prefix reject_overlong_path is_overlong overlong_from
    component behind contains_byte
removed_in_overlay = refl

kept_read_only :
    handle (new_table specs).mounts (call op_unlink (codes "/data/x"))
    ≡ fails (MountError.read_only (codes "/data/x"))
unfolding handle rejection route same_mount execute executor canonical_mode is_fs is_write_call
    is_write find_mount find_from new_table push_all push path_matches_mount next_is_slash
    normalize_virtual_path rebuild is_normalized_virtual_path build step split has_prefix ends_with
    last_index bytes_eq is_special cut_prefix reject_overlong_path is_overlong overlong_from
    component behind contains_byte
kept_read_only = refl

find_mount_longest_example :
    (m : Mount) × (get_elem? (new_table specs).mounts 0 ≡ some m)
    × (matches (normalize_virtual_path (codes "/data/cache/x")) m ≡ true)
    × All
        (λ x.
          matches (normalize_virtual_path (codes "/data/cache/x")) x ≡ true
          → length x.virtual_path ≤ length m.virtual_path)
        specs
find_mount_longest_example = find_mount_longest specs (codes "/data/cache/x") 0 inner_first

handle_runs_example :
    (m : Mount) × (get_elem? (new_table specs).mounts 0 ≡ some m)
    × (is_fs (call op_unlink (codes "/data/cache/x")) ≡ true)
    × (is_overlong (codes "/data/cache/x") ≡ false)
    × (contains_byte 0 (codes "/data/cache/x") ≡ false)
    × (find_mount (new_table specs).mounts (codes "/data/cache/x") ≡ some 0)
    × ((op_unlink ≡ op_rename)
        → DstChecked (new_table specs).mounts (call op_unlink (codes "/data/cache/x")) 0)
    × ((m.mode ≡ Mode.read_only)
        → is_write_call (call op_unlink (codes "/data/cache/x")) [] ≡ false)
    × ((with_overlay ≡ with_overlay) ↔ (m.mode ≡ Mode.overlay))
handle_runs_example =
    handle_runs (new_table specs).mounts (call op_unlink (codes "/data/cache/x")) 0 with_overlay []
      removed_in_overlay
