-- ===== src/Mountfs/PathPolicy/Examples.antt =====
-- Runs of the path policy, and its theorems at concrete paths.
use montygo.Prelude.{
  All, Bytes, Lacks, List, [], bytes_eq, codes, contains_byte, cut_prefix, ends_with, has_prefix,
  last_index, refl, split, true, ◌++◌, ◌∷◌, ◌≡◌,
}
use montygo.Mountfs.PathPolicy.{
  any_drive, dir_op, is_windows_drive_prefix, reject_drive_or_unc_segments, reject_null_bytes,
  resolve_virtual_path, strip_mount_prefix,
}
use montygo.Value.Vpath.Segments.{IsName, push, resolve}
use montygo.Value.Vpath.Normal.{names}
use montygo.Value.Vpath.{
  build, is_normalized_virtual_path, is_special, normalize_virtual_path, rebuild, step,
}
use montygo.Mountfs.Errors.{err, no_mount_point, ok}
use montygo.Mountfs.PathPolicy.Strip.{joined}
use montygo.Mountfs.PathPolicy.Confinement.{resolve_complete, resolve_confined}

below_data : resolve_virtual_path (codes "/data/x/../y//z") (codes "/data") ≡ ok (codes "y/z")
unfolding resolve_virtual_path reject_null_bytes reject_drive_or_unc_segments any_drive
    is_windows_drive_prefix strip_mount_prefix normalize_virtual_path rebuild
    is_normalized_virtual_path build step split has_prefix ends_with last_index bytes_eq is_special
    cut_prefix contains_byte
below_data = refl

above_data :
    resolve_virtual_path (codes "/data/../y") (codes "/data")
    ≡ err (no_mount_point (codes "/data/../y"))
unfolding resolve_virtual_path reject_null_bytes reject_drive_or_unc_segments any_drive
    is_windows_drive_prefix strip_mount_prefix normalize_virtual_path rebuild
    is_normalized_virtual_path build step split has_prefix ends_with last_index bytes_eq is_special
    cut_prefix contains_byte
above_data = refl

data_normalized : is_normalized_virtual_path (codes "/data") ≡ true
unfolding is_normalized_virtual_path has_prefix ends_with split bytes_eq is_special
data_normalized = refl

resolve_confined_example :
    (ks : List Bytes) × All IsName ks
    × (codes "y/z" ≡ joined ks)
    × (names (codes "/data/x/../y//z") ≡ names (codes "/data") ++ ks)
    × Lacks 0 (codes "/data/x/../y//z")
    × Lacks b'\\' (codes "y/z")
resolve_confined_example =
    resolve_confined (codes "/data/x/../y//z") (codes "/data") (codes "y/z") data_normalized
      below_data

resolve_complete_example :
    resolve_virtual_path (codes "/data/x/../y//z") (codes "/data")
    ≡ ok (joined (codes "y" ∷ codes "z" ∷ []))
unfolding contains_byte any_drive is_windows_drive_prefix split step resolve push bytes_eq
resolve_complete_example =
    resolve_complete (codes "/data/x/../y//z") (codes "/data") (codes "y" ∷ codes "z" ∷ [])
      data_normalized refl refl refl refl

root_of_mount : dir_op [] ≡ codes "."
unfolding dir_op bytes_eq
root_of_mount = refl
