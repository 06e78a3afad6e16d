-- ===== src/Mountfs/Overlay/Examples.antt =====
-- An overlay mount at /mnt over a host directory with the file `old`, and the theorems at it.
use montygo.Value.Vpath.{is_normalized_virtual_path, is_special, normalize_virtual_path}
use montygo.Prelude.{
  Bool, Bytes, List, [], arith, bytes_eq, codes, contains_byte, cut_prefix, ends_with, false,
  has_prefix, if◌then◌else◌, inl, last_index, length, ltb, none, refl, some, split, true, ℕ, ◌++◌,
  ◌-◌, ◌∷◌, ◌≡◌, ◌≤◌,
}
use montygo.Mountfs.Errors.{err, memory_limit, not_found, ok}
use montygo.Mountfs.PathPolicy.{
  any_drive, dir_op, is_windows_drive_prefix, reject_drive_or_unc_segments, reject_null_bytes,
  resolve_virtual_path, strip_mount_prefix,
}
use montygo.Mountfs.OverlayState.{
  append_file, base_entry_usage, bytes_less, check_file_replacement, entry_usage, file, get, insert,
  insert_key, projected_usage, put, sat_add, sat_sub, search_strings,
}
use montygo.Mountfs.OverlayState.Accounting.{new_overlay_state-Accounted, total}
use montygo.Mountfs.Host.{
  FileInfo, Host, Looked, classify_target, failed, found, listed, not_found_error, opened, os_error,
  read_file_limited, refused, regular_type, reject_symlink_chain, walk_chain, walk_step,
}
use montygo.Mountfs.Overlay.{
  OverlayMount, available_memory, check_write_limit, commit_write_bytes, ensure_parent_exists,
  overlay_read, overlay_write, read_entry, reject_directory_target, resolve_real,
  resolve_real_path_state, store,
}
use montygo.Mountfs.Overlay.Writing.{IsBounded, SameMount, overlay_write-read}
use montygo.Mountfs.Overlay.Looking
use montygo.Mountfs.Overlay.Looking.{overlay_predicate, overlay_stat}
use montygo.Mountfs.Overlay.Gone.{removal-IsGone}
use montygo.Mountfs.Overlay.Appended.{IsCoherent, overlay_append-reads}
use montygo.Mountfs.Overlay.Calls.{
  Call, appends, makes, new_mount, new_mount-IsSafe, perform, perform_all, perform_all-IsBounded,
  unlinks, writes,
}
use montygo.Mountfs.Overlay.Sources.{IsSource, overlay_read-IsSource}
use montygo.Mountfs.Overlay.Changes.{
  copy_and_append, existing_file_bytes, existing_file_len, overlay_append, overlay_unlink,
}

abbrev missing : Looked
missing = failed (os_error not_found [])

abbrev old_info : FileInfo
old_info = record { file_type = regular_type; size = 2; mtime = 4 }

abbrev is_old : Bytes → Bool
is_old path = bytes_eq path (codes "old")

abbrev one_file : Host
one_file = record {
  lstat = λ at name. if is_old name then found old_info else missing;
  open_root = λ at name. some (os_error not_found []);
  stat = λ path. if is_old path then found old_info else missing;
  read_dir = λ path. listed (codes "old" ∷ []);
  open_file = λ path.
      if is_old path
      then opened
          (record { info = old_info; restat = found old_info; bytes = codes "hi"; fault = none })
      else refused (os_error not_found []);
}

abbrev empty_mount : OverlayMount
empty_mount = new_mount (codes "/mnt") (some 100) 2000

abbrev with_new : OverlayMount
with_new = perform one_file (writes (codes "/mnt/new") (codes "hello") 9) empty_mount

empty_mount-IsBounded : IsBounded empty_mount
unfolding new_mount
empty_mount-IsBounded = record {
  accounted = new_overlay_state-Accounted;
  in_memory = omega arith;
  in_writes = λ limit e. omega arith;
}

writes_new : overlay_write one_file (codes "/mnt/new") (codes "hello") 9 empty_mount ≡ ok with_new
unfolding new_mount perform overlay_write ensure_parent_exists reject_directory_target resolve_real
    reject_symlink_chain walk_chain walk_step classify_target check_write_limit
    check_file_replacement store commit_write_bytes get last_index sat_add sat_sub insert
    projected_usage put insert_key search_strings bytes_less entry_usage base_entry_usage
    resolve_virtual_path reject_null_bytes contains_byte strip_mount_prefix bytes_eq
    normalize_virtual_path is_normalized_virtual_path has_prefix ends_with split is_special
    cut_prefix reject_drive_or_unc_segments any_drive is_windows_drive_prefix dir_op
writes_new = refl

reads_old : overlay_read one_file (codes "old") (codes "/mnt/old") empty_mount ≡ ok (codes "hi")
unfolding new_mount overlay_read read_entry resolve_real reject_symlink_chain walk_chain walk_step
    classify_target available_memory read_file_limited get sat_add resolve_virtual_path
    reject_null_bytes contains_byte strip_mount_prefix bytes_eq normalize_virtual_path
    is_normalized_virtual_path has_prefix ends_with split is_special cut_prefix
    reject_drive_or_unc_segments any_drive is_windows_drive_prefix dir_op
reads_old = refl

overlay_write-read_example :
    IsBounded with_new
    × SameMount empty_mount with_new
    × (rel : Bytes) × (resolve_virtual_path (codes "/mnt/new") empty_mount.virtual_path ≡ ok rel)
    × ((k : Bytes)
        → bytes_eq k rel ≡ false
        → with_new.state.entries k ≡ empty_mount.state.entries k)
    × (overlay_read one_file rel (codes "/mnt/new") with_new ≡ (
        if ltb (with_new.mem_limit - with_new.state.usage) (length (codes "hello"))
        then err (memory_limit with_new.mem_limit)
        else ok (codes "hello")))
overlay_write-read_example =
    overlay_write-read one_file one_file (codes "/mnt/new") (codes "hello") 9 empty_mount with_new
      empty_mount-IsBounded (unfold new_mount in omega arith) writes_new

overlay_read-IsSource_example :
    (length (codes "hi") ≤ empty_mount.mem_limit - empty_mount.state.usage)
    × IsSource one_file
        (codes "/mnt/old")
        empty_mount
        (codes "hi")
        (empty_mount.state.entries (codes "old"))
overlay_read-IsSource_example =
    overlay_read-IsSource one_file (codes "old") (codes "/mnt/old") (codes "hi") empty_mount
      (unfold new_mount in omega arith) reads_old

abbrev some_calls : List (Host × Call)
some_calls =
    (one_file, writes (codes "/mnt/new") (codes "hello") 9)
    ∷ (one_file, appends (codes "/mnt/old") (codes "!") 10)
    ∷ (one_file, makes (codes "/mnt/a/b") true false 11)
    ∷ (one_file, unlinks (codes "/mnt/new"))
    ∷ []

perform_all-IsBounded_example :
    let m = perform_all some_calls (new_mount (codes "/mnt") (some 100) 2000) in
    (m.state.usage ≡ total m.state.entries m.state.keys)
    × (m.state.usage ≤ 2000)
    × ((limit : ℕ) → some 100 ≡ some limit → m.write_used ≤ limit)
perform_all-IsBounded_example =
    perform_all-IsBounded (codes "/mnt") (some 100) 2000 some_calls (omega arith)
      (omega arith, (omega arith, (tt, (tt, tt))))

abbrev without_old : OverlayMount
without_old = perform one_file (unlinks (codes "/mnt/old")) empty_mount

unlinks_old : overlay_unlink one_file (codes "old") (codes "/mnt/old") empty_mount ≡ ok without_old
unfolding new_mount perform overlay_unlink ensure_parent_exists reject_directory_target resolve_real
    reject_symlink_chain walk_chain walk_step classify_target check_write_limit
    check_file_replacement store commit_write_bytes get last_index sat_add sat_sub insert
    projected_usage put insert_key search_strings bytes_less entry_usage base_entry_usage
    resolve_virtual_path reject_null_bytes contains_byte strip_mount_prefix bytes_eq
    normalize_virtual_path is_normalized_virtual_path has_prefix ends_with split is_special
    cut_prefix reject_drive_or_unc_segments any_drive is_windows_drive_prefix dir_op
unlinks_old = refl

removal-IsGone_example :
    (overlay_predicate one_file Looking.exists (codes "old") (codes "/mnt/old") without_old ≡ false)
    × (overlay_stat one_file (codes "old") (codes "/mnt/old") without_old
        ≡ err (not_found_error (codes "/mnt/old")))
    × (overlay_read one_file (codes "old") (codes "/mnt/old") without_old
        ≡ err (not_found_error (codes "/mnt/old")))
    × ((k : Bytes)
        → bytes_eq k (codes "old") ≡ false
        → without_old.state.entries k ≡ empty_mount.state.entries k)
removal-IsGone_example =
    removal-IsGone one_file one_file Looking.exists (codes "old") (codes "/mnt/old") empty_mount
      without_old empty_mount-IsBounded (unfold new_mount in omega arith) (inl unlinks_old)

one_file-IsCoherent : IsCoherent one_file
one_file-IsCoherent path e f = test (is_old path)
  where
    test :
        (old : Bool)
        → (if old then found old_info else missing) ≡ failed e
        → (if old
            then opened (record {
              info = old_info;
              restat = found old_info;
              bytes = codes "hi";
              fault = none;
            })
            else refused (os_error not_found []))
          ≡ opened f
        → ⊥
    test true no_stat is_open = ground arith
    test false no_stat is_open = ground arith

abbrev with_more : OverlayMount
with_more = perform one_file (appends (codes "/mnt/old") (codes "!") 9) empty_mount

resolves_old : resolve_virtual_path (codes "/mnt/old") empty_mount.virtual_path ≡ ok (codes "old")
unfolding new_mount resolve_virtual_path reject_null_bytes contains_byte strip_mount_prefix bytes_eq
    normalize_virtual_path is_normalized_virtual_path has_prefix ends_with split is_special
    cut_prefix reject_drive_or_unc_segments any_drive is_windows_drive_prefix dir_op
resolves_old = refl

appends_old : overlay_append one_file (codes "/mnt/old") (codes "!") 9 empty_mount ≡ ok with_more
unfolding new_mount perform overlay_append copy_and_append existing_file_len existing_file_bytes
    resolve_real_path_state available_memory read_file_limited append_file ensure_parent_exists
    reject_directory_target resolve_real reject_symlink_chain walk_chain walk_step classify_target
    check_write_limit check_file_replacement store commit_write_bytes get last_index sat_add sat_sub
    insert projected_usage put insert_key search_strings bytes_less entry_usage base_entry_usage
    resolve_virtual_path reject_null_bytes contains_byte strip_mount_prefix bytes_eq
    normalize_virtual_path is_normalized_virtual_path has_prefix ends_with split is_special
    cut_prefix reject_drive_or_unc_segments any_drive is_windows_drive_prefix dir_op
appends_old = refl

overlay_append-reads_example :
    with_more.state.entries (codes "old") ≡ some (file (codes "hi" ++ codes "!") 9)
overlay_append-reads_example =
    overlay_append-reads one_file (codes "old") (codes "/mnt/old") (codes "!") (codes "hi") 9
      empty_mount with_more one_file-IsCoherent
      (new_mount-IsSafe (codes "/mnt") (some 100) 2000 (omega arith)) (omega arith) resolves_old
      reads_old appends_old
