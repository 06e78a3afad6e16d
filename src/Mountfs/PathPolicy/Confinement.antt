-- ===== src/Mountfs/PathPolicy/Confinement.antt =====
-- A path that resolves stays below its mount, whatever the sandbox asks for.
use montygo.Prelude.{
  All, All-append_right, Bytes, Lacks, List, ap, ap₂, arith, contains_byte, contains_byte-Lacks,
  false, some, split, subst, sym, true, ◌++◌, ◌∙◌, ◌≡◌,
}
use montygo.Mountfs.PathPolicy.{
  any_drive, reject_drive_or_unc_segments, reject_null_bytes, resolve_virtual_path,
  strip_mount_prefix,
}
use montygo.Mountfs.PathPolicy.Strip.{joined, strip-append, strip-names}
use montygo.Mountfs.Errors.{ok}
use montygo.Value.Vpath.{is_normalized_virtual_path, normalize_virtual_path, slash}
use montygo.Value.Vpath.Normal.{fast_path, names, names-IsName, normalize_virtual_path-names}
use montygo.Value.Vpath.Segments.{IsName, path_of}

resolve_parts :
    (vpath mount rel : Bytes)
    → resolve_virtual_path vpath mount ≡ ok rel
    → (contains_byte 0 vpath ≡ false)
      × (strip_mount_prefix (normalize_virtual_path vpath) mount ≡ some rel)
      × (contains_byte b'\\' rel ≡ false)
      × (any_drive (split slash rel) ≡ false)
unfolding resolve_virtual_path reject_null_bytes reject_drive_or_unc_segments
resolve_parts vpath mount rel h = ground arith

-- When a path resolves in a normalized mount, the names that the path leads to are the mount's
-- names and behind them the names of the relative path: nothing climbs out. No name is empty, "."
-- or ".." or holds a slash, and the path sent holds no NUL and the relative path no backslash.
pub resolve_confined :
    (vpath mount rel : Bytes)
    → is_normalized_virtual_path mount ≡ true
    → resolve_virtual_path vpath mount ≡ ok rel
    → (ks : List Bytes) × All IsName ks
      × (rel ≡ joined ks)
      × (names vpath ≡ names mount ++ ks)
      × Lacks 0 vpath
      × Lacks b'\\' rel
resolve_confined vpath mount rel n h =
    let (nul, strip, back, drive) = resolve_parts vpath mount rel h in
    let normal = fast_path mount n in
    let placed : strip_mount_prefix (path_of (names vpath)) (path_of (names mount)) ≡ some rel =
      ap₂ strip_mount_prefix (sym (normalize_virtual_path-names vpath)) (sym normal) ∙ strip in
    let (ks, e, r) =
      strip-names (names vpath) (names mount) rel (names-IsName vpath) (names-IsName mount)
        placed in
    (
      ks,
      All-append_right IsName (names mount) ks (subst (All IsName) e (names-IsName vpath)),
      r,
      e,
      (contains_byte-Lacks 0 vpath).0 nul,
      (contains_byte-Lacks b'\\' rel).0 back,
    )

-- Conversely, a path whose names lie below the mount resolves to the rest of its names, unless it
-- holds a NUL, or the rest a backslash or a drive prefix.
pub resolve_complete :
    (vpath mount : Bytes) (ks : List Bytes)
    → is_normalized_virtual_path mount ≡ true
    → names vpath ≡ names mount ++ ks
    → contains_byte 0 vpath ≡ false
    → contains_byte b'\\' (joined ks) ≡ false
    → any_drive (split slash (joined ks)) ≡ false
    → resolve_virtual_path vpath mount ≡ ok (joined ks)
resolve_complete vpath mount ks n e nul back drive =
    let placed =
      ap₂ strip_mount_prefix (normalize_virtual_path-names vpath ∙ ap path_of e) (fast_path mount n)
      ∙ strip-append (names mount) ks (names-IsName mount) in
    unfold resolve_virtual_path reject_null_bytes reject_drive_or_unc_segments in
    ground (arith, placed)
