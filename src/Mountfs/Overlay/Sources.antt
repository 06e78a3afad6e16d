-- ===== src/Mountfs/Overlay/Sources.antt =====
-- Where the content comes from that a read returns.
use montygo.Prelude.{
  Bytes, Option, ap, arith, length, length-take, none, refl, some, subst, sym, ℕ, ◌-◌, ◌<◌, ◌∙◌,
  ◌≡◌, ◌≤◌,
}
use montygo.Mountfs.Errors.{bind-ok, check-ok, ok, ◌>>◌}
use montygo.Mountfs.Host.{
  FileType, Host, MemoryBudget, OpenFile, Opened, check, dir_type, irregular_type, open_regular,
  opened, read_at_most, read_file_limited, refused, regular_only, regular_type, reject_non_regular,
  reject_symlink_chain, stated, symlink_type, unstated,
}
use montygo.Mountfs.OverlayState.{
  OverlayEntry, deleted, directory, file, get, max_uint64, real_file_ref, sat_add,
}
use montygo.Mountfs.Overlay.Symlinks.{IsPlainPath, reject_symlink_chain-IsPlainPath}
use montygo.Mountfs.Overlay.{
  OverlayMount, available_memory, checked_ref_path, overlay_read, read_entry, resolve_real,
}
use montygo.Mountfs.PathPolicy.{dir_op, resolve_virtual_path}

regular_only-ok : (t : FileType) (vpath : Bytes) → regular_only t vpath ≡ ok tt → t ≡ regular_type
regular_only-ok dir_type vpath e = absurd (ground arith)
regular_only-ok regular_type vpath e = refl
regular_only-ok symlink_type vpath e = absurd (ground arith)
regular_only-ok irregular_type vpath e = absurd (ground arith)

open_regular-ok :
    (o : Opened) (vpath : Bytes) (f : OpenFile)
    → open_regular o vpath ≡ ok f
    → (o ≡ opened f) × (f.info.file_type ≡ regular_type)
open_regular-ok (refused e) vpath f made = absurd (ground arith)
open_regular-ok (unstated e) vpath f made = absurd (ground arith)
open_regular-ok (opened g) vpath f made =
    let (regular, same) = check-ok (regular_only g.info.file_type vpath) (ok g) f made in
    let is : g ≡ f = ground arith in
    (
      ap opened is,
      subst (λ (f : OpenFile). f.info.file_type ≡ regular_type) is
          (regular_only-ok g.info.file_type vpath regular),
    )

read_at_most-ok :
    (f : OpenFile) (limit : ℕ) (vpath read : Bytes)
    → read_at_most f limit vpath ≡ ok read
    → length read < limit
    → read ≡ f.bytes
read_at_most-ok f limit vpath read made less = ground (arith, length-take limit f.bytes)

pub read_file_limited-whole :
    (h : Host) (rel vpath : Bytes) (b : MemoryBudget) (content : Bytes)
    → b.available < max_uint64
    → read_file_limited h rel vpath b ≡ ok content
    → (length content ≤ b.available)
      × (f : OpenFile) × (h.open_file rel ≡ opened f)
      × (f.info.file_type ≡ regular_type)
      × (content ≡ f.bytes)
unfolding read_file_limited
read_file_limited-whole h rel vpath b content small made =
    let (regular, e1) = check-ok (reject_non_regular (h.stat rel) vpath) _ content made in
    let (f, open_as, e2) = bind-ok (open_regular (h.open_file rel) vpath) _ content e1 in
    let (fi, told, e2b) = bind-ok (stated f.restat vpath) _ content e2 in
    let (fits, e3) = check-ok (check b fi.size) _ content e2b in
    let (read, delivered, e4) =
      bind-ok (read_at_most f (sat_add b.available 1) vpath) _ content e3 in
    let (within, e5) = check-ok (check b (length read)) (ok read) content e4 in
    let (is_file, is_regular) = open_regular-ok (h.open_file rel) vpath f open_as in
    let same : read ≡ content = ground arith in
    let fits : length read ≤ b.available = ground arith in
    (
      ground (arith, fits, same),
      f,
      is_file,
      is_regular,
      sym same
          ∙ read_at_most-ok f (sat_add b.available 1) vpath read delivered
              (unfold sat_add in ground (arith, fits, small)),
    )

resolve_real-ok :
    (h : Host) (m : OverlayMount) (vpath rel : Bytes)
    → resolve_real h m vpath ≡ ok rel
    → (resolve_virtual_path vpath m.virtual_path ≡ ok rel) × IsPlainPath h (dir_op rel)
unfolding resolve_real
resolve_real-ok h m vpath rel made =
    let (target, resolved, e1) = bind-ok (resolve_virtual_path vpath m.virtual_path) _ rel made in
    let (plain, same) =
      check-ok (reject_symlink_chain h (dir_op target) vpath) (ok target) rel e1 in
    let is : target ≡ rel = ground arith in
    (
      resolved ∙ same,
      subst (λ rel. IsPlainPath h (dir_op rel)) is
          (reject_symlink_chain-IsPlainPath h (dir_op target) vpath plain),
    )

-- The content is a regular host file's whole content, at a path on which no symlink lies.
abbrev pub IsHostContent : Host → Bytes → Bytes → Type 0
IsHostContent h path content =
    IsPlainPath h path
    × (f : OpenFile) × (h.open_file path ≡ opened f)
    × (f.info.file_type ≡ regular_type)
    × (content ≡ f.bytes)

abbrev pub IsSource : Host → Bytes → OverlayMount → Bytes → Option OverlayEntry → Type 0
IsSource h vpath m content none =
    (rel : Bytes) × (resolve_virtual_path vpath m.virtual_path ≡ ok rel)
    × IsHostContent h (dir_op rel) content
IsSource h vpath m content (some (file text mtime)) = content ≡ text
IsSource h vpath m content (some (real_file_ref relative mtime size)) =
    IsHostContent h relative content
IsSource h vpath m content (some _) = ⊥

pub available_memory-is :
    (m : OverlayMount) (b : MemoryBudget)
    → available_memory m ≡ ok b
    → b.available ≡ m.mem_limit - m.state.usage
unfolding available_memory
available_memory-is m b made = ground arith

host_content :
    (h : Host) (vpath path content : Bytes) (m : OverlayMount) (b : MemoryBudget)
    → m.mem_limit < max_uint64
    → available_memory m ≡ ok b
    → IsPlainPath h path
    → read_file_limited h path vpath b ≡ ok content
    → (length content ≤ m.mem_limit - m.state.usage) × IsHostContent h path content
host_content h vpath path content m b small left plain read =
    let is = available_memory-is m b left in
    let (fits, f, is_file, is_regular, whole) =
      read_file_limited-whole h path vpath b content (omega (arith, is, small)) read in
    (omega (arith, fits, is), (plain, f, is_file, is_regular, whole))

read_entry-IsSource :
    (h : Host) (rel vpath content : Bytes) (m : OverlayMount) (e : Option OverlayEntry)
    → m.mem_limit < max_uint64
    → read_entry h rel vpath m e ≡ ok content
    → (length content ≤ m.mem_limit - m.state.usage) × IsSource h vpath m content e
unfolding read_entry checked_ref_path
read_entry-IsSource h rel vpath content m none small made =
    let (target, resolved, e1) = bind-ok (resolve_real h m vpath) _ content made in
    let (b, left, e2) = bind-ok (available_memory m) _ content e1 in
    let (at, plain) = resolve_real-ok h m vpath target resolved in
    let found_there = host_content h vpath (dir_op target) content m b small left plain e2 in
    (found_there.0, (target, at, found_there.1))
read_entry-IsSource h rel vpath content m (some (file text mtime)) small made =
    let (b, left, e1) = bind-ok (available_memory m) _ content made in
    let (fits, same) = check-ok (check b (length text)) (ok text) content e1 in
    let is = available_memory-is m b left in
    let equal : content ≡ text = ground arith in (ground (arith, fits, is, ap length equal), equal)
read_entry-IsSource h rel vpath content m (some (real_file_ref relative mtime size)) small made =
    let (ref, walked, e1) =
      bind-ok (reject_symlink_chain h relative vpath >> ok relative) _ content made in
    let (plain, same) = check-ok (reject_symlink_chain h relative vpath) (ok relative) ref walked in
    let (b, left, e2) = bind-ok (available_memory m) _ content e1 in
    let is : ref ≡ relative = ground arith in
    host_content h vpath relative content m b small left
      (reject_symlink_chain-IsPlainPath h relative vpath plain)
      (subst (λ ref. read_file_limited h ref vpath b ≡ ok content) is e2)
read_entry-IsSource h rel vpath content m (some (directory mtime)) small made =
    absurd (ground arith)
read_entry-IsSource h rel vpath content m (some deleted) small made = absurd (ground arith)

-- What overlayRead returns when it succeeds, in a mount with less than 2^64 - 1 bytes of memory: the
-- content of the overlay's file, when the overlay has one at the path; the whole content of the
-- regular host file that a moved file refers to; or, when the overlay has nothing there, that of the
-- host file at the path that resolves. No symlink lies on the path of a host file, below the mount.
-- The content is no longer than the memory that is left. Of a directory or a deleted file nothing
-- is returned.
pub overlay_read-IsSource :
    (h : Host) (rel vpath content : Bytes) (m : OverlayMount)
    → m.mem_limit < max_uint64
    → overlay_read h rel vpath m ≡ ok content
    → (length content ≤ m.mem_limit - m.state.usage)
      × IsSource h vpath m content (m.state.entries rel)
unfolding overlay_read get
overlay_read-IsSource h rel vpath content m small made =
    read_entry-IsSource h rel vpath content m (m.state.entries rel) small made
