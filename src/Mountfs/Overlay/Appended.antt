-- ===== src/Mountfs/Overlay/Appended.antt =====
-- An append adds its data to what a read returned.
use montygo.Prelude.{
  Bool, Bytes, Option, ap, arith, false, if◌then◌else◌, inl, inr, length, none, refl, some, subst,
  sym, true, ℕ, ◌++◌, ◌<◌, ◌∙◌, ◌≡◌, ◌⊎◌,
}
use montygo.Mountfs.Errors.{bind-ok, check-ok, ok}
use montygo.Mountfs.OverlayState.{
  OverlayEntry, OverlayState, append_file, check_file_replacement, deleted, directory, file, get,
  max_uint64, real_file_ref, sat_add,
}
use montygo.Mountfs.Host.{
  Host, Looked, MemoryBudget, OpenFile, OsError, check, failed, found, opened, read_file_limited,
  shrink,
}
use montygo.Mountfs.Overlay.{
  OverlayMount, available_memory, checked_ref_path, commit_write_bytes, looked_up, overlay_read,
  read_entry, resolve_real, resolve_real_path_state, store,
}
use montygo.Mountfs.Overlay.Changes.{bytes_at, copy_and_append, existing_file_bytes, overlay_append}
use montygo.Mountfs.Overlay.Sources.{read_file_limited-whole}
use montygo.Mountfs.OverlayState.Appends.{append_file-Accounted}
use montygo.Mountfs.Overlay.Writing.{store-IsBounded}
use montygo.Mountfs.Overlay.Appending.{fits_word, overlay_append-ok}
use montygo.Mountfs.Overlay.Copying.{available_memory-ok, shrink-ok}
use montygo.Mountfs.PathPolicy.{dir_op, resolve_virtual_path}
use montygo.Mountfs.Overlay.Bounded.{IsSafe, slice_end}

-- The host opens no path that Stat does not find.
abbrev pub IsCoherent : Host → Type 0
IsCoherent h =
    (path : Bytes) (e : OsError) (f : OpenFile)
    → h.stat path ≡ failed e
    → h.open_file path ≡ opened f
    → ⊥

-- Two budgets that both allow a read read the same.
read_file_limited-same :
    (h : Host) (rel vpath : Bytes) (b c : MemoryBudget) (first second : Bytes)
    → b.available < max_uint64
    → c.available < max_uint64
    → read_file_limited h rel vpath b ≡ ok first
    → read_file_limited h rel vpath c ≡ ok second
    → first ≡ second
read_file_limited-same h rel vpath b c first second small tiny made again =
    let (fits, f, is_file, is_regular, whole) =
      read_file_limited-whole h rel vpath b first small made in
    let (fits2, g, is_file2, is_regular2, whole2) =
      read_file_limited-whole h rel vpath c second tiny again in
    let same : f ≡ g = ground (arith, is_file, is_file2) in
    whole ∙ ap (λ (f : OpenFile). f.bytes) same ∙ sym whole2

looked_up-ok :
    (l : Looked) (rel vpath : Bytes) (real : Option Bytes)
    → looked_up l rel vpath ≡ ok real
    → (real ≡ some (dir_op rel)) ⊎ ((e : OsError) × (l ≡ failed e))
looked_up-ok (found fi) rel vpath real made = inl (ground arith)
looked_up-ok (failed e) rel vpath real made = inr (e, refl)

-- Where a host file is read, resolveRealPathState finds it.
real_path-there :
    (h : Host) (m : OverlayMount) (vpath target old : Bytes) (budget : MemoryBudget)
    (real : Option Bytes)
    → IsCoherent h
    → budget.available < max_uint64
    → resolve_real h m vpath ≡ ok target
    → read_file_limited h (dir_op target) vpath budget ≡ ok old
    → resolve_real_path_state h m vpath ≡ ok real
    → real ≡ some (dir_op target)
unfolding resolve_real_path_state
real_path-there h m vpath target old budget real coherent small resolved read state =
    let (again, resolved2, e) =
      bind-ok (resolve_real h m vpath) (λ rel. looked_up (h.stat (dir_op rel)) rel vpath) real
        state in
    let (fits, f, is_file, is_regular, whole) =
      read_file_limited-whole h (dir_op target) vpath budget old small read in
    let same : again ≡ target = ground (arith, resolved, resolved2) in
    elim (looked_up-ok (h.stat (dir_op target)) target vpath real
      (subst (λ rel. looked_up (h.stat (dir_op rel)) rel vpath ≡ ok real) same e)) [
        | inl there ↦ there
        | inr (os, gone) ↦ absurd (coherent (dir_op target) os f gone is_file)
      ]

-- A read that succeeds, and existingFileBytes with a smaller budget, on the same entry.
existing_file_bytes-read :
    (h : Host) (rel vpath old content : Bytes) (b : MemoryBudget) (m : OverlayMount)
    (e : Option OverlayEntry)
    → IsCoherent h
    → m.mem_limit < max_uint64
    → b.available < max_uint64
    → read_entry h rel vpath m e ≡ ok old
    → existing_file_bytes h vpath b m e ≡ ok content
    → content ≡ old
unfolding read_entry existing_file_bytes
existing_file_bytes-read h rel vpath old content b m (some (file text mtime)) coherent small tiny
      read made =
    let (budget, left, e1) = bind-ok (available_memory m) _ old read in
    let (fits, same) = check-ok (check budget (length text)) (ok text) old e1 in
    let (fits2, same2) = check-ok (check b (length text)) (ok text) content made in
    ground (arith, same, same2)
existing_file_bytes-read h rel vpath old content b m (some (real_file_ref relative mtime size))
      coherent small tiny read made =
    let (ref, walked, e1) = bind-ok (checked_ref_path h relative vpath) _ old read in
    let (budget, left, e2) = bind-ok (available_memory m) _ old e1 in
    let (ref2, walked2, e3) = bind-ok (checked_ref_path h relative vpath) _ content made in
    let same : ref2 ≡ ref = ground (arith, walked, walked2) in
    read_file_limited-same h ref vpath b budget content old tiny
      (omega (arith, available_memory-ok m budget left, small))
      (subst (λ ref. read_file_limited h ref vpath b ≡ ok content) same e3) e2
existing_file_bytes-read h rel vpath old content b m (some (directory mtime)) coherent small tiny
      read made =
    absurd (ground arith)
existing_file_bytes-read h rel vpath old content b m (some deleted) coherent small tiny read made =
    absurd (ground arith)
existing_file_bytes-read h rel vpath old content b m none coherent small tiny read made =
    let (target, resolved, e1) = bind-ok (resolve_real h m vpath) _ old read in
    let (budget, left, e2) = bind-ok (available_memory m) _ old e1 in
    let (real, state, e3) =
      bind-ok (resolve_real_path_state h m vpath) (bytes_at h vpath b) content made in
    let fits : budget.available < max_uint64 =
      omega (arith, available_memory-ok m budget left, small) in
    let there = real_path-there h m vpath target old budget real coherent fits resolved e2 state in
    read_file_limited-same h (dir_op target) vpath b budget content old tiny fits
      (subst (λ real. bytes_at h vpath b real ≡ ok content) there e3) e2

copy_and_append-reads :
    (h : Host) (rel vpath data_ old : Bytes) (existing now : ℕ) (m n : OverlayMount)
    → IsCoherent h
    → m.mem_limit < max_uint64
    → overlay_read h rel vpath m ≡ ok old
    → copy_and_append h rel vpath data_ existing now m ≡ ok n
    → store rel (file (old ++ data_) now) m ≡ ok n
unfolding copy_and_append overlay_read
copy_and_append-reads h rel vpath data_ old existing now m n coherent small read made =
    let final = sat_add existing (length data_) in
    let (fits, e1) = check-ok (check_file_replacement rel final m.mem_limit m.state) _ n made in
    let (budget, left, e2) = bind-ok (available_memory m) _ n e1 in
    let (within, e3) = check-ok (check budget final) _ n e2 in
    let (shrunk, less, e4) = bind-ok (shrink budget (length data_)) _ n e3 in
    let (content, made_of, e5) =
      bind-ok (existing_file_bytes h vpath shrunk m (get rel m.state)) _ n e4 in
    let tiny : shrunk.available < max_uint64 = omega (
      arith,
      shrink-ok budget shrunk (length data_) less,
      available_memory-ok m budget left,
      small,
    ) in
    let same =
      existing_file_bytes-read h rel vpath old content shrunk m (get rel m.state) coherent small
        tiny read made_of in
    subst (λ text. store rel (file (text ++ data_) now) m ≡ ok n) same e5

commit-state : (count : ℕ) (m : OverlayMount) → (commit_write_bytes count m).state ≡ m.state
unfolding commit_write_bytes
commit-state count m = ground arith

-- What an append in memory leaves, when a read of the file returned its content.
grown-reads :
    (h : Host) (rel vpath data_ old : Bytes) (now : ℕ) (m : OverlayMount) (s : OverlayState)
    → IsSafe m
    → length data_ < slice_end
    → overlay_read h rel vpath m ≡ ok old
    → append_file rel data_ now m.mem_limit m.state ≡ ok (true, s)
    → s.entries rel ≡ some (file (old ++ data_) now)
unfolding overlay_read get read_entry
grown-reads h rel vpath data_ old now m s safe short read made =
    let (good, same, grew) =
      append_file-Accounted rel data_ now m.mem_limit m.state s true safe.bounded.accounted
        (omega (arith, safe.small))
        (λ content mtime here. fits_word m rel content data_ mtime safe short here) made in
    let (content, mtime, here, new, usage, fits) = grew refl in
    let was : read_entry h rel vpath m (some (file content mtime)) ≡ ok old =
      subst (λ e. read_entry h rel vpath m e ≡ ok old) here read in
    let (budget, left, e1) = bind-ok (available_memory m) _ old was in
    let (within, same_text) = check-ok (check budget (length content)) (ok content) old e1 in
    let is : content ≡ old = ground arith in new ∙ ap (λ text. some (file (text ++ data_) now)) is

-- On a host that opens no path that Stat does not find, and from an overlay mount whose account is
-- exact, within its limits and with less than 2^63 bytes of memory, whose files fit it: when a read
-- returns a file's content and an append of data that fits a Go slice succeeds there, then the
-- overlay has the file with that content and behind it the data, wherever the content came from.
pub overlay_append-reads :
    (h : Host) (rel vpath data_ old : Bytes) (now : ℕ) (m n : OverlayMount)
    → IsCoherent h
    → IsSafe m
    → length data_ < slice_end
    → resolve_virtual_path vpath m.virtual_path ≡ ok rel
    → overlay_read h rel vpath m ≡ ok old
    → overlay_append h vpath data_ now m ≡ ok n
    → n.state.entries rel ≡ some (file (old ++ data_) now)
overlay_append-reads h rel vpath data_ old now m n coherent safe short resolved read made =
    let (at, existing, charged, grown, s, p, resolved_at, checked, appended, stored, is) =
      overlay_append-ok h vpath data_ now m n made in
    let same : at ≡ rel = ground (arith, resolved, resolved_at) in
    let left : n.state ≡ p.state = ap (λ (m : OverlayMount). m.state) is ∙ commit-state charged p in
    ap (λ (s : OverlayState). s.entries rel) left
    ∙ either grown s p existing
        (subst (λ rel. append_file rel data_ now m.mem_limit m.state ≡ ok (grown, s)) same appended)
        (subst
          (λ rel.
            (if grown
              then ok (record m { state = s })
              else copy_and_append h rel vpath data_ existing now m)
            ≡ ok p)
          same stored)
  where
    either :
        (grown : Bool) (s : OverlayState) (p : OverlayMount) (existing : ℕ)
        → append_file rel data_ now m.mem_limit m.state ≡ ok (grown, s)
        → (if grown
            then ok (record m { state = s })
            else copy_and_append h rel vpath data_ existing now m)
          ≡ ok p
        → p.state.entries rel ≡ some (file (old ++ data_) now)
    either true s p existing appended stored =
        let is : record m { state = s } ≡ p = ground arith in
        subst (λ (p : OverlayMount). p.state.entries rel ≡ some (file (old ++ data_) now)) is
          (grown-reads h rel vpath data_ old now m s safe short read appended)
    either false s p existing appended stored =
        (store-IsBounded rel (file (old ++ data_) now) m p safe.bounded (omega (arith, safe.small))
          (copy_and_append-reads h rel vpath data_ old existing now m p coherent
            (omega (arith, safe.small)) read stored)).3
