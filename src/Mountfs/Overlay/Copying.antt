-- ===== src/Mountfs/Overlay/Copying.antt =====
-- What an append reads of a file that the overlay does not have is within the memory limit.
use montygo.Prelude.{Bytes, Option, arith, length, none, some, ℕ, ◌++◌, ◌≡◌, ◌≤◌}
use montygo.Mountfs.Errors.{bind-ok, check-ok, ok}
use montygo.Mountfs.OverlayState.{
  OverlayEntry, check_file_replacement, deleted, directory, file, get, real_file_ref, sat_add,
}
use montygo.Mountfs.Host.{
  Host, MemoryBudget, check, open_regular, read_at_most, read_file_limited, reject_non_regular,
  shrink, stated,
}
use montygo.Mountfs.Overlay.{
  OverlayMount, available_memory, checked_ref_path, resolve_real_path_state, store,
}
use montygo.Mountfs.Overlay.Changes.{bytes_at, copy_and_append, existing_file_bytes}

read_file_limited-ok :
    (h : Host) (rel vpath : Bytes) (b : MemoryBudget) (content : Bytes)
    → read_file_limited h rel vpath b ≡ ok content
    → length content ≤ b.available
unfolding read_file_limited
read_file_limited-ok h rel vpath b content made =
    let (regular, e1) = check-ok (reject_non_regular (h.stat rel) vpath) _ content made in
    let (f, open_as, e2) = bind-ok (open_regular (h.open_file rel) vpath) _ content e1 in
    let (fi, told, e2b) = bind-ok (stated f.restat vpath) _ content e2 in
    let (fits, e3) = check-ok (check b fi.size) _ content e2b in
    let (read, delivered, e4) =
      bind-ok (read_at_most f (sat_add b.available 1) vpath) _ content e3 in
    let (within, e5) = check-ok (check b (length read)) (ok read) content e4 in
    ground (arith, within, e5)

existing_file_bytes-ok :
    (h : Host) (vpath : Bytes) (b : MemoryBudget) (m : OverlayMount) (entry : Option OverlayEntry)
    (content : Bytes)
    → existing_file_bytes h vpath b m entry ≡ ok content
    → length content ≤ b.available
unfolding existing_file_bytes
existing_file_bytes-ok h vpath b m none content made =
    let (real, there, e) =
      bind-ok (resolve_real_path_state h m vpath) (bytes_at h vpath b) content made in
    at_real real e
  where
    at_real :
        (real : Option Bytes) → bytes_at h vpath b real ≡ ok content → length content ≤ b.available
    at_real none e = ground arith
    at_real (some rel) e = read_file_limited-ok h rel vpath b content e
existing_file_bytes-ok h vpath b m (some (file old mtime)) content made = ground arith
existing_file_bytes-ok h vpath b m (some (real_file_ref relative mtime size)) content made =
    let (ref, there, e) =
      bind-ok (checked_ref_path h relative vpath) (λ ref. read_file_limited h ref vpath b) content
        made in
    read_file_limited-ok h ref vpath b content e
existing_file_bytes-ok h vpath b m (some (directory mtime)) content made = absurd (ground arith)
existing_file_bytes-ok h vpath b m (some deleted) content made = ground arith

pub available_memory-ok :
    (m : OverlayMount) (b : MemoryBudget) → available_memory m ≡ ok b → b.available ≤ m.mem_limit
unfolding available_memory
available_memory-ok m b made = ground arith

pub shrink-ok : (b s : MemoryBudget) (n : ℕ) → shrink b n ≡ ok s → s.available ≤ b.available
shrink-ok b s n made = ground arith

pub copy_and_append-ok :
    (h : Host) (rel vpath data_ : Bytes) (existing now : ℕ) (m n : OverlayMount)
    → copy_and_append h rel vpath data_ existing now m ≡ ok n
    → (content : Bytes) × (length content ≤ m.mem_limit)
      × (store rel (file (content ++ data_) now) m ≡ ok n)
unfolding copy_and_append
copy_and_append-ok h rel vpath data_ existing now m n made =
    let final = sat_add existing (length data_) in
    let (fits, e1) = check-ok (check_file_replacement rel final m.mem_limit m.state) _ n made in
    let (budget, left, e2) = bind-ok (available_memory m) _ n e1 in
    let (within, e3) = check-ok (check budget final) _ n e2 in
    let (shrunk, less_left, e4) = bind-ok (shrink budget (length data_)) _ n e3 in
    let (content, read, e5) =
      bind-ok (existing_file_bytes h vpath shrunk m (get rel m.state)) _ n e4 in
    (
      content,
      omega (
        arith,
        existing_file_bytes-ok h vpath shrunk m (get rel m.state) content read,
        shrink-ok budget shrunk (length data_) less_left,
        available_memory-ok m budget left,
      ),
      e5,
    )
