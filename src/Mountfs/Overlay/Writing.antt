-- ===== src/Mountfs/Overlay/Writing.antt =====
-- What a write leaves behind, and what is read afterwards.
use montygo.Prelude.{
  Bytes, Option-cases, ap, arith, bytes_eq, false, if◌then◌else◌, inl, inr, length, ltb, refl, some,
  subst, sym, ℕ, ◌-◌, ◌<◌, ◌∙◌, ◌≡◌, ◌≤◌,
}
use montygo.Mountfs.Errors.{bind-ok, check-ok, err, memory_limit, ok}
use montygo.Mountfs.OverlayState.{
  OverlayEntry, OverlayState, check_file_replacement, file, get, insert, max_uint64, sat_add,
}
use montygo.Mountfs.OverlayState.Accounting.{Accounted}
use montygo.Mountfs.OverlayState.Budget.{insert-Accounted}
use montygo.Mountfs.Overlay.{
  OverlayMount, available_memory, check_write_limit, commit_write_bytes, ensure_parent_exists,
  overlay_read, overlay_write, read_entry, reject_directory_target, store,
}
use montygo.Mountfs.Host.{Host}
use montygo.Mountfs.PathPolicy.{resolve_virtual_path}

-- The overlay's account is exact, and the mount is within its two limits.
pub record IsBounded (m : OverlayMount) : Type 0 where
  pub accounted : Accounted m.state
  pub in_memory : m.state.usage ≤ m.mem_limit
  pub in_writes : (limit : ℕ) → m.write_limit ≡ some limit → m.write_used ≤ limit

-- The mount behind a change keeps its path and its limits.
abbrev pub SameMount : OverlayMount → OverlayMount → Type 0
SameMount m n =
    (n.virtual_path ≡ m.virtual_path)
    × (n.mem_limit ≡ m.mem_limit)
    × (n.write_limit ≡ m.write_limit)

pub store-IsBounded :
    (rel : Bytes) (e : OverlayEntry) (m n : OverlayMount)
    → IsBounded m
    → m.mem_limit < max_uint64
    → store rel e m ≡ ok n
    → IsBounded n
      × SameMount m n
      × (n.write_used ≡ m.write_used)
      × (n.state.entries rel ≡ some e)
      × ((k : Bytes) → bytes_eq k rel ≡ false → n.state.entries k ≡ m.state.entries k)
unfolding store
store-IsBounded rel e m n h small made =
    let (s, inserted, is) =
      bind-ok (insert rel e m.mem_limit m.state) (λ s. ok (record m { state = s })) n made in
    let (good, within, here, others) =
      insert-Accounted rel e m.mem_limit m.state s h.accounted small inserted in
    let same : n ≡ record m { state = s } = ground arith in
    rw same (
      record { accounted = good; in_memory = within; in_writes = h.in_writes },
      (refl, refl, refl),
      refl,
      here,
      others,
    )

pub commit-IsBounded :
    (count : ℕ) (m : OverlayMount)
    → IsBounded m
    → check_write_limit count m ≡ ok tt
    → IsBounded (commit_write_bytes count m)
      × SameMount m (commit_write_bytes count m)
      × ((commit_write_bytes count m).state ≡ m.state)
unfolding check_write_limit commit_write_bytes
commit-IsBounded count m h checked = elim (Option-cases m.write_limit) [
  | inl free ↦ rw free (
    record {
      accounted = h.accounted;
      in_memory = h.in_memory;
      in_writes = λ limit e. h.in_writes limit (free ∙ e);
    },
    (refl, refl, refl),
    refl,
  )
  | inr (most, limited) ↦ rw limited (
    record {
      accounted = h.accounted;
      in_memory = h.in_memory;
      in_writes = λ limit e. ground (arith, within most limited, e);
    },
    (refl, refl, refl),
    refl,
  )
]
  where
    within : (most : ℕ) → m.write_limit ≡ some most → sat_add m.write_used count ≤ most
    within most e = ground (arith, checked, e)

pub overlay_write-ok :
    (h : Host) (vpath data_ : Bytes) (now : ℕ) (m n : OverlayMount)
    → overlay_write h vpath data_ now m ≡ ok n
    → (rel : Bytes) × (p : OverlayMount) × (resolve_virtual_path vpath m.virtual_path ≡ ok rel)
      × (ensure_parent_exists h rel vpath m ≡ ok tt)
      × (check_write_limit (length data_) m ≡ ok tt)
      × (store rel (file data_ now) m ≡ ok p)
      × (n ≡ commit_write_bytes (length data_) p)
unfolding overlay_write
overlay_write-ok h vpath data_ now m n made =
    let (a, e1) = check-ok (check_write_limit (length data_) m) _ n made in
    let (rel, b, e2) = bind-ok (resolve_virtual_path vpath m.virtual_path) _ n e1 in
    let (c, e3) = check-ok (ensure_parent_exists h rel vpath m) _ n e2 in
    let (d, e4) = check-ok (reject_directory_target h rel vpath m) _ n e3 in
    let (e, e5) = check-ok (check_file_replacement rel (length data_) m.mem_limit m.state) _ n e4 in
    let (p, f, e6) = bind-ok (store rel (file data_ now) m) _ n e5 in
    (rel, p, b, c, a, f, ground arith)

pub check_write_limit_same :
    (count : ℕ) (m p : OverlayMount)
    → p.write_limit ≡ m.write_limit
    → p.write_used ≡ m.write_used
    → check_write_limit count m ≡ ok tt
    → check_write_limit count p ≡ ok tt
unfolding check_write_limit
check_write_limit_same count m p e f h = ground arith

overlay_read-file :
    (h : Host) (rel vpath content : Bytes) (mtime : ℕ) (m : OverlayMount)
    → m.state.usage ≤ m.mem_limit
    → m.state.entries rel ≡ some (file content mtime)
    → overlay_read h rel vpath m ≡ (
        if ltb (m.mem_limit - m.state.usage) (length content)
        then err (memory_limit m.mem_limit)
        else ok content)
unfolding overlay_read get
overlay_read-file h rel vpath content mtime m fits here =
    rw here (unfold read_entry available_memory in ground arith)

-- An overlay whose account is exact, within its limits and below 2^64 - 1 of memory: where
-- overlayWrite succeeds, the mount is so again and has the file at the path that resolves, and all
-- other entries are those of before. Reading that file then gives the data, whatever the host
-- holds, unless the data is more than the memory that is left.
pub overlay_write-read :
    (h later : Host) (vpath data_ : Bytes) (now : ℕ) (m n : OverlayMount)
    → IsBounded m
    → m.mem_limit < max_uint64
    → overlay_write h vpath data_ now m ≡ ok n
    → IsBounded n
      × SameMount m n
      × (rel : Bytes) × (resolve_virtual_path vpath m.virtual_path ≡ ok rel)
      × ((k : Bytes) → bytes_eq k rel ≡ false → n.state.entries k ≡ m.state.entries k)
      × (overlay_read later rel vpath n ≡ (
          if ltb (n.mem_limit - n.state.usage) (length data_)
          then err (memory_limit n.mem_limit)
          else ok data_))
overlay_write-read h later vpath data_ now m n bounded small made =
    let (rel, p, resolved, parents, checked, stored, is) =
      overlay_write-ok h vpath data_ now m n made in
    let (good, same, used, here, others) =
      store-IsBounded rel (file data_ now) m p bounded small stored in
    let (whole, alike, state_same) =
      commit-IsBounded (length data_) p good
        (check_write_limit_same (length data_) m p same.2 used checked) in
    let there : n.state ≡ p.state = ap (λ (u : OverlayMount). u.state) is ∙ state_same in
    let entries : (k : Bytes) → n.state.entries k ≡ p.state.entries k =
      λ k. ap (λ (u : OverlayState). u.entries k) there in
    let bounds : IsBounded n = subst IsBounded (sym is) whole in
    (
      bounds,
      ground (arith, same, alike, is),
      rel,
      resolved,
      (λ k apart. entries k ∙ others k apart),
      overlay_read-file later rel vpath data_ now n bounds.in_memory (entries rel ∙ here),
    )
