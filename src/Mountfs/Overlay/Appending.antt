-- ===== src/Mountfs/Overlay/Appending.antt =====
-- What an append leaves behind.
use montygo.Prelude.{
  Bool, Bool-cases, Bytes, Option, ap, arith, bytes_eq, bytes_eq_iff, false, if◌then◌else◌, inl,
  inr, length, length-append, refl, some, subst, sym, true, ℕ, ◌++◌, ◌<◌, ◌∙◌, ◌≡◌, ◌≤◌,
}
use montygo.Mountfs.Errors.{bind-ok, check-ok, ok}
use montygo.Mountfs.OverlayState.{
  OverlayEntry, OverlayState, append_file, assign, file, get, max_uint64,
}
use montygo.Mountfs.Host.{Host}
use montygo.Mountfs.Overlay.{
  OverlayMount, check_write_limit, commit_write_bytes, ensure_parent_exists,
  reject_directory_target,
}
use montygo.Mountfs.Overlay.Changes.{charge, copy_and_append, existing_file_len, overlay_append}
use montygo.Mountfs.Overlay.Bounded.{
  IsSafe, Steady, Steady-trans, commit-Steady, file_size, slice_end, store-Steady,
}
use montygo.Mountfs.OverlayState.Appends.{append_file-Accounted, append_ok}
use montygo.Mountfs.PathPolicy.{resolve_virtual_path}
use montygo.Mountfs.Overlay.Writing.{check_write_limit_same, store-IsBounded}
use montygo.Mountfs.Overlay.Copying.{copy_and_append-ok}

copy_and_append-Steady :
    (h : Host) (rel vpath data_ : Bytes) (existing now : ℕ) (m n : OverlayMount)
    → IsSafe m
    → length data_ < slice_end
    → copy_and_append h rel vpath data_ existing now m ≡ ok n
    → Steady m n
copy_and_append-Steady h rel vpath data_ existing now m n safe short made =
    let (content, within, stored) = copy_and_append-ok h rel vpath data_ existing now m n made in
    store-Steady rel (file (content ++ data_) now) m n safe
      (λ all mtime e. ground (arith, length-append content data_, within, safe.small, short, e))
      stored

-- A file and data that fit their slices fit a word together.
pub fits_word :
    (m : OverlayMount) (rel content data_ : Bytes) (mtime : ℕ)
    → IsSafe m
    → length data_ < slice_end
    → m.state.entries rel ≡ some (file content mtime)
    → length (content ++ data_) ≤ max_uint64
fits_word m rel content data_ mtime safe short here =
    omega (arith, length-append content data_, safe.sized rel content mtime here, safe.small, short)

other_entry :
    (m s : OverlayState) (rel k : Bytes) (e : Option OverlayEntry) (usage : ℕ)
    → bytes_eq k rel ≡ false
    → s ≡ record m { entries = assign m.entries rel e; usage = usage }
    → m.entries k ≡ s.entries k
other_entry m s rel k e usage apart is =
    sym (ap (λ (u : OverlayState). u.entries k) is ∙ rw apart refl)

-- An append to a file of the overlay.
append_file-Steady :
    (rel data_ : Bytes) (now : ℕ) (m : OverlayMount) (s : OverlayState) (grown : Bool)
    → IsSafe m
    → length data_ < slice_end
    → append_file rel data_ now m.mem_limit m.state ≡ ok (grown, s)
    → Steady m (record m { state = s })
append_file-Steady rel data_ now m s grown safe short made =
    let (good, same, grew) =
      append_file-Accounted rel data_ now m.mem_limit m.state s grown safe.bounded.accounted
        (omega (arith, safe.small))
        (λ content old here. fits_word m rel content data_ old safe short here) made in
    elim (append_ok rel data_ now m.mem_limit m.state s grown made) [
      | inl (missing, is) ↦
          subst (λ (s : OverlayState). Steady m (record m { state = s })) (sym is)
            ((refl, refl, refl), safe)
      | inr (content, old, yes_file, here, within, is) ↦
          let (content', old', here', new, usage, fits) = grew yes_file in
          (
            (refl, refl, refl),
            record {
              bounded = record {
                accounted = good;
                in_memory = fits;
                in_writes = safe.bounded.in_writes;
              };
              small = safe.small;
              sized = λ k text mtime there. elim (Bool-cases (bytes_eq k rel)) [
                | inl eq ↦
                    let at_rel : s.entries rel ≡ some (file text mtime) =
                      ap s.entries (sym ((bytes_eq_iff k rel).0 eq)) ∙ there in
                    let long : length text ≤ max_uint64 =
                      ground (
                        arith,
                        at_rel,
                        new,
                        fits_word m rel content' data_ old' safe short here',
                      ) in
                    omega (arith, file_size s k text mtime good long there, fits)
                | inr apart ↦
                    safe.sized k text mtime (other_entry m.state s rel k _ _ apart is ∙ there)
              ];
            },
          )
    ]

pub overlay_append-ok :
    (h : Host) (vpath data_ : Bytes) (now : ℕ) (m n : OverlayMount)
    → overlay_append h vpath data_ now m ≡ ok n
    → (rel : Bytes) × (existing charged : ℕ) × (grown : Bool) × (s : OverlayState)
      × (p : OverlayMount) × (resolve_virtual_path vpath m.virtual_path ≡ ok rel)
      × (check_write_limit charged m ≡ ok tt)
      × (append_file rel data_ now m.mem_limit m.state ≡ ok (grown, s))
      × ((if grown
            then ok (record m { state = s })
            else copy_and_append h rel vpath data_ existing now m)
          ≡ ok p)
      × (n ≡ commit_write_bytes charged p)
unfolding overlay_append
overlay_append-ok h vpath data_ now m n made =
    let (rel, a, e1) = bind-ok (resolve_virtual_path vpath m.virtual_path) _ n made in
    let (b, e2) = check-ok (ensure_parent_exists h rel vpath m) _ n e1 in
    let (c, e3) = check-ok (reject_directory_target h rel vpath m) _ n e2 in
    let (existing, d, e4) = bind-ok (existing_file_len h vpath m (get rel m.state)) _ n e3 in
    let charged = charge m.write_limit (get rel m.state) existing (length data_) in
    let (e, e5) = check-ok (check_write_limit charged m) _ n e4 in
    let (appended, f, e6) = bind-ok (append_file rel data_ now m.mem_limit m.state) _ n e5 in
    let (p, g, e7) =
      bind-ok
        (if appended.0
          then ok (record m { state = appended.1 })
          else copy_and_append h rel vpath data_ existing now m)
        _ n e6 in
    (rel, existing, charged, appended.0, appended.1, p, a, e, f, g, ground arith)

pub append-Steady :
    (h : Host) (vpath data_ : Bytes) (now : ℕ) (m n : OverlayMount)
    → IsSafe m
    → length data_ < slice_end
    → overlay_append h vpath data_ now m ≡ ok n
    → Steady m n
append-Steady h vpath data_ now m n safe short made =
    let (rel, existing, charged, grown, s, p, resolved, checked, appended, stored, is) =
      overlay_append-ok h vpath data_ now m n made in
    let first = either rel existing grown s p appended stored in
    let used = unused rel existing grown s p stored in
    subst (Steady m) (sym is) (
      Steady-trans m p (commit_write_bytes charged p) first (
        commit-Steady charged p first.1
          (check_write_limit_same charged m p first.0.2 used checked)))
  where
    either :
        (rel : Bytes) (existing : ℕ) (grown : Bool) (s : OverlayState) (p : OverlayMount)
        → append_file rel data_ now m.mem_limit m.state ≡ ok (grown, s)
        → (if grown
            then ok (record m { state = s })
            else copy_and_append h rel vpath data_ existing now m)
          ≡ ok p
        → Steady m p
    either rel existing true s p appended e =
        let is : record m { state = s } ≡ p = ground arith in
        subst (Steady m) is (append_file-Steady rel data_ now m s true safe short appended)
    either rel existing false s p appended e =
        copy_and_append-Steady h rel vpath data_ existing now m p safe short e

    unused :
        (rel : Bytes) (existing : ℕ) (grown : Bool) (s : OverlayState) (p : OverlayMount)
        → (if grown
            then ok (record m { state = s })
            else copy_and_append h rel vpath data_ existing now m)
          ≡ ok p
        → p.write_used ≡ m.write_used
    unused rel existing true s p e = ground arith
    unused rel existing false s p e =
        let (content, within, stored) = copy_and_append-ok h rel vpath data_ existing now m p e in
        (store-IsBounded rel (file (content ++ data_) now) m p safe.bounded
          (omega (arith, safe.small)) stored).2
