-- ===== src/Mountfs/Overlay/Removing.antt =====
-- Rmdir and Open keep an overlay mount within its limits.
use montygo.Prelude.{
  Bool, Bytes, [], arith, bytes_eq, false, if◌then◌else◌, refl, subst, true, ℕ, ◌==◌, ◌∷◌, ◌≡◌,
}
use montygo.Mountfs.Errors.{bind-ok, check-ok, err, ok, path_escape, ◌>>=◌, ◌>>◌}
use montygo.Mountfs.PathPolicy.{resolve_virtual_path}
use montygo.Mountfs.OverlayState.{deleted, file, get}
use montygo.Mountfs.Host.{Host}
use montygo.Mountfs.Overlay.{OverlayMount, overlay_write, store}
use montygo.Mountfs.Overlay.Removal.{
  append_creates, can_open, can_rmdir, ensure_append_target_exists, overlay_open, overlay_rmdir,
}
use montygo.Mountfs.Overlay.Bounded.{IsSafe, Steady, store-Steady, write-Steady}

unchanged-Steady : (m n : OverlayMount) → IsSafe m → ok m ≡ ok n → Steady m n
unchanged-Steady m n safe made =
    let same : m ≡ n = ground arith in subst (Steady m) same ((refl, refl, refl), safe)

pub rmdir-Steady :
    (h : Host) (rel vpath : Bytes) (m n : OverlayMount)
    → IsSafe m
    → overlay_rmdir h rel vpath m ≡ ok n
    → Steady m n
unfolding overlay_rmdir
rmdir-Steady h rel vpath m n safe = test (bytes_eq rel [])
  where
    test :
        (mount : Bool)
        → (if mount
            then err (path_escape vpath)
            else can_rmdir h rel vpath m (get rel m.state) >> store rel deleted m)
          ≡ ok n
        → Steady m n
    test true made = absurd (ground arith)
    test false made =
        let (allowed, stored) =
          check-ok (can_rmdir h rel vpath m (get rel m.state)) (store rel deleted m) n made in
        store-Steady rel deleted m n safe (λ content mtime e. absurd (ground arith)) stored

ensure_append-Steady :
    (h : Host) (vpath : Bytes) (now : ℕ) (m n : OverlayMount)
    → IsSafe m
    → ensure_append_target_exists h vpath now m ≡ ok n
    → Steady m n
unfolding ensure_append_target_exists
ensure_append-Steady h vpath now m n safe made =
    let (rel, resolved, e1) = bind-ok (resolve_virtual_path vpath m.virtual_path) _ n made in
    let (creates, allowed, e2) = bind-ok (append_creates h rel vpath m (get rel m.state)) _ n e1 in
    ended rel creates e2
  where
    ended :
        (rel : Bytes) (creates : Bool)
        → (if creates then store rel (file [] now) m else ok m) ≡ ok n
        → Steady m n
    ended rel true e = store-Steady rel (file [] now) m n safe (λ content mtime is. ground arith) e
    ended rel false e = unchanged-Steady m n safe e

open_read-Steady :
    (h : Host) (vpath : Bytes) (m n : OverlayMount)
    → IsSafe m
    → (resolve_virtual_path vpath m.virtual_path
        >>= (λ rel. can_open h vpath m (get rel m.state) >> ok m))
      ≡ ok n
    → Steady m n
open_read-Steady h vpath m n safe made =
    let (rel, resolved, e1) = bind-ok (resolve_virtual_path vpath m.virtual_path) _ n made in
    let (allowed, e2) = check-ok (can_open h vpath m (get rel m.state)) (ok m) n e1 in
    unchanged-Steady m n safe e2

pub open-Steady :
    (h : Host) (vpath mode : Bytes) (now : ℕ) (m n : OverlayMount)
    → IsSafe m
    → overlay_open h vpath mode now m ≡ ok n
    → Steady m n
unfolding overlay_open
open-Steady h vpath [] now m n safe made = unchanged-Steady m n safe made
open-Steady h vpath (c ∷ mode) now m n safe made = test (c == b'r') (c == b'w') (c == b'a') made
  where
    test :
        (reads writes appends : Bool)
        → (if reads
            then resolve_virtual_path vpath m.virtual_path
              >>= (λ rel. can_open h vpath m (get rel m.state) >> ok m)
            else if writes
            then overlay_write h vpath [] now m
            else if appends
            then ensure_append_target_exists h vpath now m
            else ok m)
          ≡ ok n
        → Steady m n
    test true _ _ made = open_read-Steady h vpath m n safe made
    test false true _ made = write-Steady h vpath [] now m n safe (omega arith) made
    test false false true made = ensure_append-Steady h vpath now m n safe made
    test false false false made = unchanged-Steady m n safe made
