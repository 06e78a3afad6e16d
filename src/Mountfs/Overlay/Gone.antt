-- ===== src/Mountfs/Overlay/Gone.antt =====
-- What has been removed from an overlay mount is not there any more.
use montygo.Prelude.{
  Bool, Bytes, [], arith, bytes_eq, false, if◌then◌else◌, inl, inr, refl, some, true, ◌<◌, ◌≡◌, ◌⊎◌,
}
use montygo.Mountfs.Errors.{check-ok, err, ok, path_escape, ◌>>◌}
use montygo.Mountfs.OverlayState.{deleted, get, max_uint64}
use montygo.Mountfs.Host.{Host, not_found_error}
use montygo.Mountfs.Overlay.{OverlayMount, overlay_read, read_entry, store}
use montygo.Mountfs.Overlay.Changes.{can_unlink, overlay_unlink}
use montygo.Mountfs.Overlay.Removal.{can_rmdir, overlay_rmdir}
use montygo.Mountfs.Overlay.Looking.{
  Predicate, by_kind, exists, is_dir, is_file, overlay_predicate, overlay_stat, stat_entry,
}
use montygo.Mountfs.Overlay.Writing.{IsBounded, store-IsBounded}

rmdir-stores :
    (h : Host) (rel vpath : Bytes) (m n : OverlayMount)
    → overlay_rmdir h rel vpath m ≡ ok n
    → store rel deleted m ≡ ok n
unfolding overlay_rmdir
rmdir-stores h rel vpath m n = test (bytes_eq rel [])
  where
    test :
        (mount : Bool)
        → (if mount
            then err (path_escape vpath)
            else can_rmdir h rel vpath m (get rel m.state) >> store rel deleted m)
          ≡ ok n
        → store rel deleted m ≡ ok n
    test true made = absurd (ground arith)
    test false made =
        (check-ok (can_rmdir h rel vpath m (get rel m.state)) (store rel deleted m) n made).1

unlink-stores :
    (h : Host) (rel vpath : Bytes) (m n : OverlayMount)
    → overlay_unlink h rel vpath m ≡ ok n
    → store rel deleted m ≡ ok n
unfolding overlay_unlink
unlink-stores h rel vpath m n made =
    (check-ok (can_unlink h rel vpath m (get rel m.state)) (store rel deleted m) n made).1

-- Where the overlay has deleted something, nothing is there, whatever the host holds.
deleted-IsGone :
    (later : Host) (p : Predicate) (rel vpath : Bytes) (n : OverlayMount)
    → n.state.entries rel ≡ some deleted
    → (overlay_predicate later p rel vpath n ≡ false)
      × (overlay_stat later rel vpath n ≡ err (not_found_error vpath))
      × (overlay_read later rel vpath n ≡ err (not_found_error vpath))
unfolding overlay_predicate overlay_stat overlay_read get stat_entry read_entry
deleted-IsGone later p rel vpath n here = rw here (none_of p, refl, refl)
  where
    none_of : (p : Predicate) → by_kind p deleted ≡ false
    none_of exists = refl
    none_of is_file = refl
    none_of is_dir = refl

-- When Unlink or Rmdir succeeds on an overlay mount whose account is exact, within its limits and
-- below 2^64 - 1 of memory, then afterwards nothing is at the path, whatever the host holds: neither
-- Exists nor IsFile nor IsDir says so, and Stat and a read report that it was not found. All other
-- entries are those of before.
pub removal-IsGone :
    (h later : Host) (p : Predicate) (rel vpath : Bytes) (m n : OverlayMount)
    → IsBounded m
    → m.mem_limit < max_uint64
    → (overlay_unlink h rel vpath m ≡ ok n) ⊎ (overlay_rmdir h rel vpath m ≡ ok n)
    → (overlay_predicate later p rel vpath n ≡ false)
      × (overlay_stat later rel vpath n ≡ err (not_found_error vpath))
      × (overlay_read later rel vpath n ≡ err (not_found_error vpath))
      × ((k : Bytes) → bytes_eq k rel ≡ false → n.state.entries k ≡ m.state.entries k)
removal-IsGone h later p rel vpath m n bounded small made =
    let stored = stores made in
    let (good, same, used, here, others) = store-IsBounded rel deleted m n bounded small stored in
    let (unseen, no_stat, no_read) = deleted-IsGone later p rel vpath n here in
    (unseen, no_stat, no_read, others)
  where
    stores :
        (overlay_unlink h rel vpath m ≡ ok n) ⊎ (overlay_rmdir h rel vpath m ≡ ok n)
        → store rel deleted m ≡ ok n
    stores (inl e) = unlink-stores h rel vpath m n e
    stores (inr e) = rmdir-stores h rel vpath m n e
