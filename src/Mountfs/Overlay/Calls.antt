-- ===== src/Mountfs/Overlay/Calls.antt =====
-- internal/mountfs/overlay.go: the part of overlayExecute that dispatches the modelled calls, and
-- sequences of calls. The host may differ from call to call.
use montygo.Prelude.{
  All, Bool, Bytes, List, Option, [], arith, length, refl, some, ℕ, ◌<◌, ◌∙◌, ◌∷◌, ◌≡◌, ◌≤◌,
}
use montygo.Mountfs.Errors.{Result, err, ok}
use montygo.Mountfs.PathPolicy.{resolve_virtual_path}
use montygo.Mountfs.OverlayState.{new_overlay_state}
use montygo.Mountfs.OverlayState.Accounting.{new_overlay_state-Accounted, total}
use montygo.Mountfs.Host.{Host}
use montygo.Mountfs.Overlay.{OverlayMount, overlay_write}
use montygo.Mountfs.Overlay.Changes.{overlay_append, overlay_mkdir, overlay_unlink}
use montygo.Mountfs.Overlay.Bounded.{
  IsSafe, Steady, Steady-trans, mkdir-Steady, slice_end, unlink-Steady, write-Steady,
}
use montygo.Mountfs.Overlay.Removal.{overlay_open, overlay_rmdir}
use montygo.Mountfs.Overlay.Removing.{open-Steady, rmdir-Steady}
use montygo.Mountfs.Overlay.Appending.{append-Steady}

pub data Call : Type 0 where
  writes appends : Bytes → Bytes → ℕ → Call
  makes : Bytes → Bool → Bool → ℕ → Call
  unlinks removes : Bytes → Call
  opens : Bytes → Bytes → ℕ → Call

abbrev kept : Result OverlayMount → OverlayMount → OverlayMount
kept (ok n) m = n
kept (err e) m = m

abbrev at_path : Result Bytes → (Bytes → OverlayMount) → OverlayMount → OverlayMount
at_path (ok rel) go m = go rel
at_path (err e) go m = m

unfoldable pub perform : Host → Call → OverlayMount → OverlayMount
perform h (writes vpath data_ now) m = kept (overlay_write h vpath data_ now m) m
perform h (appends vpath data_ now) m = kept (overlay_append h vpath data_ now m) m
perform h (makes vpath parents exist_ok now) m =
    at_path (resolve_virtual_path vpath m.virtual_path)
      (λ rel. (overlay_mkdir h rel parents exist_ok now vpath m).1) m
perform h (unlinks vpath) m =
    at_path (resolve_virtual_path vpath m.virtual_path)
      (λ rel. kept (overlay_unlink h rel vpath m) m) m
perform h (removes vpath) m =
    at_path (resolve_virtual_path vpath m.virtual_path)
      (λ rel. kept (overlay_rmdir h rel vpath m) m) m
perform h (opens vpath mode now) m = kept (overlay_open h vpath mode now m) m

unfoldable pub perform_all : List (Host × Call) → OverlayMount → OverlayMount
unfolding perform
perform_all [] m = m
perform_all ((h, c) ∷ cs) m = perform_all cs (perform h c m)

-- newMount in overlay mode.
unfoldable pub new_mount : Bytes → Option ℕ → ℕ → OverlayMount
new_mount virtual_path writes_limit mem_limit = record {
  virtual_path = virtual_path;
  write_used = 0;
  write_limit = writes_limit;
  mem_limit = mem_limit;
  state = new_overlay_state;
}

-- The data of a call is a Go slice.
abbrev pub IsSlice : Host × Call → Type 0
IsSlice (h, writes vpath data_ now) = length data_ < slice_end
IsSlice (h, appends vpath data_ now) = length data_ < slice_end
IsSlice (h, _) = Unit

kept-Steady :
    (r : Result OverlayMount) (m : OverlayMount)
    → IsSafe m
    → ((n : OverlayMount) → r ≡ ok n → Steady m n)
    → Steady m (kept r m)
kept-Steady (ok n) m safe made = made n refl
kept-Steady (err e) m safe made = ((refl, refl, refl), safe)

at_path-Steady :
    (r : Result Bytes) (go : Bytes → OverlayMount) (m : OverlayMount)
    → IsSafe m
    → ((rel : Bytes) → Steady m (go rel))
    → Steady m (at_path r go m)
at_path-Steady (ok rel) go m safe made = made rel
at_path-Steady (err e) go m safe made = ((refl, refl, refl), safe)

perform-Steady :
    (h : Host) (c : Call) (m : OverlayMount) → IsSafe m → IsSlice (h, c) → Steady m (perform h c m)
unfolding perform
perform-Steady h (writes vpath data_ now) m safe short =
    kept-Steady _ m safe (λ n. write-Steady h vpath data_ now m n safe short)
perform-Steady h (appends vpath data_ now) m safe short =
    kept-Steady _ m safe (λ n. append-Steady h vpath data_ now m n safe short)
perform-Steady h (makes vpath parents exist_ok now) m safe short =
    at_path-Steady (resolve_virtual_path vpath m.virtual_path) _ m safe
      (λ rel. mkdir-Steady h rel parents exist_ok now vpath m safe)
perform-Steady h (unlinks vpath) m safe short =
    at_path-Steady (resolve_virtual_path vpath m.virtual_path) _ m safe
      (λ rel. kept-Steady _ m safe (λ n. unlink-Steady h rel vpath m n safe))
perform-Steady h (removes vpath) m safe short =
    at_path-Steady (resolve_virtual_path vpath m.virtual_path) _ m safe
      (λ rel. kept-Steady _ m safe (λ n. rmdir-Steady h rel vpath m n safe))
perform-Steady h (opens vpath mode now) m safe short =
    kept-Steady _ m safe (λ n. open-Steady h vpath mode now m n safe)

perform_all-Steady :
    (cs : List (Host × Call)) (m : OverlayMount)
    → IsSafe m
    → All IsSlice cs
    → Steady m (perform_all cs m)
unfolding perform_all
perform_all-Steady [] m safe short = ((refl, refl, refl), safe)
perform_all-Steady ((h, c) ∷ cs) m safe short =
    let first = perform-Steady h c m safe short.0 in
    Steady-trans m (perform h c m) _ first (perform_all-Steady cs (perform h c m) first.1 short.1)

pub new_mount-IsSafe :
    (virtual_path : Bytes) (writes_limit : Option ℕ) (mem_limit : ℕ)
    → mem_limit < slice_end
    → IsSafe (new_mount virtual_path writes_limit mem_limit)
unfolding new_mount
new_mount-IsSafe virtual_path writes_limit mem_limit small = record {
  bounded = record {
    accounted = new_overlay_state-Accounted;
    in_memory = ground arith;
    in_writes = λ limit e. ground arith;
  };
  small = small;
  sized = λ k content mtime e. absurd (ground arith);
}

-- From a new overlay mount with less than 2^63 bytes of memory, after any writes, appends, Mkdirs,
-- Unlinks, Rmdirs and Opens, on hosts that hold whatever they hold, with data that fits a Go slice: what the overlay
-- says that it uses is the sum of what its entries use and at most the memory limit, and the bytes
-- written are at most the write limit, if there is one.
pub perform_all-IsBounded :
    (virtual_path : Bytes) (writes_limit : Option ℕ) (mem_limit : ℕ) (cs : List (Host × Call))
    → mem_limit < slice_end
    → All IsSlice cs
    → let m = perform_all cs (new_mount virtual_path writes_limit mem_limit) in
      (m.state.usage ≡ total m.state.entries m.state.keys)
      × (m.state.usage ≤ mem_limit)
      × ((limit : ℕ) → writes_limit ≡ some limit → m.write_used ≤ limit)
unfolding new_mount
perform_all-IsBounded virtual_path writes_limit mem_limit cs small short =
    let start = new_mount virtual_path writes_limit mem_limit in
    let ((path, memory, same_limit), after) =
      perform_all-Steady cs start (new_mount-IsSafe virtual_path writes_limit mem_limit small)
        short in
    (
      after.bounded.accounted.summed,
      omega (arith, after.bounded.in_memory, memory),
      λ limit e. after.bounded.in_writes limit (same_limit ∙ e),
    )
