-- ===== src/Mountfs/Table/Routing.antt =====
-- Which calls reach the execution of a mount, and which are left to the caller.
use montygo.Prelude.{
  Bool-cases, Bytes, List, Option, Option-cases, arith, contains_byte, false, get_elem?, inl, inr,
  none, refl, some, subst, true, ℕ, ◌==◌, ◌↔◌, ◌≡◌, ◌⊎◌,
}
use montygo.Mountfs.Table.{
  Executor, Mode, Mount, Route, execute, execute_at, executor, find_mount, handle, is_write_call,
  nowhere, refused, rejection, route, runs, same_mount, to, to_found, with_overlay,
}
use montygo.Mountfs.PathPolicy.{is_overlong, reject_overlong_path}
use montygo.Mountfs.Errors.{MountError, Result-cases, cross_mount, ok}
use montygo.Wire.OsCall.{OsCall, is_fs, op_rename}

rejection_ok :
    (c : OsCall)
    → rejection c ≡ ok tt
    → (is_overlong c.path ≡ false) × (contains_byte 0 c.path ≡ false)
unfolding rejection reject_overlong_path
rejection_ok c h = ground arith

same_mount_to :
    (cross : MountError) (a b : Option ℕ) (i : ℕ)
    → same_mount cross a b ≡ to i
    → (a ≡ some i) × (b ≡ some i)
unfolding same_mount
same_mount_to cross none none i h = cc
same_mount_to cross none (some j) i h = cc
same_mount_to cross (some k) none i h = cc
same_mount_to cross (some k) (some j) i h = ground arith

-- What holds of the destination of a rename.
abbrev pub DstChecked : List Mount → OsCall → ℕ → Type 0
DstChecked mounts c i =
    (find_mount mounts c.dst ≡ some i)
    × (is_overlong c.dst ≡ false)
    × (contains_byte 0 c.dst ≡ false)

reject_overlong_path_ok :
    (path : Bytes) (u : Unit {0}) → reject_overlong_path path ≡ ok u → is_overlong path ≡ false
unfolding reject_overlong_path
reject_overlong_path_ok path u h = ground arith

route_rename :
    (mounts : List Mount) (c : OsCall) (i : ℕ)
    → c.op ≡ op_rename
    → route mounts c ≡ to i
    → (find_mount mounts c.path ≡ some i) × DstChecked mounts c i
route_rename mounts c i o h = elim (Result-cases (reject_overlong_path c.dst)) [
  | inr (e, k) ↦ absurd (unfold route in ground arith)
  | inl (u, k) ↦
      let clean : contains_byte 0 c.dst ≡ false = unfold route in ground arith in
      let same : same_mount (cross_mount c.path c.dst) (find_mount mounts c.path)
            (find_mount mounts c.dst)
          ≡ to i =
        unfold route in ground arith in
      let (src, dst) = same_mount_to _ _ _ i same in
      (src, (dst, reject_overlong_path_ok c.dst u k, clean))
]

route_to :
    (mounts : List Mount) (c : OsCall) (i : ℕ)
    → route mounts c ≡ to i
    → (find_mount mounts c.path ≡ some i) × ((c.op ≡ op_rename) → DstChecked mounts c i)
route_to mounts c i h = elim (Bool-cases (c.op == op_rename)) [
  | inl o ↦ let (src, dst) = route_rename mounts c i (ground arith) h in (src, λ _. dst)
  | inr o ↦ (
    found (find_mount mounts c.path) (unfold route in ground arith),
    λ same. absurd (ground arith),
  )
]
  where
    found : (r : Option ℕ) → to_found r ≡ to i → r ≡ some i
    found none e = cc
    found (some k) e = cc

execute_runs :
    (i : ℕ) (m : Mount) (c : OsCall) (j : ℕ) (e : Executor) (mode : Bytes)
    → execute i m c ≡ runs j e mode
    → (i ≡ j) × (e ≡ executor m.mode) × ((m.mode ≡ Mode.read_only) → is_write_call c mode ≡ false)
unfolding execute
execute_runs i m c j e mode h = ground arith

Route-cases :
    (r : Route) → (r ≡ nowhere) ⊎ ((e : MountError) × (r ≡ refused e)) ⊎ ((i : ℕ) × (r ≡ to i))
Route-cases nowhere = inl refl
Route-cases (refused e) = inr (inl (e, refl))
Route-cases (to i) = inr (inr (i, refl))

route_of_runs :
    (mounts : List Mount) (c : OsCall) (i : ℕ) (e : Executor) (mode : Bytes)
    → handle mounts c ≡ runs i e mode
    → (is_fs c ≡ true)
      × (rejection c ≡ ok tt)
      × (j : ℕ) × (route mounts c ≡ to j)
      × (execute_at j (get_elem? mounts j) c ≡ runs i e mode)
unfolding handle
route_of_runs mounts c i e mode h = elim (Result-cases (rejection c)) [
  | inr (k, r) ↦ absurd (ground arith)
  | inl (u, r) ↦ elim (Route-cases (route mounts c)) [
    | inl n ↦ absurd (ground arith)
    | inr (inl (k, n)) ↦ absurd (ground arith)
    | inr (inr (j, n)) ↦ (ground arith, ground arith, j, n, ground arith)
  ]
]

-- A call runs in a mount only if it is a filesystem call whose path is neither overlong nor holds a
-- NUL and is covered by that mount; a rename only if the same holds of its destination, in the same
-- mount. A read-only mount runs no call that writes, and the overlay execution is entered exactly
-- for a mount in overlay mode.
pub handle_runs :
    (mounts : List Mount) (c : OsCall) (i : ℕ) (e : Executor) (mode : Bytes)
    → handle mounts c ≡ runs i e mode
    → (m : Mount) × (get_elem? mounts i ≡ some m)
      × (is_fs c ≡ true)
      × (is_overlong c.path ≡ false)
      × (contains_byte 0 c.path ≡ false)
      × (find_mount mounts c.path ≡ some i)
      × ((c.op ≡ op_rename) → DstChecked mounts c i)
      × ((m.mode ≡ Mode.read_only) → is_write_call c mode ≡ false)
      × ((e ≡ with_overlay) ↔ (m.mode ≡ Mode.overlay))
handle_runs mounts c i e mode h =
    let (fs, clean, j, r, run) = route_of_runs mounts c i e mode h in
    let (short, nul) = rejection_ok c clean in
    let (src, dst) = route_to mounts c j r in
    elim (Option-cases (get_elem? mounts j)) [
      | inl out ↦ absurd (ground arith)
      | inr (m, at) ↦
          let ran : execute j m c ≡ runs i e mode = rw at at run in
          let (same, which, kept) = execute_runs j m c i e mode ran in
          (
            m,
            subst (λ k. get_elem? mounts k ≡ some m) same at,
            fs,
            short,
            nul,
            subst (λ k. find_mount mounts c.path ≡ some k) same src,
            (λ o. subst (DstChecked mounts c) same (dst o)),
            kept,
            by_mode e m.mode which,
          )
    ]
  where
    by_mode :
        (e : Executor) (mode : Mode)
        → e ≡ executor mode
        → (e ≡ with_overlay) ↔ (mode ≡ Mode.overlay)
    by_mode e Mode.read_only w = unfold executor in ground arith
    by_mode e Mode.read_write w = unfold executor in ground arith
    by_mode e Mode.overlay w = unfold executor in ground arith
