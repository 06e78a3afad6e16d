-- ===== src/Mountfs/Errors.antt =====
-- internal/mountfs/errors.go: the errors of a mount. A mountError is its kind with the fields that
-- the kind uses; `exception`, its rendering for the sandbox, is not modelled.
use montygo.Prelude.{Bool, Bytes, arith, false, inl, inr, refl, true, ℕ, ◌≡◌, ◌⊎◌}
use montygo.Mountfs.Utf8.{Utf8Failure}

pub data IoKind : Type 0 where
  other not_found already_exists permission_denied is_a_directory : IoKind
  not_a_directory directory_not_empty invalid_filename invalid_input invalid_data : IoKind

pub data MountError : Type 0 where
  no_mount_point path_escape value_error read_only : Bytes → MountError
  cross_mount : Bytes → Bytes → MountError
  io_err : IoKind → Bytes → Bytes → MountError
  invalid_utf8 : Utf8Failure → MountError
  invalid_mount : Bytes → MountError
  write_limit memory_limit : ℕ → MountError

pub data Result {ℓ} (A : Type ℓ) : Type ℓ where
  ok : A → Result A
  err : MountError → Result A

infixl 5 ◌>>=◌
abbrev pub ◌>>=◌ {ℓ κ} :
    {S : Type ℓ} {T : Type κ} (first : Result S) (rest : S → Result T) → Result T
first >>= rest = elim first [ ok value ↦ rest value | err e ↦ err e ]

infixl 5 ◌>>◌
abbrev pub ◌>>◌ {κ} : {T : Type κ} (check : Result (Unit {0})) (rest : Result T) → Result T
check >> rest = elim check [ ok _ ↦ rest | err e ↦ err e ]

-- A check that returns an error or nothing.
abbrev pub reject_if : Bool → MountError → Result (Unit {0})
reject_if true e = err e
reject_if false e = ok tt

pub Result-cases {ℓ} :
    {A : Type ℓ} (r : Result A) → ((a : A) × (r ≡ ok a)) ⊎ ((e : MountError) × (r ≡ err e))
Result-cases (ok a) = inl (a, refl)
Result-cases (err e) = inr (e, refl)

-- What a chain that succeeds has passed.
pub bind-ok {ℓ κ} :
    {S : Type ℓ} {T : Type κ} (r : Result S) (rest : S → Result T) (t : T)
    → (r >>= rest) ≡ ok t
    → (s : S) × (r ≡ ok s) × (rest s ≡ ok t)
bind-ok (ok s) rest t e = (s, refl, e)
bind-ok (err f) rest t e = absurd (ground arith)

pub check-ok {κ} :
    {T : Type κ} (r : Result (Unit {0})) (rest : Result T) (t : T)
    → (r >> rest) ≡ ok t
    → (r ≡ ok tt) × (rest ≡ ok t)
check-ok (ok tt) rest t e = (refl, e)
check-ok (err f) rest t e = absurd (ground arith)
