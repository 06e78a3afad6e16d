-- ===== src/Mountfs/Table/Order.antt =====
-- The order of the table, and the mount that findMount chooses.
use montygo.Prelude.{
  All, Bool-cases, List, [], append-nil, arith, inl, inr, length, ltb, ℕ, ◌++◌, ◌∷◌, ◌≤◌,
}
use montygo.Mountfs.Table.{Mount, new_table, push, push_all}
use mathlib.Core.List.{perm_middle, Perm}
use mathlib.Core.List.Perm

-- Longer virtual paths first.
abbrev pub IsOrdered : List Mount → Type 0
IsOrdered [] = Unit {0}
IsOrdered (m ∷ mounts) =
    All (λ x. length x.virtual_path ≤ length m.virtual_path) mounts × IsOrdered mounts

All-push :
    (P : Mount → Type 0) (mounts : List Mount) (m : Mount)
    → All P mounts
    → P m
    → All P (push mounts m)
unfolding push
All-push P [] m v h = (h, tt)
All-push P (x ∷ mounts) m v h =
    elim (Bool-cases (ltb (length m.virtual_path) (length x.virtual_path))) [
      | inl e ↦ rw e (v.0, All-push P mounts m v.1 h)
      | inr e ↦ rw e (h, v)
    ]

All-weaken :
    (n k : ℕ) (mounts : List Mount)
    → n ≤ k
    → All (λ x. length x.virtual_path ≤ n) mounts
    → All (λ x. length x.virtual_path ≤ k) mounts
All-weaken n k [] h v = tt
All-weaken n k (x ∷ mounts) h v = (omega arith, All-weaken n k mounts h v.1)

push-IsOrdered : (mounts : List Mount) (m : Mount) → IsOrdered mounts → IsOrdered (push mounts m)
unfolding push
push-IsOrdered [] m v = (tt, tt)
push-IsOrdered (x ∷ mounts) m v =
    elim (Bool-cases (ltb (length m.virtual_path) (length x.virtual_path))) [
      | inl e ↦ rw e (All-push _ mounts m v.0 (ground arith), push-IsOrdered mounts m v.1)
      | inr e ↦ rw e (
        (
          ground arith,
          All-weaken (length x.virtual_path) (length m.virtual_path) mounts (ground arith) v.0,
        ),
        v,
      )
    ]

push-perm : (mounts : List Mount) (m : Mount) → Perm (push mounts m) (m ∷ mounts)
unfolding push
push-perm [] m = Perm.refl (m ∷ [])
push-perm (x ∷ mounts) m = elim (Bool-cases (ltb (length m.virtual_path) (length x.virtual_path))) [
  | inl e ↦ rw e (Perm.trans (Perm.cons x (push-perm mounts m)) (Perm.swap m x mounts))
  | inr e ↦ rw e (Perm.refl (m ∷ x ∷ mounts))
]

push_all-IsOrdered :
    (specs mounts : List Mount)
    → IsOrdered mounts
    → IsOrdered (push_all mounts specs) × Perm (push_all mounts specs) (mounts ++ specs)
unfolding push_all
push_all-IsOrdered [] mounts v = (v, rw append-nil (Perm.refl mounts))
push_all-IsOrdered (m ∷ specs) mounts v =
    let (ordered, p) = push_all-IsOrdered specs (push mounts m) (push-IsOrdered mounts m v) in
    (
      ordered,
      Perm.trans p (
          Perm.trans (Perm.append (push-perm mounts m) (Perm.refl specs))
            (Perm.symm (perm_middle mounts specs))),
    )

-- NewTable keeps every spec, each as often as it was given, and orders the mounts by the length of
-- their virtual path, longest first.
pub new_table-IsOrdered :
    (specs : List Mount) → IsOrdered (new_table specs).mounts × Perm (new_table specs).mounts specs
unfolding new_table
new_table-IsOrdered specs = push_all-IsOrdered specs [] tt
