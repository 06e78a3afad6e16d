-- ===== src/Mountfs/OverlayState/Accounting.antt =====
-- The memory that an overlay reports is the sum of what its entries use.
use montygo.Prelude.{
  Bool, Bytes, List, Option, [], ap, arith, bytes_eq_iff, false, if-either, inl, inr, none, refl,
  some, subst, sym, true, ℕ, ◌+◌, ◌∷◌, ◌≡◌, ◌≤◌,
}
use montygo.Mountfs.OverlayState.{
  OverlayEntry, OverlayState, assign, bytes_less, insert_key, max_uint64, new_overlay_state,
  remove_key, usage_of,
}
use montygo.Mountfs.OverlayState.Keys.{
  IsSorted, found_or_behind, has_key, insert_key-cons, remove_key-cons,
}

abbrev pub total : (Bytes → Option OverlayEntry) → List Bytes → ℕ
total entries [] = 0
total entries (x ∷ keys) = usage_of x (entries x) + total entries keys

abbrev pub is_there : Option OverlayEntry → Bool
is_there none = false
is_there (some e) = true

-- The keys are ascending, they are those that have an entry, and the usage is the entries' sum.
pub record Accounted (s : OverlayState) : Type 0 where
  pub sorted : IsSorted s.keys
  pub keyed : (k : Bytes) → has_key s.keys k ≡ is_there (s.entries k)
  pub summed : s.usage ≡ total s.entries s.keys
  pub in_word : s.usage ≤ max_uint64

pub new_overlay_state-Accounted : Accounted new_overlay_state
new_overlay_state-Accounted = record {
  sorted = tt;
  keyed = λ k. refl;
  summed = refl;
  in_word = omega arith;
}

pub assign-other :
    (m : Bytes → Option OverlayEntry) (k : Bytes) (e : Option OverlayEntry) (keys : List Bytes)
    → has_key keys k ≡ false
    → total (assign m k e) keys ≡ total m keys
assign-other m k e [] h = refl
assign-other m k e (x ∷ keys) h = ground (arith, assign-other m k e keys)

pub assign-same :
    (m : Bytes → Option OverlayEntry) (k : Bytes) (e : Option OverlayEntry) → assign m k e k ≡ e
assign-same m k e = rw ((bytes_eq_iff k k).1 refl) refl

-- An entry that is replaced.
pub total-replace :
    (m : Bytes → Option OverlayEntry) (k : Bytes) (e : Option OverlayEntry) (keys : List Bytes)
    → IsSorted keys
    → has_key keys k ≡ true
    → total (assign m k e) keys + usage_of k (m k) ≡ total m keys + usage_of k e
total-replace m k e [] s h = ground arith
total-replace m k e (x ∷ keys) s h = elim (found_or_behind x keys k s h) [
  | inl (less, apart, more) ↦ ground (arith, total-replace m k e keys s.1 more)
  | inr (less, same, absent) ↦
      subst
        (λ z.
          total (assign m k e) (z ∷ keys) + usage_of k (m k) ≡ total m (z ∷ keys) + usage_of k e)
        (sym same)
        (ground (arith, assign-other m k e keys absent, ap (usage_of k) (assign-same m k e)))
]

pub total-insert_key :
    (m : Bytes → Option OverlayEntry) (k : Bytes) (keys : List Bytes)
    → total m (insert_key keys k) ≡ usage_of k (m k) + total m keys
total-insert_key m k [] = unfold insert_key in refl
total-insert_key m k (x ∷ keys) = rw (insert_key-cons x keys k) (
    if-either (λ l. total m l ≡ usage_of k (m k) + (usage_of x (m x) + total m keys))
      (bytes_less x k) (λ e. ground (arith, total-insert_key m k keys)) (λ e. refl))

pub total-remove_key :
    (m : Bytes → Option OverlayEntry) (k : Bytes) (keys : List Bytes)
    → IsSorted keys
    → has_key keys k ≡ true
    → total (assign m k none) (remove_key keys k) + usage_of k (m k) ≡ total m keys
total-remove_key m k [] s h = ground arith
total-remove_key m k (x ∷ keys) s h =
    rw (remove_key-cons x keys k) (elim (found_or_behind x keys k s h) [
      | inl (less, apart, more) ↦ rw less (ground (arith, total-remove_key m k keys s.1 more))
      | inr (less, same, absent) ↦ rw less (
          subst (λ z. total (assign m k none) keys + usage_of k (m k) ≡ total m (z ∷ keys))
            (sym same) (ground (arith, assign-other m k none keys absent)))
    ])
