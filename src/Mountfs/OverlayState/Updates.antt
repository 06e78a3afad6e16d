-- ===== src/Mountfs/OverlayState/Updates.antt =====
-- Removal of an entry.
use montygo.Prelude.{
  Bool-cases, Bytes, List, Option-cases, [], ap, arith, bytes_eq, bytes_eq_iff, false, inl, inr,
  none, not, refl, some, sym, true, ◌&&◌, ◌∙◌, ◌∷◌, ◌≡◌,
}
use montygo.Mountfs.OverlayState.{
  OverlayEntry, OverlayState, assign, entry_usage, remove, remove_key, sat_sub, usage_of,
}
use montygo.Mountfs.OverlayState.Keys.{
  IsSorted, found_or_behind, has_key, remove_key-IsSorted, remove_key-cons,
}
use montygo.Mountfs.OverlayState.Budget.{bytes_eq_sym}
use montygo.Mountfs.OverlayState.Accounting.{Accounted, assign-same, is_there, total-remove_key}

has_key-remove_key :
    (keys : List Bytes) (k y : Bytes)
    → IsSorted keys
    → has_key keys k ≡ true
    → has_key (remove_key keys k) y ≡ (not (bytes_eq y k) && has_key keys y)
has_key-remove_key [] k y s h = ground arith
has_key-remove_key (x ∷ keys) k y s h =
    rw (remove_key-cons x keys k) (elim (found_or_behind x keys k s h) [
      | inl (less, apart, more) ↦ rw less (elim (Bool-cases (bytes_eq x y)) [
        | inl e ↦
            ground (arith, (bytes_eq_iff x y).0 e, apart, has_key-remove_key keys k y s.1 more)
        | inr e ↦ ground (arith, has_key-remove_key keys k y s.1 more)
      ])
      | inr (less, same, absent) ↦ rw less (elim (Bool-cases (bytes_eq y k)) [
        | inl e ↦ ground (arith, (bytes_eq_iff y k).0 e, absent)
        | inr e ↦ ground (arith, bytes_eq_sym y k, same)
      ])
    ])

remove-absent : (key : Bytes) (s : OverlayState) → s.entries key ≡ none → remove key s ≡ (none, s)
unfolding remove
remove-absent key s absent = ground arith

abbrev without : Bytes → OverlayEntry → OverlayState → OverlayState
without key e s = record s {
  entries = assign s.entries key none;
  keys = remove_key s.keys key;
  usage = sat_sub s.usage (entry_usage key e);
}

remove-found :
    (key : Bytes) (e : OverlayEntry) (s : OverlayState)
    → s.entries key ≡ some e
    → remove key s ≡ (some e, without key e s)
unfolding remove
remove-found key e s found = ground arith

without-Accounted :
    (key : Bytes) (e : OverlayEntry) (s : OverlayState)
    → Accounted s
    → s.entries key ≡ some e
    → Accounted (without key e s)
unfolding sat_sub
without-Accounted key e s h found =
    let there : has_key s.keys key ≡ true = h.keyed key ∙ ap is_there found in
    let gone = total-remove_key s.entries key s.keys h.sorted there in
    record {
      sorted = remove_key-IsSorted s.keys key h.sorted;
      keyed = λ k. ground (arith, has_key-remove_key s.keys key k h.sorted there, h.keyed k);
      summed = ground (arith, gone, ap (usage_of key) found, h.summed);
      in_word = ground (arith, h.in_word);
    }

-- From an accounted overlay, remove returns the entry of the key, takes it and no other away, and
-- leaves an accounted overlay.
pub remove-Accounted :
    (key : Bytes) (s : OverlayState)
    → Accounted s
    → let t = (remove key s).1 in
      ((remove key s).0 ≡ s.entries key)
      × Accounted t
      × (t.entries key ≡ none)
      × ((k : Bytes) → bytes_eq k key ≡ false → t.entries k ≡ s.entries k)
remove-Accounted key s h = elim (Option-cases (s.entries key)) [
  | inl absent ↦ rw (remove-absent key s absent) (sym absent, h, absent, λ k apart. refl)
  | inr (e, found) ↦ rw (remove-found key e s found) (
    sym found,
    without-Accounted key e s h found,
    assign-same s.entries key none,
    λ k apart. ground arith,
  )
]
