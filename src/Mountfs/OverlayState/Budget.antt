-- ===== src/Mountfs/OverlayState/Budget.antt =====
-- Every operation of the overlay keeps its account of the memory exact and within the limit.
use montygo.Prelude.{
  Bool-cases, Bytes, Option-cases, [], ap, arith, bytes_eq, bytes_eq_iff, false, inl, inr, none,
  refl, some, subst, sym, true, ℕ, ◌+◌, ◌-◌, ◌<◌, ◌∙◌, ◌∷◌, ◌≡◌, ◌≤◌,
}
use montygo.Mountfs.OverlayState.{
  OverlayEntry, OverlayState, assign, base_entry_usage, entry_usage, insert, max_uint64,
  projected_usage, put, sat_add, sat_sub, usage_of,
}
use montygo.Mountfs.OverlayState.Keys.{IsSorted, has_key, has_key-insert_key, insert_key-IsSorted}
use montygo.Mountfs.OverlayState.Accounting.{
  Accounted, assign-other, assign-same, is_there, total, total-insert_key, total-replace,
}
use montygo.Mountfs.Errors.{Result}

sat_add_bound : (a b : ℕ) → sat_add a b ≤ max_uint64
unfolding sat_add
sat_add_bound a b = ground arith

pub sat_add_exact :
    (a b : ℕ) → a ≤ max_uint64 → b ≤ max_uint64 → sat_add a b < max_uint64 → sat_add a b ≡ a + b
unfolding sat_add
sat_add_exact a b p q h = ground arith

sat_add_le : (a b : ℕ) → a ≤ max_uint64 → b ≤ max_uint64 → sat_add a b ≤ a + b
unfolding sat_add
sat_add_le a b p q = ground arith

entry_usage_bound : (k : Bytes) (e : OverlayEntry) → entry_usage k e ≤ max_uint64
unfolding entry_usage
entry_usage_bound k e = sat_add_bound _ _

pub bytes_eq_sym : (a b : Bytes) → bytes_eq a b ≡ bytes_eq b a
unfolding bytes_eq
bytes_eq_sym [] [] = refl
bytes_eq_sym [] (y ∷ b) = refl
bytes_eq_sym (x ∷ a) [] = refl
bytes_eq_sym (x ∷ a) (y ∷ b) = ground (arith, bytes_eq_sym a b)

pub base_entry_usage_bound : (k : Bytes) → base_entry_usage k ≤ max_uint64
unfolding base_entry_usage
base_entry_usage_bound k = sat_add_bound _ _

-- put gives the key its entry and keeps the keys in order.
pub put-keys :
    (key : Bytes) (e : OverlayEntry) (s : OverlayState)
    → Accounted s
    → IsSorted (put key e s).keys
      × ((k : Bytes) → has_key (put key e s).keys k ≡ is_there ((put key e s).entries k))
      × (total (put key e s).entries (put key e s).keys + usage_of key (s.entries key)
          ≡ total s.entries s.keys + entry_usage key e)
unfolding put
put-keys key e s h = elim (Option-cases (s.entries key)) [
  | inl absent ↦
      let free : has_key s.keys key ≡ false = h.keyed key ∙ ap is_there absent in
      rw absent (
        insert_key-IsSorted s.keys key h.sorted free,
        (λ k. ground (arith, h.keyed k, has_key-insert_key s.keys key k, bytes_eq_sym k key)),
        ground (
          arith,
          total-insert_key (assign s.entries key (some e)) key s.keys,
          assign-other s.entries key (some e) s.keys free,
          ap (usage_of key) (assign-same s.entries key (some e)),
        ),
      )
  | inr (old, found) ↦
      let there : has_key s.keys key ≡ true = h.keyed key ∙ ap is_there found in
      let replaced = total-replace s.entries key (some e) s.keys h.sorted there in
      rw found (
        h.sorted,
        (λ k. elim (Bool-cases (bytes_eq k key)) [
          | inl eq ↦
              rw ((bytes_eq_iff k key).0 eq)
                (there ∙ sym (ap is_there (assign-same s.entries key (some e))))
          | inr apart ↦ rw apart (h.keyed k)
        ]),
        ground (arith, replaced, found),
      )
]

insert_ok :
    (key : Bytes) (e : OverlayEntry) (limit : ℕ) (s t : OverlayState)
    → insert key e limit s ≡ Result.ok t
    → (projected_usage key e s ≤ limit)
      × (t ≡ record (put key e s) { usage = projected_usage key e s })
unfolding insert
insert_ok key e limit s t made = ground arith

-- What one entry uses is part of the sum.
pub usage_of-total :
    (key : Bytes) (s : OverlayState)
    → Accounted s
    → usage_of key (s.entries key) ≤ total s.entries s.keys
usage_of-total key s h = elim (Option-cases (s.entries key)) [
  | inl absent ↦ rw absent (omega arith)
  | inr (old, found) ↦
      ground
        (arith, total-replace s.entries key none s.keys h.sorted (h.keyed key ∙ ap is_there found))
]

projected-total :
    (key : Bytes) (e : OverlayEntry) (s : OverlayState)
    → Accounted s
    → projected_usage key e s < max_uint64
    → projected_usage key e s ≡ total (put key e s).entries (put key e s).keys
unfolding projected_usage sat_sub
projected-total key e s h small =
    let (sorted, keyed, sum) = put-keys key e s h in
    let part = usage_of-total key s h in
    let word = h.in_word in
    let left = s.usage - usage_of key (s.entries key) in
    let sub : sat_sub s.usage (usage_of key (s.entries key)) ≡ left =
      ground (arith, h.summed, part) in
    let exact =
      sat_add_exact (sat_sub s.usage (usage_of key (s.entries key))) (entry_usage key e)
        (omega (arith, sub, word)) (entry_usage_bound key e) small in
    omega (arith, exact, sub, sum, part, h.summed)

-- From an accounted overlay, insert within a limit below 2^64 - 1, where it succeeds, stores the
-- entry and changes no other; the overlay stays accounted and its usage is within the limit.
pub insert-Accounted :
    (key : Bytes) (e : OverlayEntry) (limit : ℕ) (s t : OverlayState)
    → Accounted s
    → limit < max_uint64
    → insert key e limit s ≡ Result.ok t
    → Accounted t
      × (t.usage ≤ limit)
      × (t.entries key ≡ some e)
      × ((k : Bytes) → bytes_eq k key ≡ false → t.entries k ≡ s.entries k)
insert-Accounted key e limit s t h small made =
    let (within, is) = insert_ok key e limit s t made in
    let (sorted, keyed, sum) = put-keys key e s h in
    let exact = projected-total key e s h (omega (arith, within, small)) in
    subst
      (λ t.
        Accounted t
        × (t.usage ≤ limit)
        × (t.entries key ≡ some e)
        × ((k : Bytes) → bytes_eq k key ≡ false → t.entries k ≡ s.entries k))
      (sym is)
      (
        record {
          sorted = sorted;
          keyed = keyed;
          summed = exact;
          in_word = omega (arith, within, small);
        },
        within,
        (unfold put in assign-same s.entries key (some e)),
        λ k apart. unfold put in ground arith,
      )
