-- ===== src/Mountfs/OverlayState/Appends.antt =====
-- Data appended to a file.
use montygo.Prelude.{
  Bool, Bytes, Option, ap, arith, false, inl, inr, length, length-append, none, refl, some, subst,
  sym, true, ℕ, ◌++◌, ◌+◌, ◌<◌, ◌∙◌, ◌≡◌, ◌≤◌, ◌⊎◌,
}
use montygo.Mountfs.OverlayState.{
  OverlayEntry, OverlayState, append_file, assign, base_entry_usage, deleted, directory,
  entry_usage, file, max_uint64, put, real_file_ref, sat_add, usage_of,
}
use montygo.Mountfs.OverlayState.Keys.{has_key}
use montygo.Mountfs.OverlayState.Budget.{
  base_entry_usage_bound, put-keys, sat_add_exact, usage_of-total,
}
use montygo.Mountfs.OverlayState.Accounting.{Accounted, assign-same, is_there, total-replace}
use montygo.Mountfs.Errors.{Result}

sat_add_small : (a b : ℕ) → a + b ≤ max_uint64 → sat_add a b ≡ a + b
unfolding sat_add
sat_add_small a b h = ground arith

-- A file that grows within the word uses the more bytes.
entry_usage-append :
    (key content more : Bytes) (old mtime : ℕ)
    → length (content ++ more) ≤ max_uint64
    → entry_usage key (file content old) + length more < max_uint64
    → entry_usage key (file (content ++ more) mtime)
      ≡ entry_usage key (file content old) + length more
unfolding entry_usage
entry_usage-append key content more old mtime words small =
    let base = base_entry_usage key in
    let size = length-append content more in
    let exact : sat_add base (length content) ≡ base + length content =
      sat_add_exact base (length content) (base_entry_usage_bound key) (omega (arith, size, words))
        (omega (arith, small)) in
    rw size (
      omega (
        arith,
        exact,
        sat_add_small base (length content + length more) (omega (arith, exact, small)),
      ))

-- What stands at a key.
entry_cases :
    (o : Option OverlayEntry)
    → ((content : Bytes) × (old : ℕ) × (o ≡ some (file content old)))
      ⊎ (o ≡ none)
      ⊎ ((relative : Bytes) × (mtime : ℕ) × (size : ℕ) × (o
            ≡ some (real_file_ref relative mtime size)))
      ⊎ ((mtime : ℕ) × (o ≡ some (directory mtime)))
      ⊎ (o ≡ some deleted)
entry_cases none = inr (inl refl)
entry_cases (some (file content old)) = inl (content, old, refl)
entry_cases (some (real_file_ref relative mtime size)) =
    inr (inr (inl (relative, mtime, size, refl)))
entry_cases (some (directory mtime)) = inr (inr (inr (inl (mtime, refl))))
entry_cases (some deleted) = inr (inr (inr (inr refl)))

pub append_ok :
    (key more : Bytes) (mtime limit : ℕ) (s t : OverlayState) (found : Bool)
    → append_file key more mtime limit s ≡ Result.ok (found, t)
    → ((found ≡ false) × (t ≡ s))
      ⊎ ((content : Bytes) × (old : ℕ) × (found ≡ true)
          × (s.entries key ≡ some (file content old))
          × (sat_add s.usage (length more) ≤ limit)
          × (t ≡ record s {
            entries = assign s.entries key (some (file (content ++ more) mtime));
            usage = sat_add s.usage (length more);
          }))
unfolding append_file
append_ok key more mtime limit s t found made = elim (entry_cases (s.entries key)) [
  | inl (content, old, here) ↦ inr (content, old, ground arith, here, ground arith, ground arith)
  | inr (inl here) ↦ inl (ground arith, ground arith)
  | inr (inr (inl (relative, old, size, here))) ↦ inl (ground arith, ground arith)
  | inr (inr (inr (inl (old, here)))) ↦ inl (ground arith, ground arith)
  | inr (inr (inr (inr here))) ↦ inl (ground arith, ground arith)
]

grown-Accounted :
    (key content more : Bytes) (old mtime limit : ℕ) (s : OverlayState)
    → Accounted s
    → limit < max_uint64
    → length (content ++ more) ≤ max_uint64
    → s.entries key ≡ some (file content old)
    → sat_add s.usage (length more) ≤ limit
    → Accounted (record s {
      entries = assign s.entries key (some (file (content ++ more) mtime));
      usage = sat_add s.usage (length more);
    })
      × (sat_add s.usage (length more) ≡ s.usage + length more)
unfolding put
grown-Accounted key content more old mtime limit s h small words here within =
    let there : has_key s.keys key ≡ true = h.keyed key ∙ ap is_there here in
    let new = file (content ++ more) mtime in
    let (_, keyed, _) = put-keys key new s h in
    let replaced = total-replace s.entries key (some new) s.keys h.sorted there in
    let size = length-append content more in
    let word = h.in_word in
    let exact : sat_add s.usage (length more) ≡ s.usage + length more =
      sat_add_exact s.usage (length more) word (omega (arith, size, words))
        (omega (arith, within, small)) in
    let part = usage_of-total key s h in
    let used = ap (usage_of key) here in
    let entry =
      entry_usage-append key content more old mtime words
        (omega (arith, part, used, h.summed, exact, within, small)) in
    (
      record {
        sorted = h.sorted;
        keyed = λ k. ground (arith, keyed k, here);
        summed = omega (arith, replaced, used, entry, exact, h.summed);
        in_word = omega (arith, within, small);
      },
      exact,
    )

-- From an accounted overlay, within a limit below 2^64 - 1, and when the file with the data is no
-- longer than a 64-bit number: where appendFile succeeds, the overlay stays accounted; it changes
-- nothing when it reports no file, and else adds the data to the file's content, sets the mtime,
-- adds the data's length to the usage, and keeps within the limit.
pub append_file-Accounted :
    (key data_ : Bytes) (mtime limit : ℕ) (s t : OverlayState) (found : Bool)
    → Accounted s
    → limit < max_uint64
    → ((content : Bytes) (old : ℕ)
        → s.entries key ≡ some (file content old)
        → length (content ++ data_) ≤ max_uint64)
    → append_file key data_ mtime limit s ≡ Result.ok (found, t)
    → Accounted t
      × (found ≡ false → t ≡ s)
      × (found ≡ true
          → (content : Bytes) × (old : ℕ) × (s.entries key ≡ some (file content old))
            × (t.entries key ≡ some (file (content ++ data_) mtime))
            × (t.usage ≡ s.usage + length data_)
            × (t.usage ≤ limit))
append_file-Accounted key data_ mtime limit s t found h small words made =
    elim (append_ok key data_ mtime limit s t found made) [
      | inl (no_file, same) ↦ (subst Accounted (sym same) h, (λ _. same), λ yes_file. cc)
      | inr (content, old, yes_file, here, within, is) ↦
          let (good, exact) =
            grown-Accounted key content data_ old mtime limit s h small (words content old here)
              here within in
          (
            subst Accounted (sym is) good,
            (λ missing. cc),
            λ _. (
              content,
              old,
              here,
              ap (λ u. u.entries key) is
                  ∙ assign-same s.entries key (some (file (content ++ data_) mtime)),
              ap (λ u. u.usage) is ∙ exact,
              subst (λ u. u.usage ≤ limit) (sym is) within,
            ),
          )
    ]
