-- ===== src/Mountfs/OverlayState/Examples.antt =====
-- An overlay with one file, and the theorems at it.
use montygo.Prelude.{Bytes, [], arith, bytes_eq, codes, none, refl, some, true, ◌∷◌, ◌≡◌}
use montygo.Mountfs.Errors.{Result, memory_limit}
use montygo.Mountfs.OverlayState.{
  OverlayEntry, OverlayState, append_file, assign, base_entry_usage, check_replacements,
  entry_usage, file, insert, insert_key, new_overlay_state, project_batch, projected_usage, put,
  sat_add, sat_sub, search_strings,
}
use montygo.Mountfs.OverlayState.Accounting.{Accounted, new_overlay_state-Accounted}
use montygo.Mountfs.OverlayState.Budget.{insert-Accounted}

abbrev name : Bytes
name = codes "a"

abbrev small_file : OverlayEntry
small_file = file (codes "xy") 0

abbrev one_file : OverlayState
one_file = record {
  entries = assign (λ key. none) name (some small_file);
  keys = name ∷ [];
  usage = 307;
}

abbrev longer : OverlayState
longer = record one_file {
  entries = assign one_file.entries name (some (file (codes "xyz") 5));
  usage = 308;
}

inserted : insert name small_file 1000 new_overlay_state ≡ Result.ok one_file
unfolding insert projected_usage put insert_key search_strings entry_usage base_entry_usage sat_add
    sat_sub
inserted = refl

too_much : insert name small_file 300 new_overlay_state ≡ Result.err (memory_limit 300)
unfolding insert projected_usage entry_usage base_entry_usage sat_add sat_sub
too_much = refl

-- The second write to a key replaces the first, also in a batch.
twice :
    check_replacements
      (record { key = name; entry = file (codes "xyz") 0 }
        ∷ record { key = name; entry = small_file }
        ∷ [])
      307
      one_file
    ≡ Result.ok tt
unfolding check_replacements project_batch entry_usage base_entry_usage sat_add sat_sub bytes_eq
twice = refl

appended : append_file name (codes "z") 5 1000 one_file ≡ Result.ok (true, longer)
unfolding append_file sat_add bytes_eq
appended = refl

one_file-Accounted : Accounted one_file
one_file-Accounted =
    (insert-Accounted name small_file 1000 new_overlay_state one_file new_overlay_state-Accounted
      (omega arith) inserted).0
