-- ===== src/Value/FileMode/Examples.antt =====
-- Runs of CanonicalFileMode, and its theorems at concrete modes.
use montygo.Prelude.{List, codes, refl, ℕ, ◌↔◌, ◌≡◌}
use montygo.Value.FileMode.{canonical_file_mode, err, ok, update}
use montygo.Value.FileMode.Accepted.{IsMode, canonical_file_mode_iff}

text_write : canonical_file_mode (codes "wt") ≡ ok (codes "w")
unfolding canonical_file_mode
text_write = refl

binary_append : canonical_file_mode (codes "ba") ≡ ok (codes "ab")
unfolding canonical_file_mode
binary_append = refl

update_mode : canonical_file_mode (codes "r+") ≡ err update
unfolding canonical_file_mode
update_mode = refl

canonical_file_mode_iff_example :
    ((c : List ℕ) × (canonical_file_mode (codes "ba") ≡ ok c)) ↔ IsMode (codes "ba")
canonical_file_mode_iff_example = canonical_file_mode_iff (codes "ba")
