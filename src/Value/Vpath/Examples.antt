-- ===== src/Value/Vpath/Examples.antt =====
-- Runs of the virtual paths, and their theorems at concrete paths.
use montygo.Prelude.{
  bytes_eq, codes, contains_byte, ends_with, has_prefix, last_index, refl, split, trim_right, ◌≡◌,
}
use montygo.Value.Vpath.{
  build, invalid, is_normalized_virtual_path, is_special, normalize_virtual_path, not_absolute,
  rebuild, step, valid, validate_cwd,
}
use montygo.Value.Vpath.Segments.{path_of}
use montygo.Value.Vpath.Normal.{names, normalize_virtual_path-names}

climbs : normalize_virtual_path (codes "/a/./b//../../../c/") ≡ codes "/c"
unfolding normalize_virtual_path rebuild is_normalized_virtual_path build step split has_prefix
    ends_with last_index bytes_eq is_special
climbs = refl

relative_path : normalize_virtual_path (codes "x/y") ≡ codes "/x/y"
unfolding normalize_virtual_path rebuild is_normalized_virtual_path build step split has_prefix
    ends_with last_index bytes_eq is_special
relative_path = refl

kept_dots : validate_cwd (codes "/a/../b//") ≡ valid (codes "/a/../b")
unfolding validate_cwd contains_byte has_prefix trim_right bytes_eq
kept_dots = refl

refused : validate_cwd (codes "a") ≡ invalid not_absolute
unfolding validate_cwd contains_byte has_prefix trim_right bytes_eq
refused = refl

normalize_virtual_path-names_example :
    normalize_virtual_path (codes "/a/../b") ≡ path_of (names (codes "/a/../b"))
normalize_virtual_path-names_example = normalize_virtual_path-names (codes "/a/../b")
