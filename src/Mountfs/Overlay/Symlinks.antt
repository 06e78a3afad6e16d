-- ===== src/Mountfs/Overlay/Symlinks.antt =====
-- A path that rejectSymlinkChain accepts has no symlink on it.
use montygo.Prelude.{
  Bool, Bytes, List, Option, [], arith, bytes_eq, false, if◌then◌else◌, none, refl, some, split,
  subst, true, ◌++◌, ◌||◌, ◌∷◌, ◌≡◌,
}
use montygo.Mountfs.Errors.{ok, ◌>>=◌}
use montygo.Mountfs.Host.{
  ComponentWalk, FileType, Host, Looked, OsError, after_class, classify_target, descend, dir_type,
  failed, found, irregular_type, is_missing, past, regular_type, reject_symlink_chain, start_walk,
  symlink_type, target_of, walk_chain, walk_step,
}
use montygo.Value.Vpath.{slash}

-- None of the names, one below the other, is a symlink, as far as there are directories.
abbrev IsTyped : FileType → Option OsError → Type 0 → Type 0
IsTyped symlink_type open_error rest = ⊥
IsTyped dir_type none rest = rest
IsTyped dir_type (some e) rest = is_missing e ≡ true
IsTyped _ open_error rest = Unit

abbrev IsStep : Looked → Option OsError → Type 0 → Type 0
IsStep (failed e) open_error rest = is_missing e ≡ true
IsStep (found fi) open_error rest = IsTyped fi.file_type open_error rest

abbrev pub IsPlain : Host → List Bytes → List Bytes → Type 0
IsPlain h at [] = Unit
IsPlain h at (name ∷ names) =
    IsStep (h.lstat at name) (h.open_root at name) (IsPlain h (at ++ name ∷ []) names)

-- One step of walk_chain.
chained-IsStep :
    (h : Host) (vpath name : Bytes) (names : List Bytes) (w : ComponentWalk) (l : Looked)
    (o : Option OsError) (rest : Type 0)
    → h.open_root w.at name ≡ o
    → (classify_target l vpath
        >>= after_class h name vpath w
        >>= past vpath (walk_chain h vpath names))
      ≡ ok tt
    → (walk_chain h vpath names (record w { at = w.at ++ name ∷ [] }) ≡ ok tt → rest)
    → IsStep l o rest
unfolding classify_target
chained-IsStep h vpath name names w (failed e) o rest open_as made next = ground arith
chained-IsStep h vpath name names w (found fi) o rest open_as made next =
    typed fi.file_type o open_as made
  where
    typed :
        (t : FileType) (o : Option OsError)
        → h.open_root w.at name ≡ o
        → (after_class h name vpath w (target_of t) >>= past vpath (walk_chain h vpath names))
          ≡ ok tt
        → IsTyped t o rest
    typed symlink_type o open_as made = absurd (ground arith)
    typed regular_type o open_as made = tt
    typed irregular_type o open_as made = tt
    typed dir_type none open_as made = next (
        subst (λ o. (descend o name vpath w >>= past vpath (walk_chain h vpath names)) ≡ ok tt)
          open_as made)
    typed dir_type (some e) open_as made = ground (
      arith,
      subst (λ o. (descend o name vpath w >>= past vpath (walk_chain h vpath names)) ≡ ok tt)
          open_as made,
    )

walk_chain-IsPlain :
    (h : Host) (vpath : Bytes) (at names : List Bytes)
    → walk_chain h vpath names (record { at = at; exhausted = false }) ≡ ok tt
    → IsPlain h at names
unfolding walk_chain walk_step
walk_chain-IsPlain h vpath at [] e = tt
walk_chain-IsPlain h vpath at (name ∷ names) e =
    chained-IsStep h vpath name names (record { at = at; exhausted = false }) (h.lstat at name)
      (h.open_root at name) _ refl e (walk_chain-IsPlain h vpath (at ++ name ∷ []) names)

-- The path that a walk along it accepts; the mount itself is not walked.
abbrev pub IsPlainPath : Host → Bytes → Type 0
IsPlainPath h path =
    if bytes_eq path [] || bytes_eq path (b'.' ∷ [])
    then Unit {0}
    else IsPlain h [] (split slash path)

pub reject_symlink_chain-IsPlainPath :
    (h : Host) (path vpath : Bytes) → reject_symlink_chain h path vpath ≡ ok tt → IsPlainPath h path
unfolding reject_symlink_chain
reject_symlink_chain-IsPlainPath h path vpath = test (bytes_eq path [] || bytes_eq path (b'.' ∷ []))
  where
    test :
        (mount : Bool)
        → (if mount then ok tt else walk_chain h vpath (split slash path) start_walk) ≡ ok tt
        → (if mount then Unit {0} else IsPlain h [] (split slash path))
    test true e = tt
    test false e = walk_chain-IsPlain h vpath [] (split slash path) e
