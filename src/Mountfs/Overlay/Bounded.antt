-- ===== src/Mountfs/Overlay/Bounded.antt =====
-- Every call keeps an overlay mount within its limits.
use montygo.Prelude.{
  Bool, Bool-cases, Bytes, List, Option, [], ap, arith, bytes_eq, bytes_eq_iff, false, inl, inr,
  length, none, refl, some, split, subst, sym, true, ℕ, ◌<◌, ◌∙◌, ◌∷◌, ◌≡◌, ◌≤◌,
}
use montygo.Mountfs.Errors.{Result, check-ok, err, ok}
use montygo.Mountfs.OverlayState.{
  OverlayEntry, OverlayState, deleted, directory, entry_usage, file, get, max_uint64, sat_add,
  usage_of,
}
use montygo.Mountfs.OverlayState.Accounting.{Accounted}
use montygo.Mountfs.OverlayState.Budget.{usage_of-total}
use montygo.Mountfs.Overlay.{
  OverlayMount, check_write_limit, child_key, commit_write_bytes, overlay_write, store,
}
use montygo.Mountfs.Overlay.Writing.{
  IsBounded, SameMount, check_write_limit_same, commit-IsBounded, overlay_write-ok, store-IsBounded,
}
use montygo.Mountfs.Overlay.Changes.{
  Changed, can_unlink, continued, create_parents, created, created_if, mkdir_parents, on_way,
  overlay_mkdir, overlay_unlink, then_created, unless_there, wants,
}
use montygo.Mountfs.Host.{ComponentWalk, Host, RealTarget, start_walk, walk_step}
use montygo.Mountfs.PathPolicy.{format_child_path}
use montygo.Value.Vpath.{slash}

-- The largest length of a Go slice, and one more.
abbrev pub slice_end : ℕ
slice_end = 9223372036854775808

pub record IsSafe (m : OverlayMount) : Type 0 where
  pub bounded : IsBounded m
  pub small : m.mem_limit < slice_end
  pub sized :
      (k content : Bytes) (mtime : ℕ)
      → m.state.entries k ≡ some (file content mtime)
      → length content ≤ m.mem_limit

-- The mount behind a call on a safe one.
abbrev pub Steady : OverlayMount → OverlayMount → Type 0
Steady m n = SameMount m n × IsSafe n

pub Steady-trans : (m n p : OverlayMount) → Steady m n → Steady n p → Steady m p
Steady-trans m n p f g = (ground (arith, f.0, g.0), g.1)

-- A file that the account holds is no longer than the usage.
pub file_size :
    (s : OverlayState) (k content : Bytes) (mtime : ℕ)
    → Accounted s
    → length content ≤ max_uint64
    → s.entries k ≡ some (file content mtime)
    → length content ≤ s.usage
unfolding entry_usage sat_add
file_size s k content mtime h small here =
    ground (arith, usage_of-total k s h, h.summed, ap (usage_of k) here)

abbrev IsShort : OverlayEntry → Type 0
IsShort e = (content : Bytes) (mtime : ℕ) → e ≡ file content mtime → length content ≤ max_uint64

pub store-Steady :
    (rel : Bytes) (e : OverlayEntry) (m n : OverlayMount)
    → IsSafe m
    → IsShort e
    → store rel e m ≡ ok n
    → Steady m n
store-Steady rel e m n h short made =
    let (good, same, used, here, others) =
      store-IsBounded rel e m n h.bounded (omega (arith, h.small)) made in
    (
      same,
      record {
        bounded = good;
        small = rw same.1 h.small;
        sized = λ k content mtime there. elim (Bool-cases (bytes_eq k rel)) [
          | inl eq ↦
              let at_rel : n.state.entries rel ≡ some (file content mtime) =
                ap n.state.entries (sym ((bytes_eq_iff k rel).0 eq)) ∙ there in
              let stored : e ≡ file content mtime = ground (arith, at_rel, here) in
              omega (
                arith,
                file_size n.state k content mtime good.accounted (short content mtime stored) there,
                good.in_memory,
              )
          | inr apart ↦
              omega (arith, h.sized k content mtime (sym (others k apart) ∙ there), same.1)
        ];
      },
    )

pub commit-Steady :
    (count : ℕ) (m : OverlayMount)
    → IsSafe m
    → check_write_limit count m ≡ ok tt
    → Steady m (commit_write_bytes count m)
commit-Steady count m h checked =
    let (good, same, kept) = commit-IsBounded count m h.bounded checked in
    (
      same,
      record {
        bounded = good;
        small = rw same.1 h.small;
        sized = λ k content mtime there. omega (
          arith,
          h.sized k content mtime (sym (ap (λ (s : OverlayState). s.entries k) kept) ∙ there),
          same.1,
        );
      },
    )

pub write-Steady :
    (h : Host) (vpath data_ : Bytes) (now : ℕ) (m n : OverlayMount)
    → IsSafe m
    → length data_ < slice_end
    → overlay_write h vpath data_ now m ≡ ok n
    → Steady m n
write-Steady h vpath data_ now m n safe short made =
    let (rel, p, resolved, parents, checked, stored, is) =
      overlay_write-ok h vpath data_ now m n made in
    let first =
      store-Steady rel (file data_ now) m p safe (λ content mtime e. ground (arith, short, e))
        stored in
    let used =
      (store-IsBounded rel (file data_ now) m p safe.bounded (omega (arith, safe.small))
        stored).2 in
    let again = check_write_limit_same (length data_) m p first.0.2 used checked in
    subst (Steady m) (sym is) (
      Steady-trans m p (commit_write_bytes (length data_) p) first
        (commit-Steady (length data_) p first.1 again))

pub unlink-Steady :
    (h : Host) (rel vpath : Bytes) (m n : OverlayMount)
    → IsSafe m
    → overlay_unlink h rel vpath m ≡ ok n
    → Steady m n
unfolding overlay_unlink
unlink-Steady h rel vpath m n safe made =
    let (allowed, stored) =
      check-ok (can_unlink h rel vpath m (get rel m.state)) (store rel deleted m) n made in
    store-Steady rel deleted m n safe (λ content mtime e. absurd (ground arith)) stored

-- A directory on the way is created, or the mount stays.
created-Steady :
    (key : Bytes) (now : ℕ) (m : OverlayMount) (go : OverlayMount → Changed)
    → IsSafe m
    → ((n : OverlayMount) → IsSafe n → Steady n (go n).1)
    → Steady m (created key now m go).1
created-Steady key now m go safe next = behind (store key (directory now) m) refl
  where
    behind :
        (r : Result OverlayMount) → store key (directory now) m ≡ r → Steady m (continued r m go).1
    behind (err e) k = ((refl, refl, refl), safe)
    behind (ok n) k =
        let first =
          store-Steady key (directory now) m n safe (λ content mtime e. absurd (ground arith)) k in
        Steady-trans m n (go n).1 first (next n first.1)

created_if-Steady :
    (wanted : Result Bool) (key : Bytes) (now : ℕ) (m : OverlayMount) (go : OverlayMount → Changed)
    → IsSafe m
    → ((n : OverlayMount) → IsSafe n → Steady n (go n).1)
    → Steady m (created_if wanted key now m go).1
created_if-Steady (err e) key now m go safe next = ((refl, refl, refl), safe)
created_if-Steady (ok false) key now m go safe next = next m safe
created_if-Steady (ok true) key now m go safe next = created-Steady key now m go safe next

on_way-Steady :
    (walked : Result (RealTarget × ComponentWalk)) (key vpath : Bytes) (now : ℕ) (m : OverlayMount)
    (go : ComponentWalk → OverlayMount → Changed)
    → IsSafe m
    → ((w : ComponentWalk) (n : OverlayMount) → IsSafe n → Steady n (go w n).1)
    → Steady m (on_way walked key vpath now m go).1
on_way-Steady (err e) key vpath now m go safe next = ((refl, refl, refl), safe)
on_way-Steady (ok (real, w)) key vpath now m go safe next =
    created_if-Steady (wants (get key m.state) real vpath) key now m (go w) safe (next w)

create_parents-Steady :
    (h : Host) (now : ℕ) (current : Bytes) (w : ComponentWalk) (names : List Bytes)
    (m : OverlayMount)
    → IsSafe m
    → Steady m (create_parents h now current w names m).1
unfolding create_parents
create_parents-Steady h now current w [] m safe = ((refl, refl, refl), safe)
create_parents-Steady h now current w (name ∷ names) m safe =
    let next = child_key current name in
    let vpath = format_child_path m.virtual_path next in
    on_way-Steady (walk_step h name vpath w) next vpath now m
      (λ v. create_parents h now next v names) safe
      (λ v n k. create_parents-Steady h now next v names n k)

mkdir_parents-Steady :
    (h : Host) (rel : Bytes) (parents : Bool) (now : ℕ) (vpath : Bytes) (m : OverlayMount)
    → IsSafe m
    → Steady m (mkdir_parents h rel parents now vpath m).1
mkdir_parents-Steady h rel true now vpath m safe =
    create_parents-Steady h now [] start_walk (split slash rel) m safe
mkdir_parents-Steady h rel false now vpath m safe = ((refl, refl, refl), safe)

pub mkdir-Steady :
    (h : Host) (rel : Bytes) (parents exist_ok : Bool) (now : ℕ) (vpath : Bytes) (m : OverlayMount)
    → IsSafe m
    → Steady m (overlay_mkdir h rel parents exist_ok now vpath m).1
unfolding overlay_mkdir
mkdir-Steady h rel parents exist_ok now vpath m safe = unless _ _ (
    made (mkdir_parents h rel parents now vpath m)
      (mkdir_parents-Steady h rel parents now vpath m safe))
  where
    made : (q : Changed) → Steady m q.1 → Steady m (then_created rel now q).1
    made (err e, n) k = k
    made (ok _, n) k =
        Steady-trans m n _ k
          (created-Steady rel now n (λ p. (ok tt, p)) k.1 (λ p safer. ((refl, refl, refl), safer)))

    unless :
        (answer : Option (Result (Unit {0}))) (q : Changed)
        → Steady m q.1
        → Steady m (unless_there answer m q).1
    unless none q k = k
    unless (some answer) q k = ((refl, refl, refl), safe)
