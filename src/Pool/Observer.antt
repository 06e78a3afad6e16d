-- ===== src/Pool/Observer.antt =====
-- internal/pool/observer_lifecycle.go: who uses the observer of a checkout, and when it is told that
-- it is closed. Each function is one critical section with the call of Closed that it decides on.
use montygo.Prelude.{
  Bool, List, Option, [], arith, false, if◌then◌else◌, none, not, refl, some, true, ℕ, ◌&&◌, ◌+◌,
  ◌-◌, ◌==◌, ◌||◌, ◌∷◌, ◌≡◌,
}

-- observerLifetime, and how often Closed was called.
pub record ObserverLifetime : Type 0 where
  pub users : ℕ
  pub closing : Bool
  pub closed : Bool
  pub told : ℕ

abbrev tell : Bool → ObserverLifetime → ObserverLifetime
tell now o = if now then record o { closed = true; told = o.told + 1 } else o

unfoldable pub acquire : ObserverLifetime → Bool × ObserverLifetime
acquire o = if o.closing then (false, o) else (true, record o { users = o.users + 1 })

unfoldable pub release : ObserverLifetime → ObserverLifetime
release o =
    let p = record o { users = o.users - 1 } in tell (p.closing && p.users == 0 && not p.closed) p

unfoldable pub close : ObserverLifetime → ObserverLifetime
close o = let p = record o { closing = true } in tell (p.users == 0 && not p.closed) p

-- The calls on an observer: a release comes from a user.
pub data Call : Type 0 where
  acquires releases closes : Call

unfoldable pub call : Call → ObserverLifetime → Option ObserverLifetime
unfolding acquire release close
call acquires o = some (acquire o).1
call releases o = if o.users == 0 then none else some (release o)
call closes o = some (close o)

unfoldable pub call_all : List Call → ObserverLifetime → Option ObserverLifetime
call_all [] o = some o
call_all (c ∷ cs) o = elim (call c o) [ none ↦ none | some p ↦ call_all cs p ]

abbrev pub unused : ObserverLifetime
unused = record { users = 0; closing = false; closed = false; told = 0 }

-- Closed was called exactly when the observer is closing and has no user, and only once.
pub record IsTold (o : ObserverLifetime) : Type 0 where
  pub due : o.told ≡ (if o.closing && o.users == 0 then 1 else 0)
  pub flagged : o.closed ≡ (o.closing && o.users == 0)

call-IsTold : (c : Call) (o p : ObserverLifetime) → IsTold o → call c o ≡ some p → IsTold p
unfolding call acquire release close
call-IsTold acquires o p h e = ground arith
call-IsTold releases o p h e = ground arith
call-IsTold closes o p h e = ground arith

abbrev pub has_close : List Call → Bool
has_close [] = false
has_close (closes ∷ cs) = true
has_close (c ∷ cs) = has_close cs

call-closing :
    (c : Call) (o p : ObserverLifetime)
    → call c o ≡ some p
    → p.closing ≡ (has_close (c ∷ []) || o.closing)
unfolding call acquire release close
call-closing acquires o p e = ground arith
call-closing releases o p e = ground arith
call-closing closes o p e = ground arith

has_close_cons :
    (c : Call) (cs : List Call) → has_close (c ∷ cs) ≡ (has_close (c ∷ []) || has_close cs)
has_close_cons acquires cs = refl
has_close_cons releases cs = refl
has_close_cons closes cs = refl

-- A call that is made before others.
first_call :
    (m : Option ObserverLifetime) (rest : ObserverLifetime → Option ObserverLifetime)
    (p : ObserverLifetime)
    → elim m [ none ↦ none | some q ↦ rest q ] ≡ some p
    → (q : ObserverLifetime) × (m ≡ some q) × (rest q ≡ some p)
first_call none rest p e = absurd (ground arith)
first_call (some q) rest p e = (q, refl, e)

call_all-IsTold :
    (cs : List Call) (o p : ObserverLifetime)
    → IsTold o
    → call_all cs o ≡ some p
    → IsTold p × (p.closing ≡ (has_close cs || o.closing))
unfolding call_all
call_all-IsTold [] o p h e = ground arith
call_all-IsTold (c ∷ cs) o p h e =
    let (q, f, g) = first_call (call c o) (call_all cs) p e in
    let (k, l) = call_all-IsTold cs q p (call-IsTold c o q h f) g in
    (k, ground (arith, l, call-closing c o q f, has_close_cons c cs))

-- Whatever calls the users of a new observer and the ends of its session make, in any order: after
-- them Closed was called once if the session has ended and no user is left, and else never; and a
-- new user is let in exactly if the session has not ended.
pub told_once :
    (cs : List Call) (o : ObserverLifetime)
    → call_all cs unused ≡ some o
    → (o.told ≡ (if has_close cs && o.users == 0 then 1 else 0))
      × ((acquire o).0 ≡ not (has_close cs))
unfolding acquire
told_once cs o e =
    let (h, k) = call_all-IsTold cs unused o (record { due = refl; flagged = refl }) e in
    ground (arith, h.due, k)
