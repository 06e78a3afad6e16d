-- ===== src/Pool/Lease.antt =====
-- internal/pool/lease.go: the arbitration between the release of a checkout's worker and its
-- termination from outside. A cause is a number, or none for a nil error; each function is one
-- critical section.
use montygo.Prelude.{Bool, List, Option, [], arith, false, none, refl, some, true, ℕ, ◌+◌, ◌∷◌, ◌≡◌}
use montygo.Pool.{Slot}

pub record CheckoutLease : Type 0 where
  pub slot : Option Slot
  pub worker : ℕ
  pub cause : Option ℕ

unfoldable pub active : CheckoutLease → Bool
active l = elim l.slot [ none ↦ false | some s ↦ true ]

unfoldable pub finish : CheckoutLease → Option Slot × CheckoutLease
finish l = (l.slot, record l { slot = none })

unfoldable pub terminate : Option ℕ → CheckoutLease → Option ℕ × CheckoutLease
terminate cause l = elim l.slot [
  | none ↦ (none, l)
  | some s ↦ (some l.worker, record l { slot = none; cause = cause })
]

-- The calls on a lease, in the order in which they take its mutex, and how many of them win it.
pub data Claim : Type 0 where
  finishes : Claim
  terminates : Option ℕ → Claim

wins {ℓ} : {A : Type ℓ} → Option A → ℕ
wins none = 0
wins (some a) = 1

pub claim : Claim → CheckoutLease → ℕ × CheckoutLease
unfolding finish terminate wins
claim finishes l = (wins (finish l).0, (finish l).1)
claim (terminates cause) l = (wins (terminate cause l).0, (terminate cause l).1)

pub run : List Claim → CheckoutLease → ℕ × CheckoutLease
unfolding claim
run [] l = (0, l)
run (c ∷ cs) l = let after = claim c l in let rest = run cs after.1 in (after.0 + rest.0, rest.1)

abbrev pub cause_of : Claim → Option ℕ → Option ℕ
cause_of finishes old = old
cause_of (terminates cause) old = cause

run-empty : (cs : List Claim) (l : CheckoutLease) → l.slot ≡ none → run cs l ≡ (0, l)
unfolding run claim finish terminate wins active
run-empty [] l e = refl
run-empty (finishes ∷ cs) l e = ground (arith, run-empty cs (record l { slot = none }) refl)
run-empty (terminates cause ∷ cs) l e = ground (arith, run-empty cs l e)

-- However releases and terminations of an active lease race, exactly one of them wins the worker,
-- the first; afterwards the lease is not active, and its cause is the winner's if that is a
-- termination, else what it was.
pub run_once :
    (c : Claim) (cs : List Claim) (l : CheckoutLease)
    → active l ≡ true
    → ((run (c ∷ cs) l).0 ≡ 1)
      × (active (run (c ∷ cs) l).1 ≡ false)
      × ((run (c ∷ cs) l).1.cause ≡ cause_of c l.cause)
unfolding run claim finish terminate wins active
run_once finishes cs l h = ground (arith, run-empty cs (record l { slot = none }) refl)
run_once (terminates cause) cs l h =
    ground (arith, run-empty cs (record l { slot = none; cause = cause }) refl)
