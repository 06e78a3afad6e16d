-- ===== src/Session/Slot.antt =====
-- slot.go: a holder of at most one session. A session is a number; a checkout returns a session or an
-- error. The slot asks a session for its state more than once in a call, and the goroutines of the
-- session run meanwhile: `before` is what State reports of each at the first time, `behind` at the
-- second.
use montygo.Prelude.{Bool, Option, false, if◌then◌else◌, none, some, true, ℕ}
use montygo.Session.{Error, session_busy, session_closed}
use montygo.Session.Control.{SessionState, session_closed_state, session_idle}

pub record Slot : Type 0 where
  pub session : Option ℕ
  pub closed_slot : Bool

pub data Acquired : Type 0 where
  acquired : ℕ → Acquired
  not_acquired : Option Error → Acquired

abbrev pub is_closed_state : SessionState → Bool
is_closed_state session_closed_state = true
is_closed_state _ = false

-- Whether the slot has a session that is not closed.
abbrev pub usable : (ℕ → SessionState) → Option ℕ → Option ℕ
usable states none = none
usable states (some s) = if is_closed_state (states s) then none else some s

-- Slot.State.
unfoldable pub slot_state : (ℕ → SessionState) → (ℕ → SessionState) → Slot → SessionState
slot_state before behind k =
    if k.closed_slot
    then session_closed_state
    else elim (usable before k.session) [ none ↦ session_idle | some s ↦ behind s ]

abbrev pub checked_out : Acquired → Slot → Acquired × Slot
checked_out (acquired s) k = (acquired s, record k { session = some s })
checked_out (not_acquired err) k = (not_acquired err, k)

-- On a slot that is closed or not and whose session is usable or not.
abbrev pub acquired_from : Bool → Option ℕ → Acquired → Slot → Acquired × Slot
acquired_from true o checkout k = (not_acquired (some session_closed), k)
acquired_from false none checkout k = checked_out checkout k
acquired_from false (some s) checkout k = (acquired s, k)

-- Slot.acquireLocked; `checkout` is the answer of Pool.Checkout.
unfoldable pub acquire_slot : (ℕ → SessionState) → Acquired → Slot → Acquired × Slot
acquire_slot states checkout k = acquired_from k.closed_slot (usable states k.session) checkout k

-- What idle makes of a session in a state; `err` is Session.Err of a closed one.
abbrev pub only_idle : SessionState → ℕ → Option Error → Acquired
only_idle session_idle s err = acquired s
only_idle session_closed_state s err = not_acquired err
only_idle _ s err = not_acquired (some session_busy)

abbrev pub idle_session :
    (ℕ → SessionState) → (ℕ → Option Error) → Acquired × Slot → Acquired × Slot
idle_session states errs (acquired s, k) = (only_idle (states s) s (errs s), k)
idle_session states errs (not_acquired err, k) = (not_acquired err, k)

-- Slot.idle: `before` is what acquireLocked reads, `behind` what the switch reads.
unfoldable pub idle :
    (ℕ → SessionState) → (ℕ → SessionState) → (ℕ → Option Error) → Acquired → Slot → Acquired × Slot
unfolding acquire_slot
idle before behind errs checkout k = idle_session behind errs (acquire_slot before checkout k)

-- Slot.Close, up to the close of the session that it had.
unfoldable pub close_slot : Slot → Option ℕ × Slot
close_slot k = (k.session, record { session = none; closed_slot = true })
