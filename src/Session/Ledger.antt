-- ===== src/Session/Ledger.antt =====
-- What becomes of the executions that a session admits, and of its terminal cause.
use montygo.Prelude.{
  Bool, ap, arith, false, length, length-append, refl, some, true, ℕ, ◌+◌, ◌∷◌, ◌≡◌,
}
use montygo.Session.{Execution, close_done, is_some, stop_killed}
use montygo.Session.Goroutines.{
  Reach, Step, abort_ends, abort_forces, abort_goes_wrong, adds_future, answers_abort, asks_to_stop,
  begins, calls_back, claims, closes, comes_back, context_ends, controls, controls_idle, delivers,
  driver_aborts, driving_ends, finishes, forces, has_killed, has_killed_finished, here, leaves_idle,
  looks, next, owner_ends, owns, owns_idle, pauses, preparing_fails, receives, releases, reserves,
  resumes, sends, settles, start_fails, takes_futures, terminates, terminates_idle, watches,
}
use montygo.Session.System.{System, count, leaves, new_session}
use montygo.Session.Finish.{finish_execution, terminate_session}
use montygo.Session.Lifecycle.{admission_error, reserve_execution}
use montygo.Session.Ownership.{AllEnded, Inv}
use montygo.Session.Reachable.{Reach-Inv, Step-Inv}
use montygo.Session.Stop.{force_execution, resolve_stop}
use montygo.Session.Control.{
  begin_close, close_control, close_owned_idle, make_control, reserve_control_idle, settle_close,
}
use montygo.Session.Steps.{nobody}

-- The executions that are in hand or have ended.
abbrev pub known : System → ℕ
known s = length s.past + count (is_some s.exec)

record Moves (s t : System) : Type 0 where
  counted : t.life.next_id + known s ≡ s.life.next_id + known t
  kept :
      is_some s.life.terminal ≡ true
      → (t.life.terminal ≡ s.life.terminal) × (t.life.next_id ≡ s.life.next_id)

leaves-Moves : (s : System) (b : Bool) (e d : Execution) → s.exec ≡ some e → Moves s (leaves s b d)
leaves-Moves s true e d q = ground arith
leaves-Moves s false e d q = ground arith

Step-Moves : {s t : System} → Inv s → Step s t → Moves s t
unfolding reserve_execution admission_error terminate_session close_done force_execution
    finish_execution reserve_control_idle make_control close_control begin_close close_owned_idle
    settle_close
Step-Moves {s = s} h (reserves e life q) = let none_runs = nobody s (ground arith) h in ground arith
Step-Moves {s = s} h (start_fails n one) = ground arith
Step-Moves {s = s} h (preparing_fails n one) = ground arith
Step-Moves {s = s} h (begins n now over limits e q one) = ground arith
Step-Moves {s = s} h (sends n now over limits e q one) = ground arith
Step-Moves {s = s} h (receives n e q one) = ground arith
Step-Moves {s = s} h (looks n now over limits e q one) = leaves-Moves s _ e _ q
Step-Moves {s = s} h (calls_back n e d q one eq) = ground arith
Step-Moves {s = s} h (comes_back n e q one) = ground arith
Step-Moves {s = s} h (resumes n e q one) = ground arith
Step-Moves {s = s} h (delivers n e req q one eq) = ground arith
Step-Moves {s = s} h (adds_future n call_id given limits e q one) = ground arith
Step-Moves {s = s} h (takes_futures n left e q one) = ground arith
Step-Moves {s = s} h (driving_ends n one) = ground arith
Step-Moves {s = s} h (driver_aborts n e q one) = ground arith
Step-Moves {s = s} h (Step.aborts n e q one) = ground arith
Step-Moves {s = s} h (answers_abort n e q one) = ground arith
Step-Moves {s = s} h (abort_goes_wrong n e q one over) = ground arith
Step-Moves {s = s} h (abort_ends n one) = ground arith
Step-Moves {s = s} h (finishes n value err e q one) = ground arith
Step-Moves {s = s} h (asks_to_stop now base p e q) = leaves-Moves s _ e _ q
Step-Moves {s = s} h (context_ends now step base e q) = leaves-Moves s _ e _ q
Step-Moves {s = s} h (watches e req q stopped) = leaves-Moves s _ e _ q
Step-Moves {s = s} h (forces now e req q stopped asked) = ground arith
Step-Moves {s = s} h (abort_forces n now e req q stopped one) = ground arith
Step-Moves {s = s} h (has_killed n e q one) = ground arith
Step-Moves {s = s} h (has_killed_finished n front back e q one) = ground (
  arith,
  ap length q,
  length-append front (e ∷ back),
  length-append front (resolve_stop stop_killed e ∷ back),
)
Step-Moves {s = s} h (terminates_idle cause q) = ground arith
Step-Moves {s = s} h (terminates cause e q) = ground arith
Step-Moves {s = s} h (pauses n token e d q one eq) = ground arith
Step-Moves {s = s} h (claims t u e d q eq) = ground arith
Step-Moves {s = s} h (controls_idle life q eq) = ground arith
Step-Moves {s = s} h (leaves_idle n one) = ground arith
Step-Moves {s = s} h (controls allowed token e d q eq) = ground arith
Step-Moves {s = s} h (releases n e q one) = ground arith
Step-Moves {s = s} h (closes phase run a life eq) = ground arith
Step-Moves {s = s} h (owns_idle life q eq) = ground arith
Step-Moves {s = s} h (owns e d q eq) = ground arith
Step-Moves {s = s} h (owner_ends n one) = ground arith
Step-Moves {s = s} h (settles id err front back q) = ground arith

-- Every execution that a session has admitted, by its counter of IDs, is the one in hand or has
-- ended; each that has ended is finished, has closed its channel `done` and left no turn and no
-- operation open, and its stop, if it had one, has a result or belongs to a goroutine that kills.
pub all_reported :
    {s : System} → Reach new_session s → (s.life.next_id ≡ known s) × AllEnded s.life s.past
all_reported here = ground arith
all_reported (next r step) =
    let moves = Step-Moves (Reach-Inv r) step in
    let before = all_reported r in (ground arith, (Step-Inv step (Reach-Inv r)).ends)

joined : {r s t : System} → Reach r s → Reach s t → Reach r t
joined a here = a
joined a (next b step) = next (joined a b) step

-- From a reachable state in which a session has a terminal cause, whatever its goroutines still do:
-- the cause stays, and no execution is admitted.
pub terminal_stays :
    {s t : System}
    → Reach new_session s
    → Reach s t
    → is_some s.life.terminal ≡ true
    → (t.life.terminal ≡ s.life.terminal) × (t.life.next_id ≡ s.life.next_id)
terminal_stays r here over = (refl, refl)
terminal_stays r (next later step) over =
    let so_far = terminal_stays r later over in
    let moves = Step-Moves (Reach-Inv (joined r later)) step in ground arith
