-- ===== src/Session/Automaton.antt =====
-- The states that State reports, as a machine of its own.
use montygo.Prelude.{Bool, Option, arith, false, none, refl, some, true, ◌<◌, ◌≡◌}
use montygo.Session.{
  Execution, ExecutionPhase, aborting, callback, close_done, control, executing, finished,
  is_paused, is_some, paused, preparing, starting,
}
use montygo.Session.Control.{
  SessionState, begin_close, close_control, close_owned_idle, make_control, reserve_control_idle,
  session_closed_state, session_idle, session_paused, session_running, settle_close, state,
}
use montygo.Session.Goroutines.{
  Reach, Step, abort_ends, abort_forces, abort_goes_wrong, adds_future, answers_abort, asks_to_stop,
  begins, calls_back, claims, closes, comes_back, context_ends, controls, controls_idle, delivers,
  driver_aborts, driving_ends, finishes, forces, has_killed, has_killed_finished, leaves_idle,
  looks, owner_ends, owns, owns_idle, pauses, preparing_fails, receives, releases, reserves,
  resumes, sends, settles, start_fails, takes_futures, terminates, terminates_idle, watches,
}
use montygo.Session.System.{System, leaves, new_session}
use montygo.Session.Finish.{finish_execution, terminate_session}
use montygo.Session.Lifecycle.{admission_error, reserve_execution}
use montygo.Session.Ownership.{Inv, Owned}
use montygo.Session.Reachable.{Reach-Inv}
use montygo.Session.Steps.{nobody, running, unheld}
use montygo.Session.Safety.{phase_of}
use montygo.Session.Stop.{force_execution}

-- What the states promise: a session is never paused out of idleness, an execution that is paused
-- runs before the session is idle again, and a closed session stays closed.
abbrev pub allowed : SessionState → SessionState → Bool
allowed session_idle session_paused = false
allowed session_paused session_idle = false
allowed session_closed_state session_closed_state = true
allowed session_closed_state _ = false
allowed _ _ = true

abbrev pub shown : System → SessionState
shown s = state (phase_of s.exec) s.life

-- A step that leaves the session's own fields as they are, and an execution in hand.
busy-allowed :
    (s : System) (e : Execution) (t : Option Execution)
    → s.exec ≡ some e
    → is_some t ≡ true
    → allowed (shown s) (state (phase_of t) s.life) ≡ true
unfolding state
busy-allowed s e none q h = absurd (ground arith)
busy-allowed s e (some d) q h = ground arith

same-allowed : (s : System) → allowed (shown s) (shown s) ≡ true
same-allowed s = same (shown s)
  where
    same : (st : SessionState) → allowed st st ≡ true
    same session_idle = refl
    same session_running = refl
    same session_paused = refl
    same session_closed_state = refl

closing-allowed : (st : SessionState) → allowed st session_closed_state ≡ true
closing-allowed session_idle = refl
closing-allowed session_running = refl
closing-allowed session_paused = refl
closing-allowed session_closed_state = refl

awake_of : (s : System) (p : ExecutionPhase) → Owned p s → 0 < s.enders → is_paused p ≡ false
awake_of s starting o n = refl
awake_of s preparing o n = refl
awake_of s executing o n = refl
awake_of s callback o n = refl
awake_of s paused o n = absurd (ground arith)
awake_of s control o n = refl
awake_of s aborting o n = refl
awake_of s finished o n = refl

leaves-allowed :
    (s : System) (b : Bool) (e d : Execution)
    → s.exec ≡ some e
    → allowed (shown s) (shown (leaves s b d)) ≡ true
leaves-allowed s true e d q = busy-allowed s e (some d) q refl
leaves-allowed s false e d q = busy-allowed s e (some d) q refl

Step-allowed : {s t : System} → Inv s → Step s t → allowed (shown s) (shown t) ≡ true
unfolding reserve_execution admission_error terminate_session close_done force_execution
    finish_execution reserve_control_idle make_control close_control begin_close close_owned_idle
    settle_close state
Step-allowed {s = s} h (reserves e life q) =
    let none_runs = nobody s (ground arith) h in ground arith
Step-allowed {s = s} h (start_fails n one) = same-allowed s
Step-allowed {s = s} h (preparing_fails n one) = same-allowed s
Step-allowed {s = s} h (begins n now over limits e q one) = ground arith
Step-allowed {s = s} h (sends n now over limits e q one) = ground arith
Step-allowed {s = s} h (receives n e q one) = ground arith
Step-allowed {s = s} h (looks n now over limits e q one) = leaves-allowed s _ e _ q
Step-allowed {s = s} h (calls_back n e d q one eq) = ground arith
Step-allowed {s = s} h (comes_back n e q one) = ground arith
Step-allowed {s = s} h (resumes n e q one) = ground arith
Step-allowed {s = s} h (delivers n e req q one eq) = ground arith
Step-allowed {s = s} h (adds_future n call_id given limits e q one) = ground arith
Step-allowed {s = s} h (takes_futures n left e q one) = ground arith
Step-allowed {s = s} h (driving_ends n one) = same-allowed s
Step-allowed {s = s} h (driver_aborts n e q one) = ground arith
Step-allowed {s = s} h (Step.aborts n e q one) = ground arith
Step-allowed {s = s} h (answers_abort n e q one) = ground arith
Step-allowed {s = s} h (abort_goes_wrong n e q one over) = ground arith
Step-allowed {s = s} h (abort_ends n one) = same-allowed s
Step-allowed {s = s} h (finishes n value err e q one) =
    let r = running s e q h in let awake = awake_of s e.phase r.owned (ground arith) in ground arith
Step-allowed {s = s} h (asks_to_stop now base p e q) = leaves-allowed s _ e _ q
Step-allowed {s = s} h (context_ends now step base e q) = leaves-allowed s _ e _ q
Step-allowed {s = s} h (watches e req q stopped) = leaves-allowed s _ e _ q
Step-allowed {s = s} h (forces now e req q stopped asked) = ground arith
Step-allowed {s = s} h (abort_forces n now e req q stopped one) = ground arith
Step-allowed {s = s} h (has_killed n e q one) = ground arith
Step-allowed {s = s} h (has_killed_finished n front back e q one) = same-allowed s
Step-allowed {s = s} h (terminates_idle cause q) = let none_runs = nobody s q h in ground arith
Step-allowed {s = s} h (terminates cause e q) = ground arith
Step-allowed {s = s} h (pauses n token e d q one eq) = ground arith
Step-allowed {s = s} h (claims t u e d q eq) = ground arith
Step-allowed {s = s} h (controls_idle life q eq) = let none_runs = nobody s q h in ground arith
Step-allowed {s = s} h (leaves_idle n one) =
    let none_runs = unheld s (ground arith) h in ground arith
Step-allowed {s = s} h (controls allowed token e d q eq) = ground arith
Step-allowed {s = s} h (releases n e q one) = ground arith
Step-allowed {s = s} h (closes phase run a life eq) = ground arith
Step-allowed {s = s} h (owns_idle life q eq) = let none_runs = nobody s q h in ground arith
Step-allowed {s = s} h (owns e d q eq) = ground arith
Step-allowed {s = s} h (owner_ends n one) = same-allowed s
Step-allowed {s = s} h (settles id err front back q) = ground arith

-- Each step that a goroutine takes in a state that a new session reaches moves what State reports as
-- the machine allows: never from idle to paused nor back without running in between, and never out of
-- closed.
pub Reach-allowed :
    {s t : System} → Reach new_session s → Step s t → allowed (shown s) (shown t) ≡ true
Reach-allowed r step = Step-allowed (Reach-Inv r) step
