-- ===== src/Session/Answers.antt =====
-- What the sections of a session answer: admission, deadlines and the end of an execution.
use montygo.Prelude.{
  Bool, Option, arith, false, if◌then◌else◌, leb, none, not, some, true, ℕ, ◌&&◌, ◌+◌, ◌<◌, ◌||◌,
  ◌≡◌, ◌≤◌,
}
use montygo.Session.{Execution, StopRequest, is_some}
use montygo.Session.Control.{
  ControlHold, SessionState, denied, reserve_control_idle, session_idle, state,
}
use montygo.Session.Goroutines.{Reach}
use montygo.Session.System.{System, new_session}
use montygo.Session.Lifecycle.{
  Reserved, admission_error, admitted, max_uint64, refused, reserve_execution,
}
use montygo.Session.Ownership.{RunsIf}
use montygo.Session.Reachable.{Reach-Inv}
use montygo.Session.Safety.{phase_of}
use montygo.Session.Stop.{shorten}
use montygo.Session.Policy.{StopPolicy, at_least_zero}

abbrev pub is_idle : SessionState → Bool
is_idle session_idle = true
is_idle _ = false

abbrev pub is_admitted : Reserved → Bool
is_admitted (admitted e) = true
is_admitted (refused err) = false

abbrev pub is_held : ControlHold → Bool
is_held (denied err) = false
is_held _ = true

admission_idle :
    (s : System) (o : Option Execution)
    → RunsIf s o
    → s.life.next_id < max_uint64
    → (is_idle (state (phase_of o) s.life) ≡ is_admitted (reserve_execution s.life).0)
      × (is_idle (state (phase_of o) s.life)
          ≡ is_held (reserve_control_idle s.life).0 && not (is_some o))
unfolding state reserve_execution reserve_control_idle admission_error
admission_idle s none h n = ground arith
admission_idle s (some e) h n = ground arith

-- In every state that a session reaches before its execution IDs are exhausted, State reports an
-- idle session exactly when reserveExecution with a live context admits an execution, and exactly when
-- there is none and reserveControl admits a control operation.
pub idle_iff_admitted :
    {s : System}
    → Reach new_session s
    → s.life.next_id < max_uint64
    → (is_idle (state (phase_of s.exec) s.life) ≡ is_admitted (reserve_execution s.life).0)
      × (is_idle (state (phase_of s.exec) s.life)
          ≡ is_held (reserve_control_idle s.life).0 && not (is_some s.exec))
idle_iff_admitted {s = s} r n = admission_idle s s.exec (Reach-Inv r).runs n

-- When a policy arrives for a stop whose deadlines are in order: no deadline is later than before and
-- they stay in order; the kill is no later than Drain and Timeout of the policy allow from now on,
-- unless the request has been made and was due only later; a request that has been made keeps its
-- time, and one that has not is due no later than Drain allows.
pub shorten_deadlines :
    (p : StopPolicy) (now : ℕ) (req : StopRequest)
    → req.request_at ≤ req.kill_at
    → (let new = shorten p now req in
        (new.request_at ≤ req.request_at)
        × (new.kill_at ≤ req.kill_at)
        × (new.request_at ≤ new.kill_at)
        × (not req.requested || leb req.request_at now ≡ true
            → new.kill_at ≤ now + at_least_zero p.drain + at_least_zero p.timeout)
        × (if req.requested
            then new.request_at ≡ req.request_at
            else new.request_at ≤ now + at_least_zero p.drain))
unfolding shorten
shorten_deadlines p now req h = ground arith
