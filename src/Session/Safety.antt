-- ===== src/Session/Safety.antt =====
-- What no interleaving of a session's sections breaks.
use montygo.Prelude.{
  Bool, Bool-cases, List, Option, [], arith, false, inl, inr, length, none, not, refl, some, true,
  ℕ, ◌&&◌, ◌+◌, ◌||◌, ◌∷◌, ◌≡◌, ◌≤◌,
}
use montygo.Session.{
  Error, Execution, ExecutionPhase, Life, StopRequest, aborting, callback, control, executing,
  finished, is_paused, is_some, paused, preparing, starting,
}
use montygo.Session.Goroutines.{Reach}
use montygo.Session.System.{System, count, new_session}
use montygo.Session.Lifecycle.{is_requested}
use montygo.Session.Ownership.{
  AllEnded, AllSettled, Attempting, Inv, Owned, RunsIf, announced, is_killed, kind_is_killed,
  owners,
}
use montygo.Session.Reachable.{Reach-Inv}
use montygo.Session.Control.{CloseAttempt, is_running}

-- The panics and the lost channels of a session and of its executions.
abbrev pub all_faults : List Execution → ℕ
all_faults [] = 0
all_faults (e ∷ es) = e.panics + e.lost + all_faults es

abbrev pub current_faults : Option Execution → ℕ
current_faults none = 0
current_faults (some e) = e.panics + e.lost

abbrev pub attempt_faults : List CloseAttempt → ℕ
attempt_faults [] = 0
attempt_faults (a ∷ older) = a.attempt_panics + attempt_faults older

unfoldable pub faults : System → ℕ
faults s =
    s.life.closing_panics
    + s.life.replaced
    + current_faults s.exec
    + all_faults s.past
    + attempt_faults s.attempts_made

all_faults_none : (life : Life) (es : List Execution) → AllEnded life es → all_faults es ≡ 0
all_faults_none life [] h = refl
all_faults_none life (e ∷ es) h = let rest = all_faults_none life es h.1 in ground arith

current_faults_none : (s : System) (o : Option Execution) → RunsIf s o → current_faults o ≡ 0
current_faults_none s none h = refl
current_faults_none s (some e) h = ground arith

settled_faults_none :
    (bound : ℕ) (made : List CloseAttempt) → AllSettled bound made → attempt_faults made ≡ 0
settled_faults_none bound [] h = refl
settled_faults_none bound (a ∷ older) h =
    let rest = settled_faults_none bound older h.3 in ground arith

attempt_faults_none :
    (o : Option ℕ) (ids : List ℕ) (made : List CloseAttempt)
    → Attempting o ids made
    → attempt_faults made ≡ 0
attempt_faults_none none [] made h = settled_faults_none (length made) made h
attempt_faults_none none (m ∷ ids) made h = absurd h
attempt_faults_none (some n) [] made h = absurd h
attempt_faults_none (some n) (m ∷ []) [] h = absurd h
attempt_faults_none (some n) (m ∷ []) (a ∷ older) h =
    let rest = settled_faults_none n older h.5 in ground arith
attempt_faults_none (some n) (m ∷ k ∷ ids) made h = absurd h

one_attempter :
    (o : Option ℕ) (ids : List ℕ) (made : List CloseAttempt)
    → Attempting o ids made
    → length ids ≤ 1
one_attempter none [] made h = ground arith
one_attempter none (m ∷ ids) made h = absurd h
one_attempter (some n) [] made h = absurd h
one_attempter (some n) (m ∷ []) made h = ground arith
one_attempter (some n) (m ∷ k ∷ ids) made h = absurd h

-- Whatever the goroutines of a session do, in whatever order: no channel of the session, of an
-- execution or of an attempt to close is closed while it is nil or closed, on which Go would panic,
-- and none that the session or an execution refers to is replaced while it is open, which would
-- leave its waiters waiting.
pub no_faults : {s : System} → Reach new_session s → faults s ≡ 0
unfolding faults
no_faults {s = s} r =
    let h = Reach-Inv r in
    let past = all_faults_none s.life s.past h.ends in
    let now = current_faults_none s s.exec h.runs in
    let closes =
      attempt_faults_none s.life.close_attempt s.attempters s.attempts_made h.attempting in
    ground arith

abbrev pub phase_of : Option Execution → Option ExecutionPhase
phase_of none = none
phase_of (some e) = some e.phase

owners_running :
    (s : System) (o : Option Execution) → RunsIf s o → owners s ≡ count (is_running (phase_of o))
owners_running s none h = h.1
owners_running s (some e) h = by_phase e.phase h.owned
  where
    by_phase : (p : ExecutionPhase) → Owned p s → owners s ≡ count (not (is_paused p))
    by_phase starting o = o.1
    by_phase preparing o = o.1
    by_phase executing o = o.1
    by_phase callback o = o.1
    by_phase paused o = o.1
    by_phase control o = o.1
    by_phase aborting o = o.1
    by_phase finished o = absurd o

owners_exclude : (s : System) (o : Option Execution) → Inv s → RunsIf s o → owners s + s.holders ≤ 1
owners_exclude s none i h = ground arith
owners_exclude s (some e) i h = ground (arith, owners_running s (some e) h)

-- In every state that a session reaches, an execution that is not paused has exactly one goroutine
-- that drives, controls, aborts or finishes it, and a paused one has none; such a goroutine and a
-- control operation of an idle session exclude each other, and there is at most one; and at most one
-- close is under way.
pub one_owner :
    {s : System}
    → Reach new_session s
    → (owners s ≡ count (is_running (phase_of s.exec)))
      × (owners s + s.holders ≤ 1)
      × (length s.attempters ≤ 1)
one_owner {s = s} r =
    let h = Reach-Inv r in
    let same = owners_running s s.exec h.runs in
    let most = owners_exclude s s.exec h h.runs in
    (same, most, one_attempter s.life.close_attempt s.attempters s.attempts_made h.attempting)

-- A paused execution that nobody would finish: its session has ended, or its stop is due.
abbrev pub stranded_by : Option Error → Option Execution → Bool
stranded_by terminal none = false
stranded_by terminal (some e) = is_paused e.phase && (is_some terminal || is_requested e.stop)

abbrev pub cause_of : Option Execution → Option Error → Option Error
cause_of none cause = cause
cause_of (some e) cause = e.terminal_cause

stranded_none :
    (s : System) (o : Option Execution)
    → RunsIf s o
    → (stranded_by s.life.terminal o ≡ false) × (cause_of o s.life.terminal ≡ s.life.terminal)
stranded_none s none h = (refl, refl)
stranded_none s (some e) h = ground arith

-- In every state that a session reaches, its channel `done` is closed exactly when it has a terminal
-- cause; the execution in hand has the same cause; and no execution stays paused once the session
-- has a terminal cause or the execution's stop is requested.
pub never_stranded :
    {s : System}
    → Reach new_session s
    → (s.life.session_done ≡ announced s.life.terminal)
      × (cause_of s.exec s.life.terminal ≡ s.life.terminal)
      × (stranded_by s.life.terminal s.exec ≡ false)
never_stranded {s = s} r =
    let h = Reach-Inv r in let free = stranded_none s s.exec h.runs in (h.announces, free.1, free.0)

abbrev pub any_killed : List Execution → Bool
any_killed [] = false
any_killed (e ∷ es) = kind_is_killed e.stop || any_killed es

abbrev pub stop_of : Option Execution → Option StopRequest
stop_of none = none
stop_of (some e) = e.stop

any_killed_known :
    (life : Life) (es : List Execution)
    → AllEnded life es
    → any_killed es ≡ true
    → is_killed life.terminal ≡ true
any_killed_known life [] h k = absurd (ground arith)
any_killed_known life (e ∷ es) h k = elim (Bool-cases (any_killed es)) [
  | inl q ↦ any_killed_known life es h.1 q
  | inr q ↦ ground arith
]

current_killed_known :
    (s : System) (o : Option Execution)
    → RunsIf s o
    → kind_is_killed (stop_of o) ≡ true
    → is_killed s.life.terminal ≡ true
current_killed_known s none h k = absurd (ground arith)
current_killed_known s (some e) h k = ground arith

-- In every state that a session reaches in which the stop of some execution, current or finished, has
-- the kind StopKilled, the session's terminal cause is a SessionKilledError.
pub kills_are_terminal :
    {s : System}
    → Reach new_session s
    → kind_is_killed (stop_of s.exec) || any_killed s.past ≡ true
    → is_killed s.life.terminal ≡ true
kills_are_terminal {s = s} r k =
    let h = Reach-Inv r in
    elim (Bool-cases (any_killed s.past)) [
      | inl q ↦ any_killed_known s.life s.past h.ends q
      | inr q ↦ current_killed_known s s.exec h.runs (ground arith)
    ]
