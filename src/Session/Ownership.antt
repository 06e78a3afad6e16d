-- ===== src/Session/Ownership.antt =====
-- What holds of a session between any two sections.
use montygo.Prelude.{
  Bool, List, Option, [], false, length, none, some, suc, true, zero, ℕ, ◌+◌, ◌<◌, ◌∷◌, ◌≡◌, ◌≤◌,
}
use montygo.Session.{
  Channel, Error, Execution, ExecutionPhase, Life, StopKind, StopRequest, aborting, callback,
  closed, control, executing, finished, is_closed, is_paused, missing, opened, paused, preparing,
  session_killed, starting, stop_killed,
}
use montygo.Session.System.{System}
use montygo.Session.Lifecycle.{is_requested}
use montygo.Session.Finish.{is_unsettled}
use montygo.Session.Control.{CloseAttempt}

-- The number of goroutines that have the execution in hand.
abbrev pub owners : System → ℕ
owners s =
    s.starters + s.preparers + s.drivers + s.callers + s.controllers + s.closers + s.aborters
    + s.enders

-- Which goroutine may have an execution of a phase in hand, next to one that is about to finish it.
abbrev pub Owned : ExecutionPhase → System → Type 0
Owned starting s = (s.starters + s.enders ≡ 1) × (owners s ≡ 1)
Owned preparing s = (s.preparers + s.enders ≡ 1) × (owners s ≡ 1)
Owned executing s = (s.drivers + s.enders ≡ 1) × (owners s ≡ 1)
Owned callback s = (s.callers + s.enders ≡ 1) × (owners s ≡ 1)
Owned paused s = (s.enders ≡ 0) × (owners s ≡ 0)
Owned control s = (s.controllers + s.closers + s.enders ≡ 1) × (owners s ≡ 1)
Owned aborting s = (s.aborters + s.enders ≡ 1) × (owners s ≡ 1)
Owned finished s = ⊥

-- The channels turnDone and operationDone of an execution of a phase.
abbrev pub Wired : ExecutionPhase → Channel → Channel → Type 0
Wired starting turn operation = (turn ≡ missing) × (operation ≡ opened)
Wired preparing turn operation = (turn ≡ missing) × (operation ≡ opened)
Wired paused turn operation = (turn ≡ missing) × (operation ≡ missing)
Wired control turn operation = (turn ≡ opened) × (operation ≡ opened)
Wired finished turn operation = (turn ≡ missing) × (operation ≡ missing)
Wired _ turn operation = (is_closed turn ≡ false) × (operation ≡ opened)

abbrev pub is_stop_killed : StopKind → Bool
is_stop_killed stop_killed = true
is_stop_killed _ = false

abbrev pub kind_is_killed : Option StopRequest → Bool
kind_is_killed none = false
kind_is_killed (some req) = is_stop_killed req.kind

abbrev pub is_killed : Option Error → Bool
is_killed (some (session_killed r)) = true
is_killed _ = false

abbrev pub resolved_by : Bool → Channel
resolved_by true = closed
resolved_by false = opened

-- A stop announces its resolution once, and its deadlines are in order.
abbrev pub Stopping : Option StopRequest → Type 0
Stopping none = Unit
Stopping (some req) =
    (req.resolved ≡ resolved_by req.resolved_once) × (req.request_at ≤ req.kill_at)

pub record Runs (s : System) (e : Execution) : Type 0 where
  pub named : s.life.current ≡ some e.id
  pub no_holder : s.holders ≡ 0
  pub owned : Owned e.phase s
  pub wired : Wired e.phase e.turn_done e.operation_done
  pub quiet : is_paused e.phase ≡ true → (s.life.terminal ≡ none) × (is_requested e.stop ≡ false)
  pub unreported : e.done ≡ opened
  pub no_panic : e.panics ≡ 0
  pub no_loss : e.lost ≡ 0
  pub same_cause : e.terminal_cause ≡ s.life.terminal
  pub stopping : Stopping e.stop
  pub kill_known : kind_is_killed e.stop ≡ true → is_killed s.life.terminal ≡ true

-- A finished execution has reported its end, and its stop has a result or is being given one.
pub record Ended (life : Life) (e : Execution) : Type 0 where
  pub over : e.phase ≡ finished
  pub reported : e.done ≡ closed
  pub free_turn : e.turn_done ≡ missing
  pub free_operation : e.operation_done ≡ missing
  pub no_panic : e.panics ≡ 0
  pub no_loss : e.lost ≡ 0
  pub stop_ends : is_unsettled e.stop ≡ false
  pub stopping : Stopping e.stop
  pub kill_known : kind_is_killed e.stop ≡ true → is_killed life.terminal ≡ true

abbrev pub AllEnded : Life → List Execution → Type 0
AllEnded life [] = Unit
AllEnded life (e ∷ es) = Ended life e × AllEnded life es

abbrev pub RunsIf : System → Option Execution → Type 0
RunsIf s none = (s.life.current ≡ none) × (owners s ≡ 0)
RunsIf s (some e) = Runs s e

abbrev pub announced : Option Error → Channel
announced none = opened
announced (some err) = closed

abbrev pub held_by : ℕ → Channel
held_by zero = missing
held_by (suc n) = opened

-- Attempts that have been settled once, with pointers below a bound.
abbrev pub AllSettled : ℕ → List CloseAttempt → Type 0
AllSettled bound [] = Unit
AllSettled bound (a ∷ older) =
    (a.attempt_done ≡ closed)
    × (a.attempt_panics ≡ 0)
    × (a.attempt_id < bound)
    × AllSettled bound older

-- The attempt in progress is the newest one, open, and one goroutine is to settle it.
abbrev pub Attempting : Option ℕ → List ℕ → List CloseAttempt → Type 0
Attempting none [] older = AllSettled (length older) older
Attempting (some n) (m ∷ []) (a ∷ older) =
    (m ≡ n)
    × (a.attempt_id ≡ n)
    × (length older ≡ n)
    × (a.attempt_done ≡ opened)
    × (a.attempt_panics ≡ 0)
    × AllSettled n older
Attempting _ _ _ = ⊥

pub record Inv (s : System) : Type 0 where
  pub runs : RunsIf s s.exec
  pub ends : AllEnded s.life s.past
  pub announces : s.life.session_done ≡ announced s.life.terminal
  pub no_panic : s.life.closing_panics ≡ 0
  pub no_replaced : s.life.replaced ≡ 0
  pub one_holder : s.holders ≤ 1
  pub held : s.life.control_done ≡ held_by s.holders
  pub attempting : Attempting s.life.close_attempt s.attempters s.attempts_made
  pub one_forcer : s.forcers ≤ 1
  pub forced : 0 < s.forcers → is_killed s.life.terminal ≡ true
