-- ===== src/Session.antt =====
-- lifecycle.go, stop.go, session_control.go, snapshot.go: the lifecycle of a session, whose state is
-- behind one mutex. Each function of the children is one critical section of the source; the
-- goroutines that run them in any order are the step relation of Session/Goroutines. An execution is
-- the pointer that its `id` names; errors of other packages, reasons and values are numbers. Whether
-- a context has ended and what the clock reads are arguments of the sections. Contexts, print
-- targets, observers, the worker, the metrics and the flag `driven` of a fresh session are not modelled.
pub mod Policy
pub mod Stop
pub mod Lifecycle
pub mod Finish
pub mod Control
pub mod System
pub mod Goroutines
pub mod Ownership
pub mod Phases
pub mod Requests
pub mod Sections
pub mod Endings
pub mod Closing
pub mod Steps
pub mod Reachable
mod Safety
mod Answers
mod Ledger
mod Automaton
mod Rotation
mod Slot
mod Examples
use montygo.Prelude.{Bool, List, Option, false, if◌then◌else◌, none, some, true, ℕ, ◌+◌}
use montygo.Session.Policy.{StopPolicy}

pub data ExecutionPhase : Type 0 where
  starting preparing executing callback paused control aborting finished : ExecutionPhase

-- A channel variable that is only ever closed: nil, open or closed.
pub data Channel : Type 0 where
  missing opened closed : Channel

pub data StopKind : Type 0 where
  stop_pending stop_not_running stop_aborted stop_killed stop_finished : StopKind

-- The errors that the sections tell apart; `other` is any error from outside.
pub data Error : Type 0 where
  session_closed session_busy snapshot_stale snapshot_resumed : Error
  execution_ids_exhausted sequences_exhausted : Error
  session_killed interrupt_exception : Option ℕ → Error
  execution_interrupted stop_to_deliver no_stop_request : Error
  nil_future duplicate_call future_limit option_error : Error
  other : ℕ → Error

-- stopRequest; a time is a number of nanoseconds.
pub record StopRequest : Type 0 where
  pub policy : StopPolicy
  pub request_at : ℕ
  pub kill_at : ℕ
  pub requested : Bool
  pub wake : Bool
  pub resolved : Channel
  pub kind : StopKind
  pub resolved_once : Bool
  pub force_claimed : Bool

-- execution. `panics` counts the closes of a channel that is not open, on which Go panics, and `lost`
-- the open channels that another one replaced, whose waiters nothing wakes.
pub record Execution : Type 0 where
  pub id : ℕ
  pub phase : ExecutionPhase
  pub sent : Bool
  pub wire_in_flight : Bool
  pub turn_done : Channel
  pub sequence : ℕ
  pub step : ℕ
  pub stop : Option StopRequest
  pub delivered : Bool
  pub pending : List ℕ
  pub done : Channel
  pub operation_done : Channel
  pub value : Option ℕ
  pub err : Option Error
  pub terminal_cause : Option Error
  pub before_start : Bool
  pub aborted : Bool
  pub panics : ℕ
  pub lost : ℕ

-- lifecycle, with `current` the execution's id and `close_attempt` the attempt's.
pub record Life : Type 0 where
  pub next_id : ℕ
  pub current : Option ℕ
  pub control_done : Channel
  pub close_attempt : Option ℕ
  pub terminal : Option Error
  pub session_done : Channel
  pub closing_panics : ℕ
  pub replaced : ℕ

-- close(ch), and what becomes of the number of panics.
abbrev pub close_panics : Channel → ℕ
close_panics opened = 0
close_panics missing = 1
close_panics closed = 1

-- ch = make(chan struct{}), and what becomes of the number of lost channels.
abbrev pub make_loses : Channel → ℕ
make_loses opened = 1
make_loses missing = 0
make_loses closed = 0

abbrev pub is_paused : ExecutionPhase → Bool
is_paused paused = true
is_paused _ = false

abbrev pub is_finished : ExecutionPhase → Bool
is_finished finished = true
is_finished _ = false

abbrev pub is_some {ℓ} : {A : Type ℓ} → Option A → Bool
is_some none = false
is_some (some a) = true

abbrev pub is_open : Channel → Bool
is_open opened = true
is_open _ = false

abbrev pub is_closed : Channel → Bool
is_closed closed = true
is_closed _ = false

abbrev pub is_nil : Channel → Bool
is_nil missing = true
is_nil _ = false

unfoldable pub make_turn : Execution → Execution
make_turn e = record e { turn_done = opened; lost = e.lost + make_loses e.turn_done }

unfoldable pub make_operation : Execution → Execution
make_operation e = record e { operation_done = opened; lost = e.lost + make_loses e.operation_done }

-- releaseTurnLocked, releaseOperationLocked.
unfoldable pub release_turn : Execution → Execution
release_turn e =
    if is_nil e.turn_done
    then e
    else record e { turn_done = missing; panics = e.panics + close_panics e.turn_done }

unfoldable pub release_operation : Execution → Execution
release_operation e =
    if is_nil e.operation_done
    then e
    else record e { operation_done = missing; panics = e.panics + close_panics e.operation_done }

-- The terminal cause of a session, with the channel that announces it.
unfoldable pub close_done : Error → Life → Life
close_done cause life = record life {
  terminal = some cause;
  session_done = closed;
  closing_panics = life.closing_panics + close_panics life.session_done;
}
