-- ===== src/Session/Lifecycle.antt =====
-- lifecycle.go, stop.go: the sections of an execution.
use montygo.Prelude.{
  Bool, Option, [], false, if◌then◌else◌, none, not, some, true, ℕ, ◌&&◌, ◌+◌, ◌==◌, ◌||◌,
}
use montygo.Session.{
  Error, Execution, Life, StopRequest, callback, executing, execution_ids_exhausted,
  execution_interrupted, interrupt_exception, is_finished, is_nil, is_some, make_turn, missing,
  opened, preparing, release_turn, session_busy, session_closed, snapshot_stale, starting,
  stop_to_deliver,
}
use montygo.Session.Stop.{enter_request, is_current, new_stop_request, request_stop}
use montygo.Session.Policy.{StopPolicy}

-- Limits that the sections read: sessionLimits.stop and sessionLimits.pendingFutures, none for
-- Unlimited.
pub record Limits : Type 0 where
  pub stop_policy : StopPolicy
  pub pending_futures : Option ℕ

abbrev pub max_uint64 : ℕ
max_uint64 = 18446744073709551615

-- admissionErrorLocked.
unfoldable pub admission_error : Life → Option Error
admission_error life =
    if is_some life.terminal
    then life.terminal
    else if is_some life.close_attempt
    then some session_closed
    else none

-- executionErrorLocked.
unfoldable pub execution_error : Life → Execution → Option Error
execution_error life e =
    if is_some life.terminal
    then life.terminal
    else if is_some e.terminal_cause
    then e.terminal_cause
    else if not (is_current life.current e) || is_finished e.phase
    then some snapshot_stale
    else none

abbrev pub new_execution : ℕ → Execution
new_execution id = record {
  id = id;
  phase = starting;
  sent = false;
  wire_in_flight = false;
  turn_done = missing;
  sequence = 0;
  step = 0;
  stop = none;
  delivered = false;
  pending = [];
  done = opened;
  operation_done = opened;
  value = none;
  err = none;
  terminal_cause = none;
  before_start = false;
  aborted = false;
  panics = 0;
  lost = 0;
}

-- installStepLocked.
unfoldable pub install_step : Execution → Execution
install_step e = record e { step = e.step + 1 }

pub data Reserved : Type 0 where
  refused : Error → Reserved
  admitted : Execution → Reserved

abbrev pub refused_or : Option Error → Reserved → Reserved
refused_or none r = r
refused_or (some err) r = refused err

-- reserveExecution with a live context.
unfoldable pub reserve_execution : Life → Reserved × Life
unfolding admission_error install_step
reserve_execution life = elim (admission_error life) [
  | some err ↦ (refused err, life)
  | none ↦
      if is_some life.current || not (is_nil life.control_done)
      then (refused session_busy, life)
      else if life.next_id == max_uint64
      then (refused execution_ids_exhausted, life)
      else (
        admitted (install_step (new_execution (life.next_id + 1))),
        record life { next_id = life.next_id + 1; current = some (life.next_id + 1) },
      )
]

-- The section goes on when the execution has no error.
abbrev pub unless_error :
    Option Error → Execution → Option Error × Bool × Execution → Option Error × Bool × Execution
unless_error none e r = r
unless_error (some err) e r = (some err, false, e)

-- The stop that stopBeforeStartLocked makes for a context that has ended, due at once.
unfoldable pub due_request : StopPolicy → ℕ → StopRequest
unfolding new_stop_request
due_request p now = record (new_stop_request p now) { request_at = now }

abbrev pub is_requested : Option StopRequest → Bool
is_requested none = false
is_requested (some req) = req.requested

abbrev pub reason_of : Option StopRequest → Option ℕ
reason_of none = none
reason_of (some req) = req.policy.reason

unfoldable pub before_start_with : Bool × Execution → Option Error × Bool × Execution
before_start_with (spawned, e) =
    if is_requested e.stop
    then (some (interrupt_exception (reason_of e.stop)), spawned, record e { before_start = true })
    else (none, spawned, e)

-- stopBeforeStartLocked; `ended` is whether the step's context has ended.
unfoldable pub stop_before_start : Bool → ℕ → Limits → Execution → Option Error × Bool × Execution
unfolding before_start_with enter_request due_request
stop_before_start ended now limits e =
    let req = due_request limits.stop_policy now in
    if not (is_some e.stop) && ended
    then before_start_with (enter_request req (record e { stop = some req }))
    else before_start_with (false, e)

abbrev pub then_set :
    (Execution → Execution) → Option Error × Bool × Execution → Option Error × Bool × Execution
then_set f (none, spawned, e) = (none, spawned, f e)
then_set f (some err, spawned, e) = (some err, spawned, e)

-- beginExecution.
unfoldable pub begin_execution :
    Bool → ℕ → Limits → Life → Execution → Option Error × Bool × Execution
unfolding execution_error stop_before_start
begin_execution ended now limits life e =
    unless_error (execution_error life e) e
      (then_set (λ d. record d { phase = preparing }) (stop_before_start ended now limits e))

unfoldable pub to_wire : Execution → Execution
unfolding make_turn
to_wire e = make_turn (record e { sent = true; wire_in_flight = true; phase = executing })

-- beginSend.
unfoldable pub begin_send : Bool → ℕ → Limits → Life → Execution → Option Error × Bool × Execution
unfolding execution_error stop_before_start to_wire
begin_send ended now limits life e =
    unless_error (execution_error life e) e
      (then_set to_wire (stop_before_start ended now limits e))

-- receivedTurn.
unfoldable pub received_turn : Execution → Execution
received_turn e = record e { wire_in_flight = false }

abbrev pub catchable_of : Option StopRequest → Bool
catchable_of none = false
catchable_of (some req) = req.policy.catchable

-- boundaryStopLocked.
unfoldable pub boundary_stop : Execution → Option Error
boundary_stop e =
    if not (is_requested e.stop)
    then none
    else if catchable_of e.stop
    then none
    else some execution_interrupted

-- The first section of stopAtBoundary, with the requestStop behind it.
unfoldable pub stop_at_boundary :
    Bool → ℕ → Limits → Life → Execution → Option Error × Bool × Execution
unfolding execution_error
stop_at_boundary ended now limits life e =
    let asked = request_stop limits.stop_policy now limits.stop_policy life e in
    unless_error (execution_error life e) e
      (if ended && not (is_some e.stop) then (none, asked.1, asked.2) else (none, false, e))

-- The last section of stopAtBoundary, which the sections of beginCallback and beforeResume repeat.
unfoldable pub at_boundary : Life → Execution → Option Error
unfolding execution_error boundary_stop
at_boundary life e = elim (execution_error life e) [ some err ↦ some err | none ↦ boundary_stop e ]

-- beginCallback behind stopAtBoundary.
unfoldable pub begin_callback : Life → Execution → Option Error × Execution
unfolding at_boundary release_turn
begin_callback life e = elim (at_boundary life e) [
  | some err ↦ (some err, e)
  | none ↦ (none, release_turn (record e { phase = callback }))
]

-- endCallback before stopAtBoundary.
unfoldable pub end_callback : Execution → Execution
end_callback e = record e { phase = executing }

-- beforeResume behind stopAtBoundary.
unfoldable pub before_resume : Life → Execution → Option Error × Execution
unfolding at_boundary release_turn make_turn
before_resume life e = elim (at_boundary life e) [
  | some err ↦ (some err, e)
  | none ↦ (
    (if is_requested e.stop && not e.delivered then some stop_to_deliver else none),
    make_turn (release_turn (record e { phase = executing; wire_in_flight = true })),
  )
]
