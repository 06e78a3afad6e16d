-- ===== src/Session/Finish.antt =====
-- lifecycle.go, stop.go: the sections that end an execution or the session.
use montygo.Prelude.{
  Bool, List, Option, [], false, if◌then◌else◌, length, ltb, none, not, some, true, ℕ, ◌&&◌, ◌+◌,
  ◌==◌, ◌||◌, ◌∷◌,
}
use montygo.Session.{
  Error, Execution, Life, StopKind, StopRequest, aborting, close_done, close_panics, closed,
  duplicate_call, finished, future_limit, is_finished, is_paused, is_some, make_operation,
  make_turn, nil_future, no_stop_request, release_operation, release_turn, stop_aborted,
  stop_finished,
}
use montygo.Session.Lifecycle.{Limits, execution_error}
use montygo.Session.Stop.{is_current, resolve_stop}

abbrev pub is_unsettled : Option StopRequest → Bool
is_unsettled none = false
is_unsettled (some req) = not req.resolved_once && not req.force_claimed

-- The kind of a stop whose execution ends by itself.
unfoldable pub end_kind : Execution → StopKind
end_kind e =
    if e.before_start || (e.aborted || (e.delivered && is_some e.err))
    then stop_aborted
    else stop_finished

unfoldable pub settle_stop : Execution → Execution
unfolding resolve_stop end_kind
settle_stop e = if is_unsettled e.stop then resolve_stop (end_kind e) e else e

unfoldable pub ended_with : Option ℕ → Option Error → Execution → Execution
ended_with value err e = record e {
  value = if is_some e.terminal_cause then none else value;
  err = if is_some e.terminal_cause then e.terminal_cause else err;
  phase = finished;
  wire_in_flight = false;
  pending = [];
}

unfoldable pub close_execution : Execution → Execution
close_execution e = record e { done = closed; panics = e.panics + close_panics e.done }

-- finishExecution: its last section.
unfoldable pub finish_execution : Option ℕ → Option Error → Life → Execution → Life × Execution
unfolding ended_with release_turn release_operation settle_stop close_execution
finish_execution value err life e = if is_finished e.phase then (life, e) else (
  (if is_current life.current e then record life { current = none } else life),
  close_execution (settle_stop (release_operation (release_turn (ended_with value err e)))),
)

-- The execution of terminateSession, if there is a current one; true when it was paused.
unfoldable pub terminate_execution : Option Error → Execution → Bool × Execution
unfolding make_operation
terminate_execution cause e =
    let marked = record e { terminal_cause = cause; pending = [] } in
    if is_paused e.phase
    then (true, make_operation (record marked { phase = aborting }))
    else (false, marked)

-- terminateSession up to the termination of the worker.
unfoldable pub terminate_session : Error → Life → Life
unfolding close_done
terminate_session cause life = if is_some life.terminal then life else close_done cause life

-- abortExecution before it sends AbortFeed.
unfoldable pub abort_execution : Life → Execution → Option Error × Execution
unfolding execution_error release_turn make_turn
abort_execution life e = elim (execution_error life e) [
  | some err ↦ (some err, e)
  | none ↦
      if is_some e.stop
      then (none, make_turn (release_turn (record e { phase = aborting; wire_in_flight = true })))
      else (some no_stop_request, e)
]

-- What abortExecution records when the worker answers with the exception.
unfoldable pub aborted_feed : Execution → Execution
aborted_feed e = record e { aborted = true }

abbrev pub below_limit : Option ℕ → List ℕ → Bool
below_limit none ids = true
below_limit (some limit) ids = ltb (length ids) limit

abbrev pub holds_id : ℕ → List ℕ → Bool
holds_id k [] = false
holds_id k (id ∷ ids) = if id == k then true else holds_id k ids

-- addFuture; `given` is whether the host returned a Future.
unfoldable pub add_future : Limits → Bool → ℕ → Life → Execution → Option Error × Execution
unfolding execution_error
add_future limits given call_id life e = elim (execution_error life e) [
  | some err ↦ (some err, e)
  | none ↦
      if not given
      then (some nil_future, e)
      else if holds_id call_id e.pending
      then (some duplicate_call, e)
      else if not (below_limit limits.pending_futures e.pending)
      then (some future_limit, e)
      else (none, record e { pending = call_id ∷ e.pending })
]
