-- ===== src/Session/Stop.antt =====
-- stop.go: the sections of a stop. Those that start the goroutine abortPaused say so by a Boolean.
use montygo.Prelude.{
  Bool, Option, [], false, if◌then◌else◌, ltb, none, not, some, true, ℕ, ◌&&◌, ◌+◌, ◌==◌, ◌||◌,
}
use montygo.Session.{
  Error, Execution, Life, StopKind, StopRequest, aborting, close_done, close_panics, closed,
  is_finished, is_paused, is_some, make_operation, opened, session_killed, stop_finished,
  stop_killed, stop_pending,
}
use montygo.Session.Policy.{StopPolicy, at_least_zero, over}

unfoldable pub new_stop_request : StopPolicy → ℕ → StopRequest
new_stop_request p now = record {
  policy = p;
  request_at = now + at_least_zero p.drain;
  kill_at = now + at_least_zero p.drain + at_least_zero p.timeout;
  requested = false;
  wake = false;
  resolved = opened;
  kind = stop_pending;
  resolved_once = false;
  force_claimed = false;
}

-- The earlier of a new deadline and the old one.
abbrev pub sooner_of : ℕ → ℕ → ℕ
sooner_of new old = if ltb new old then new else old

-- stopRequest.shorten.
unfoldable pub shorten : StopPolicy → ℕ → StopRequest → StopRequest
shorten p now req =
    let asked = now + at_least_zero p.drain in
    let request_at =
      if req.requested || not (ltb asked req.request_at) then req.request_at else asked in
    let kill_at = request_at + at_least_zero p.timeout in
    record req {
      request_at = sooner_of request_at req.request_at;
      kill_at = sooner_of kill_at req.kill_at;
      wake = req.wake || (ltb request_at req.request_at || ltb kill_at req.kill_at);
    }

-- enterRequestLocked, on the execution's stop.
unfoldable pub enter_request : StopRequest → Execution → Bool × Execution
unfolding make_operation
enter_request req e =
    let asked = record e { stop = some (record req { requested = true }) } in
    if req.requested
    then (false, e)
    else if is_paused e.phase
    then (true, make_operation (record asked { phase = aborting }))
    else (false, asked)

-- resolveStopLocked.
unfoldable pub resolve : StopKind → StopRequest → StopRequest
resolve kind req =
    if req.resolved_once
    then req
    else record req { kind = kind; resolved_once = true; resolved = closed }

abbrev pub resolve_panics : StopRequest → ℕ
resolve_panics req = if req.resolved_once then 0 else close_panics req.resolved

unfoldable pub resolve_stop : StopKind → Execution → Execution
unfolding resolve
resolve_stop kind e = elim e.stop [
  | none ↦ e
  | some req ↦ record e { stop = some (resolve kind req); panics = e.panics + resolve_panics req }
]

-- Whether `s.life.current == e`.
abbrev pub is_current : Option ℕ → Execution → Bool
is_current none e = false
is_current (some n) e = n == e.id

-- Stopped, the result of a stop.
pub record Stopped : Type 0 where
  pub how : StopKind
  pub result : Option Error
  pub session_err : Option Error

-- requestStop returns a result at once, or waits for the stop of the execution.
pub data StopAnswer : Type 0 where
  immediate : Stopped → StopAnswer
  awaits : StopAnswer

abbrev pub is_settled : Option StopRequest → Bool
is_settled none = false
is_settled (some req) = req.resolved_once

abbrev pub kind_of : Option StopRequest → StopKind
kind_of none = stop_pending
kind_of (some req) = req.kind

-- The error of an execution that has ended, or is about to.
abbrev pub known_err : Execution → Option Error
known_err e = if is_finished e.phase then e.err else e.terminal_cause

unfoldable pub merged : StopPolicy → ℕ → Option StopRequest → StopRequest
unfolding new_stop_request shorten
merged p now none = new_stop_request p now
merged p now (some req) = shorten p now req

-- requestStop; `base` is the policy of the session's limits.
unfoldable pub request_stop :
    StopPolicy → ℕ → StopPolicy → Life → Execution → StopAnswer × Bool × Execution
unfolding over enter_request merged
request_stop base now p life e =
    if is_settled e.stop
    then (
      immediate
          (record { how = kind_of e.stop; result = known_err e; session_err = life.terminal }),
      false,
      e,
    )
    else if is_finished e.phase || (not (is_current life.current e) && not (is_some e.stop))
    then (
      immediate (record { how = stop_finished; result = e.err; session_err = life.terminal }),
      false,
      e,
    )
    else if is_some e.terminal_cause && not (is_some e.stop)
    then (
      immediate
          (record { how = stop_finished; result = e.terminal_cause; session_err = life.terminal }),
      false,
      e,
    )
    else (let req = merged (over p base) now e.stop in
        let held = record e { stop = some req } in
        let entered = enter_request req held in
        if ltb now req.request_at then (awaits, false, held) else (awaits, entered.0, entered.1))

-- requestStopForStep.
unfoldable pub request_stop_for_step : StopPolicy → ℕ → ℕ → Life → Execution → Bool × Execution
unfolding request_stop
request_stop_for_step base now step life e =
    let asked = request_stop base now base life e in
    if not (e.step == step) || is_finished e.phase then (false, e) else (asked.1, asked.2)

-- One round of watchStop when its timer fires, before the kill.
unfoldable pub watch_stop : StopRequest → Execution → Bool × Execution
unfolding enter_request
watch_stop req e =
    let entered = enter_request req e in
    if req.requested || is_finished e.phase then (false, e) else entered

-- What the first section of forceExecution finds.
pub data Forced : Type 0 where
  settled too_early kills : Forced

-- forceExecution before it terminates the worker.
unfoldable pub force_execution : ℕ → StopRequest → Life → Execution → Forced × Life × Execution
unfolding resolve_stop close_done
force_execution now req life e =
    if req.resolved_once || req.force_claimed
    then (settled, life, e)
    else if not (is_current life.current e) || (is_finished e.phase || is_some life.terminal)
    then (settled, life, resolve_stop stop_finished e)
    else if ltb now req.kill_at
    then (too_early, life, e)
    else (
      kills,
      close_done (session_killed req.policy.reason) life,
      record e {
        stop = some (record req { force_claimed = true; kind = stop_killed });
        terminal_cause = some (session_killed req.policy.reason);
        pending = [];
      },
    )

-- stoppedFrom.
unfoldable pub stopped_from : StopRequest → Life → Execution → Stopped
stopped_from req life e = record {
  how = req.kind;
  result = known_err e;
  session_err = life.terminal;
}

-- deliverStop, and the reason it delivers.
unfoldable pub deliver_stop : StopRequest → Execution → Option ℕ × Execution
deliver_stop req e = (req.policy.reason, record e { delivered = true })
