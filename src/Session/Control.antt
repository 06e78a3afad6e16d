-- ===== src/Session/Control.antt =====
-- session_control.go, snapshot.go, session.go: control operations, snapshots and the coarse state.
use montygo.Prelude.{
  Bool, List, Option, [], false, if◌then◌else◌, none, not, some, true, ℕ, ◌+◌, ◌==◌, ◌||◌, ◌∷◌,
}
use montygo.Session.{
  Channel, Error, Execution, ExecutionPhase, Life, aborting, close_panics, closed, control,
  executing, execution_interrupted, is_finished, is_nil, is_paused, is_some, make_loses,
  make_operation, make_turn, missing, opened, paused, release_operation, release_turn,
  sequences_exhausted, session_busy, snapshot_resumed, snapshot_stale,
}
use montygo.Session.Lifecycle.{
  admission_error, execution_error, install_step, is_requested, max_uint64,
}
use montygo.Session.Stop.{is_current}

-- snapshotToken, of the execution that goes with it.
pub record SnapshotToken : Type 0 where
  pub at_sequence : ℕ
  pub used : Bool

-- snapshotErrorLocked.
unfoldable pub snapshot_error : SnapshotToken → Life → Execution → Option Error
unfolding admission_error
snapshot_error t life e =
    if t.used
    then some snapshot_resumed
    else if is_some e.terminal_cause
    then e.terminal_cause
    else if is_finished e.phase
    then (if is_some e.err then e.err else some snapshot_stale)
    else if is_some life.terminal
    then life.terminal
    else if not (is_current life.current e) || not (t.at_sequence == e.sequence)
    then some snapshot_stale
    else if not (is_paused e.phase)
    then some session_busy
    else admission_error life

-- publishPause, with the token that it issues.
unfoldable pub publish_pause : Life → Execution → Option Error × Option SnapshotToken × Execution
unfolding execution_error release_turn release_operation
publish_pause life e = elim (execution_error life e) [
  | some err ↦ (some err, none, e)
  | none ↦
      if is_requested e.stop
      then (some execution_interrupted, none, e)
      else if e.sequence == max_uint64
      then (some sequences_exhausted, none, e)
      else (
        none,
        some (record { at_sequence = e.sequence + 1; used = false }),
        release_operation (release_turn (record e { sequence = e.sequence + 1; phase = paused })),
      )
]

-- claimSnapshot with a live context.
unfoldable pub claim_snapshot :
    SnapshotToken → Life → Execution → Option Error × SnapshotToken × Execution
unfolding snapshot_error make_operation install_step
claim_snapshot t life e = elim (snapshot_error t life e) [
  | some err ↦ (some err, t, e)
  | none ↦ (
    none,
    record t { used = true },
    install_step (make_operation (record e { phase = executing })),
  )
]

-- What a control operation holds.
pub data ControlHold : Type 0 where
  denied : Error → ControlHold
  holds_idle holds_paused : ControlHold

unfoldable pub make_control : Life → Life
make_control life = record life {
  control_done = opened;
  replaced = life.replaced + make_loses life.control_done;
}

unfoldable pub close_control : Life → Life
close_control life = record life {
  control_done = missing;
  closing_panics = life.closing_panics + close_panics life.control_done;
}

-- The paused execution under a control operation.
unfoldable pub hold_paused : Execution → Execution
unfolding make_turn make_operation
hold_paused e = make_operation (make_turn (record e { phase = control; wire_in_flight = true }))

-- reserveControlFor with a live context, on the session without an execution.
unfoldable pub reserve_control_idle : Life → ControlHold × Life
unfolding admission_error make_control
reserve_control_idle life = elim (admission_error life) [
  | some err ↦ (denied err, life)
  | none ↦
      if not (is_nil life.control_done)
      then (denied session_busy, life)
      else (holds_idle, make_control life)
]

abbrev pub token_error : Option SnapshotToken → Life → Execution → Option Error
unfolding snapshot_error
token_error none life e = none
token_error (some t) life e = snapshot_error t life e

-- reserveControlFor with a live context, when the execution is the current one.
unfoldable pub reserve_control_for :
    Bool → Option SnapshotToken → Life → Execution → ControlHold × Execution
unfolding admission_error hold_paused
reserve_control_for allow_paused token life e = elim (token_error token life e) [
  | some err ↦ (denied err, e)
  | none ↦ elim (admission_error life) [
    | some err ↦ (denied err, e)
    | none ↦
        if not (is_nil life.control_done)
        then (denied session_busy, e)
        else if not allow_paused || not (is_paused e.phase)
        then (denied session_busy, e)
        else (holds_paused, hold_paused e)
  ]
]

-- What is left to the goroutine that gives up the control of a paused execution.
pub data AfterControl : Type 0 where
  stays_paused must_finish must_abort : AfterControl

-- The release of reserveControlFor, with an execution.
unfoldable pub release_control : Life → Execution → AfterControl × Execution
unfolding release_turn release_operation make_operation
release_control life e =
    let free = release_operation (release_turn (record e { wire_in_flight = false })) in
    if is_some life.terminal
    then (must_finish, make_operation (record free { phase = aborting }))
    else if is_some e.stop
    then (must_abort, make_operation (record free { phase = aborting }))
    else (stays_paused, record free { phase = paused })

-- closeAttempt, an object that its callers share: a pointer to it is `attempt_id`. `attempt_panics`
-- counts the closes of its channel that are not the first.
pub record CloseAttempt : Type 0 where
  pub attempt_id : ℕ
  pub attempt_done : Channel
  pub attempt_err : Option Error
  pub attempt_panics : ℕ

-- Close: what its first section finds, with a live context and a policy that does not kill at once;
-- a new attempt comes with whether an execution is running.
pub data CloseStart : Type 0 where
  already_closed joins_attempt : CloseStart
  attempts : Bool → CloseAttempt → CloseStart

abbrev pub is_running : Option ExecutionPhase → Bool
is_running none = false
is_running (some p) = not (is_paused p)

abbrev pub new_attempt : ℕ → CloseAttempt
new_attempt id = record {
  attempt_id = id;
  attempt_done = opened;
  attempt_err = none;
  attempt_panics = 0;
}

-- `id` is the pointer of an attempt that is made.
unfoldable pub begin_close : ℕ → Option ExecutionPhase → Life → CloseStart × Life
begin_close id phase life =
    if is_some life.terminal
    then (already_closed, life)
    else if is_some life.close_attempt
    then (joins_attempt, life)
    else (attempts (is_running phase) (new_attempt id), record life { close_attempt = some id })

-- settleClose of the attempt `id` with the error of closeOwned: the session, and the attempts.
abbrev pub settled_with : Option Error → CloseAttempt → CloseAttempt
settled_with err a = record a {
  attempt_err = err;
  attempt_done = closed;
  attempt_panics = a.attempt_panics + close_panics a.attempt_done;
}

unfoldable pub settle_at : ℕ → Option Error → List CloseAttempt → List CloseAttempt
settle_at id err [] = []
settle_at id err (a ∷ older) =
    let rest = settle_at id err older in
    if a.attempt_id == id then settled_with err a ∷ older else a ∷ rest

abbrev pub names : Option ℕ → ℕ → Bool
names none id = false
names (some n) id = n == id

unfoldable pub settle_close : ℕ → Option Error → List CloseAttempt → Life → List CloseAttempt × Life
unfolding settle_at
settle_close id err older life = (
  settle_at id err older,
  (if names life.close_attempt id then record life { close_attempt = none } else life),
)

-- closeOwned: what one round of its loop finds, without and with an execution; a live context.
pub data CloseRound : Type 0 where
  over_already waits_for_owner owns_worker : CloseRound

unfoldable pub close_owned_idle : Life → CloseRound × Life
unfolding make_control
close_owned_idle life =
    if is_some life.terminal
    then (over_already, life)
    else if is_nil life.control_done
    then (owns_worker, make_control life)
    else (waits_for_owner, life)

unfoldable pub close_owned : Life → Execution → CloseRound × Execution
unfolding hold_paused
close_owned life e =
    if is_some life.terminal
    then (over_already, e)
    else if is_nil e.operation_done
    then (owns_worker, hold_paused e)
    else (waits_for_owner, e)

pub data SessionState : Type 0 where
  session_idle session_running session_paused session_closed_state : SessionState

-- Session.State.
unfoldable pub state : Option ExecutionPhase → Life → SessionState
state phase life =
    if is_some life.terminal
    then session_closed_state
    else if is_some life.close_attempt || not (is_nil life.control_done)
    then session_running
    else elim phase [
      | none ↦ session_idle
      | some p ↦ if is_paused p then session_paused else session_running
    ]
