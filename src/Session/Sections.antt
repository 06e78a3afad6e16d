-- ===== src/Session/Sections.antt =====
-- What each section of an execution does to what Session/Ownership states of it.
use montygo.Prelude.{Bool, Option, arith, false, none, some, ℕ, ◌+◌, ◌≡◌}
use montygo.Session.{
  Execution, aborting, callback, control, executing, make_operation, make_turn, paused, preparing,
  release_operation, release_turn, starting,
}
use montygo.Session.System.{System, aborting_by, leaves, must_end, must_stop, went}
use montygo.Session.Ownership.{Runs, RunsIf}
use montygo.Session.Lifecycle.{
  Limits, admission_error, at_boundary, before_resume, before_start_with, begin_callback,
  begin_execution, begin_send, boundary_stop, due_request, end_callback, execution_error,
  install_step, stop_before_start, to_wire,
}
use montygo.Session.Control.{
  SnapshotToken, claim_snapshot, close_owned, hold_paused, holds_paused, owns_worker, publish_pause,
  release_control, reserve_control_for, snapshot_error,
}
use montygo.Session.Stop.{enter_request, new_stop_request}
use montygo.Session.Phases.{
  aborting_of, at_phase, callback_of, control_of, executing_of, leave-Runs, operation_paused,
  paused_of, preparing_of, starting_of,
}
use montygo.Session.Finish.{abort_execution, add_future}

pub publish_pause-Runs :
    (s : System) (n : ℕ) (token : Option SnapshotToken) (e d : Execution)
    → s.drivers ≡ n + 1
    → publish_pause s.life e ≡ (none, token, d)
    → Runs s e
    → Runs (record (leaves s false d) { drivers = n }) d
unfolding publish_pause execution_error release_turn release_operation
publish_pause-Runs s n token e d one eq h =
    let at = at_phase s e executing h (executing_of e.phase s h.owned (ground arith)) in
    ground arith

pub begin_execution-Runs :
    (s : System) (n now : ℕ) (ended : Bool) (limits : Limits) (e : Execution)
    → s.starters ≡ n + 1
    → Runs s e
    → RunsIf
        (went
          (record s { starters = n })
          (λ t. record t { preparers = t.preparers + 1 })
          (begin_execution ended now limits s.life e))
        (some (begin_execution ended now limits s.life e).2)
unfolding begin_execution execution_error stop_before_start before_start_with enter_request
    due_request new_stop_request
begin_execution-Runs s n now ended limits e one h =
    let at = at_phase s e starting h (starting_of e.phase s h.owned (ground arith)) in ground arith

pub begin_send-Runs :
    (s : System) (n now : ℕ) (ended : Bool) (limits : Limits) (e : Execution)
    → s.preparers ≡ n + 1
    → Runs s e
    → RunsIf
        (went
          (record s { preparers = n })
          (λ t. record t { drivers = t.drivers + 1 })
          (begin_send ended now limits s.life e))
        (some (begin_send ended now limits s.life e).2)
unfolding begin_send to_wire execution_error stop_before_start before_start_with enter_request
    due_request new_stop_request make_turn
begin_send-Runs s n now ended limits e one h =
    let at = at_phase s e preparing h (preparing_of e.phase s h.owned (ground arith)) in
    ground arith

pub begin_callback-Runs :
    (s : System) (n : ℕ) (e d : Execution)
    → s.drivers ≡ n + 1
    → begin_callback s.life e ≡ (none, d)
    → Runs s e
    → Runs (record (leaves s false d) { drivers = n; callers = s.callers + 1 }) d
unfolding begin_callback at_boundary execution_error boundary_stop release_turn
begin_callback-Runs s n e d one eq h =
    let at = at_phase s e executing h (executing_of e.phase s h.owned (ground arith)) in
    ground arith

pub end_callback-Runs :
    (s : System) (n : ℕ) (e : Execution)
    → s.callers ≡ n + 1
    → Runs s e
    → Runs
        (record (leaves s false (end_callback e)) { callers = n; drivers = s.drivers + 1 })
        (end_callback e)
unfolding end_callback
end_callback-Runs s n e one h =
    let at = at_phase s e callback h (callback_of e.phase s h.owned (ground arith)) in ground arith

pub before_resume-Runs :
    (s : System) (n : ℕ) (e : Execution)
    → s.drivers ≡ n + 1
    → Runs s e
    → Runs (leaves s false (before_resume s.life e).1) (before_resume s.life e).1
unfolding before_resume at_boundary execution_error boundary_stop release_turn make_turn
before_resume-Runs s n e one h =
    let at = at_phase s e executing h (executing_of e.phase s h.owned (ground arith)) in
    ground arith

pub add_future-Runs :
    (s : System) (limits : Limits) (given : Bool) (call_id : ℕ) (e : Execution)
    → Runs s e
    → Runs
        (leaves s false (add_future limits given call_id s.life e).1)
        (add_future limits given call_id s.life e).1
unfolding add_future execution_error
add_future-Runs s limits given call_id e h = let same = leave-Runs s e h in ground arith

pub driver_aborts-Runs :
    (s : System) (n : ℕ) (e : Execution)
    → s.drivers ≡ n + 1
    → Runs s e
    → Runs
        (aborting_by (record s { drivers = n }) (abort_execution s.life e))
        (abort_execution s.life e).1
unfolding abort_execution execution_error release_turn make_turn
driver_aborts-Runs s n e one h =
    let at = at_phase s e executing h (executing_of e.phase s h.owned (ground arith)) in
    ground arith

pub aborts-Runs :
    (s : System) (n : ℕ) (e : Execution)
    → s.aborters ≡ n + 1
    → Runs s e
    → Runs
        (aborting_by (record s { aborters = n }) (abort_execution s.life e))
        (abort_execution s.life e).1
unfolding abort_execution execution_error release_turn make_turn
aborts-Runs s n e one h =
    let at = at_phase s e aborting h (aborting_of e.phase s h.owned (ground arith)) in ground arith

pub claim_snapshot-Runs :
    (s : System) (t u : SnapshotToken) (e d : Execution)
    → claim_snapshot t s.life e ≡ (none, u, d)
    → Runs s e
    → Runs (record (leaves s false d) { drivers = s.drivers + 1 }) d
unfolding claim_snapshot snapshot_error admission_error make_operation install_step
claim_snapshot-Runs s t u e d eq h =
    let at = at_phase s e paused h (paused_of e.phase (ground arith)) in ground arith

pub reserve_control_for-Runs :
    (s : System) (allowed : Bool) (token : Option SnapshotToken) (e d : Execution)
    → reserve_control_for allowed token s.life e ≡ (holds_paused, d)
    → Runs s e
    → Runs (record (leaves s false d) { controllers = s.controllers + 1 }) d
unfolding reserve_control_for snapshot_error admission_error make_operation make_turn hold_paused
reserve_control_for-Runs s allowed token e d eq h =
    let at = at_phase s e paused h (paused_of e.phase (ground arith)) in ground arith

pub release_control-Runs :
    (s : System) (n : ℕ) (e : Execution)
    → s.controllers ≡ n + 1
    → Runs s e
    → Runs
        (record s {
          exec = some (release_control s.life e).1;
          controllers = n;
          enders = s.enders + must_end (release_control s.life e).0;
          aborters = s.aborters + must_stop (release_control s.life e).0;
        })
        (release_control s.life e).1
unfolding release_control release_turn release_operation make_operation
release_control-Runs s n e one h =
    let at = at_phase s e control h (control_of e.phase s h.owned (ground arith)) in ground arith

pub close_owned-Runs :
    (s : System) (e d : Execution)
    → close_owned s.life e ≡ (owns_worker, d)
    → Runs s e
    → Runs (record (leaves s false d) { closers = s.closers + 1 }) d
unfolding close_owned make_operation make_turn hold_paused
close_owned-Runs s e d eq h =
    let at =
      at_phase s e paused h
        (operation_paused s e.phase e.turn_done e.operation_done h.wired h.owned (ground arith)) in
    ground arith
