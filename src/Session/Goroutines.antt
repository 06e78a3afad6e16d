-- ===== src/Session/Goroutines.antt =====
-- A session's goroutines and how their sections interleave. Each step is one section; between two
-- sections of one goroutine any other step may come. A section that returns an error without a
-- change is no step. A goroutine that is about to abandon its work may do so at any point at which
-- the source can.
use montygo.Prelude.{Bool, List, Option, false, length, none, some, true, ℕ, ◌++◌, ◌+◌, ◌∷◌, ◌≡◌}
use montygo.Session.{
  Error, Execution, ExecutionPhase, Life, StopRequest, is_some, stop_finished, stop_killed,
}
use montygo.Session.Finish.{
  abort_execution, aborted_feed, add_future, finish_execution, terminate_execution,
  terminate_session,
}
use montygo.Session.Lifecycle.{
  Limits, admitted, before_resume, begin_callback, begin_execution, begin_send, end_callback,
  received_turn, reserve_execution, stop_at_boundary,
}
use montygo.Session.Control.{
  CloseAttempt, SnapshotToken, attempts, begin_close, claim_snapshot, close_control, close_owned,
  close_owned_idle, holds_idle, holds_paused, owns_worker, publish_pause, release_control,
  reserve_control_for, reserve_control_idle, settle_close,
}
use montygo.Session.Stop.{
  deliver_stop, force_execution, request_stop, request_stop_for_step, resolve_stop, watch_stop,
}
use montygo.Session.Policy.{StopPolicy}
use montygo.Session.System.{System, aborting_by, count, forcing, leaves, must_end, must_stop, went}

pub data Step (s : System) : System → Type 0 where
  reserves :
      (e : Execution) (life : Life)
      → reserve_execution s.life ≡ (admitted e, life)
      → Step s (record s { life = life; exec = some e; starters = s.starters + 1 })
  start_fails :
      (n : ℕ) → s.starters ≡ n + 1 → Step s (record s { starters = n; enders = s.enders + 1 })
  begins :
      (n now : ℕ) (ended : Bool) (limits : Limits) (e : Execution)
      → s.exec ≡ some e
      → s.starters ≡ n + 1
      → Step s (
          went
            (record s { starters = n })
            (λ t. record t { preparers = t.preparers + 1 })
            (begin_execution ended now limits s.life e))
  preparing_fails :
      (n : ℕ) → s.preparers ≡ n + 1 → Step s (record s { preparers = n; enders = s.enders + 1 })
  sends :
      (n now : ℕ) (ended : Bool) (limits : Limits) (e : Execution)
      → s.exec ≡ some e
      → s.preparers ≡ n + 1
      → Step s (
          went
            (record s { preparers = n })
            (λ t. record t { drivers = t.drivers + 1 })
            (begin_send ended now limits s.life e))
  receives :
      (n : ℕ) (e : Execution)
      → s.exec ≡ some e
      → s.drivers + s.aborters ≡ n + 1
      → Step s (leaves s false (received_turn e))
  looks :
      (n now : ℕ) (ended : Bool) (limits : Limits) (e : Execution)
      → s.exec ≡ some e
      → s.drivers ≡ n + 1
      → Step s (let r = stop_at_boundary ended now limits s.life e in leaves s r.1 r.2)
  calls_back :
      (n : ℕ) (e d : Execution)
      → s.exec ≡ some e
      → s.drivers ≡ n + 1
      → begin_callback s.life e ≡ (none, d)
      → Step s (record (leaves s false d) { drivers = n; callers = s.callers + 1 })
  comes_back :
      (n : ℕ) (e : Execution)
      → s.exec ≡ some e
      → s.callers ≡ n + 1
      → Step s (record (leaves s false (end_callback e)) { callers = n; drivers = s.drivers + 1 })
  resumes :
      (n : ℕ) (e : Execution)
      → s.exec ≡ some e
      → s.drivers ≡ n + 1
      → Step s (leaves s false (before_resume s.life e).1)
  delivers :
      (n : ℕ) (e : Execution) (req : StopRequest)
      → s.exec ≡ some e
      → s.drivers ≡ n + 1
      → e.stop ≡ some req
      → Step s (leaves s false (deliver_stop req e).1)
  adds_future :
      (n call_id : ℕ) (given : Bool) (limits : Limits) (e : Execution)
      → s.exec ≡ some e
      → s.drivers ≡ n + 1
      → Step s (leaves s false (add_future limits given call_id s.life e).1)
  takes_futures :
      (n : ℕ) (left : List ℕ) (e : Execution)
      → s.exec ≡ some e
      → s.drivers ≡ n + 1
      → Step s (leaves s false (record e { pending = left }))
  driving_ends :
      (n : ℕ) → s.drivers ≡ n + 1 → Step s (record s { drivers = n; enders = s.enders + 1 })
  driver_aborts :
      (n : ℕ) (e : Execution)
      → s.exec ≡ some e
      → s.drivers ≡ n + 1
      → Step s (aborting_by (record s { drivers = n }) (abort_execution s.life e))
  aborts :
      (n : ℕ) (e : Execution)
      → s.exec ≡ some e
      → s.aborters ≡ n + 1
      → Step s (aborting_by (record s { aborters = n }) (abort_execution s.life e))
  answers_abort :
      (n : ℕ) (e : Execution)
      → s.exec ≡ some e
      → s.aborters ≡ n + 1
      → Step s (leaves s false (aborted_feed e))
  abort_goes_wrong :
      (n : ℕ) (e : Execution)
      → s.exec ≡ some e
      → s.aborters ≡ n + 1
      → is_some s.life.terminal ≡ true
      → Step s (leaves s false (resolve_stop stop_finished e))
  abort_ends :
      (n : ℕ) → s.aborters ≡ n + 1 → Step s (record s { aborters = n; enders = s.enders + 1 })
  finishes :
      (n : ℕ) (value : Option ℕ) (err : Option Error) (e : Execution)
      → s.exec ≡ some e
      → s.enders ≡ n + 1
      → Step s (
          let r = finish_execution value err s.life e in
          record s { life = r.0; exec = none; past = r.1 ∷ s.past; enders = n })
  asks_to_stop :
      (now : ℕ) (base p : StopPolicy) (e : Execution)
      → s.exec ≡ some e
      → Step s (let r = request_stop base now p s.life e in leaves s r.1 r.2)
  context_ends :
      (now step : ℕ) (base : StopPolicy) (e : Execution)
      → s.exec ≡ some e
      → Step s (let r = request_stop_for_step base now step s.life e in leaves s r.0 r.1)
  watches :
      (e : Execution) (req : StopRequest)
      → s.exec ≡ some e
      → e.stop ≡ some req
      → Step s (let r = watch_stop req e in leaves s r.0 r.1)
  -- `requested` was read in the section before; it is never reset.
  forces :
      (now : ℕ) (e : Execution) (req : StopRequest)
      → s.exec ≡ some e
      → e.stop ≡ some req
      → req.requested ≡ true
      → Step s (forcing s (force_execution now req s.life e))
  abort_forces :
      (n now : ℕ) (e : Execution) (req : StopRequest)
      → s.exec ≡ some e
      → e.stop ≡ some req
      → s.aborters ≡ n + 1
      → Step s (forcing s (force_execution now req s.life e))
  has_killed :
      (n : ℕ) (e : Execution)
      → s.exec ≡ some e
      → s.forcers ≡ n + 1
      → Step s (record (leaves s false (resolve_stop stop_killed e)) { forcers = n })
  has_killed_finished :
      (n : ℕ) (before after : List Execution) (e : Execution)
      → s.past ≡ before ++ e ∷ after
      → s.forcers ≡ n + 1
      → Step s (record s { past = before ++ resolve_stop stop_killed e ∷ after; forcers = n })
  terminates_idle :
      (cause : Error)
      → s.life.current ≡ none
      → Step s (record s { life = terminate_session cause s.life })
  terminates :
      (cause : Error) (e : Execution)
      → s.exec ≡ some e
      → Step s (
          let life = terminate_session cause s.life in
          let r = terminate_execution life.terminal e in
          record s { life = life; exec = some r.1; enders = s.enders + count r.0 })
  pauses :
      (n : ℕ) (token : Option SnapshotToken) (e d : Execution)
      → s.exec ≡ some e
      → s.drivers ≡ n + 1
      → publish_pause s.life e ≡ (none, token, d)
      → Step s (record (leaves s false d) { drivers = n })
  claims :
      (t u : SnapshotToken) (e d : Execution)
      → s.exec ≡ some e
      → claim_snapshot t s.life e ≡ (none, u, d)
      → Step s (record (leaves s false d) { drivers = s.drivers + 1 })
  controls_idle :
      (life : Life)
      → s.life.current ≡ none
      → reserve_control_idle s.life ≡ (holds_idle, life)
      → Step s (record s { life = life; holders = s.holders + 1 })
  leaves_idle :
      (n : ℕ) → s.holders ≡ n + 1 → Step s (record s { life = close_control s.life; holders = n })
  controls :
      (allowed : Bool) (token : Option SnapshotToken) (e d : Execution)
      → s.exec ≡ some e
      → reserve_control_for allowed token s.life e ≡ (holds_paused, d)
      → Step s (record (leaves s false d) { controllers = s.controllers + 1 })
  releases :
      (n : ℕ) (e : Execution)
      → s.exec ≡ some e
      → s.controllers ≡ n + 1
      → Step s (
          let r = release_control s.life e in
          record s {
            exec = some r.1;
            controllers = n;
            enders = s.enders + must_end r.0;
            aborters = s.aborters + must_stop r.0;
          })
  closes :
      (phase : Option ExecutionPhase) (running : Bool) (a : CloseAttempt) (life : Life)
      → begin_close (length s.attempts_made) phase s.life ≡ (attempts running a, life)
      → Step s (record s {
        life = life;
        attempts_made = a ∷ s.attempts_made;
        attempters = a.attempt_id ∷ s.attempters;
      })
  owns_idle :
      (life : Life)
      → s.life.current ≡ none
      → close_owned_idle s.life ≡ (owns_worker, life)
      → Step s (record s { life = life; holders = s.holders + 1 })
  owns :
      (e d : Execution)
      → s.exec ≡ some e
      → close_owned s.life e ≡ (owns_worker, d)
      → Step s (record (leaves s false d) { closers = s.closers + 1 })
  owner_ends :
      (n : ℕ) → s.closers ≡ n + 1 → Step s (record s { closers = n; enders = s.enders + 1 })
  settles :
      (id : ℕ) (err : Option Error) (before after : List ℕ)
      → s.attempters ≡ before ++ id ∷ after
      → Step s (
          let r = settle_close id err s.attempts_made s.life in
          record s { life = r.1; attempts_made = r.0; attempters = before ++ after })

pub data Reach (s : System) : System → Type 0 where
  here : Reach s s
  next : {t u : System} → Reach s t → Step t u → Reach s u
