-- ===== src/Session/Reachable.antt =====
-- Every state that a session reaches from a new one, under every interleaving of the sections.
use montygo.Prelude.{arith, false, subst, ◌∷◌}
use montygo.Session.{aborting, close_done, stop_finished, stop_killed}
use montygo.Session.Goroutines.{
  Reach, Step, abort_ends, abort_forces, abort_goes_wrong, adds_future, answers_abort, asks_to_stop,
  begins, calls_back, claims, closes, comes_back, context_ends, controls, controls_idle, delivers,
  driver_aborts, driving_ends, finishes, forces, has_killed, has_killed_finished, here, leaves_idle,
  looks, next, owner_ends, owns, owns_idle, pauses, preparing_fails, receives, releases, reserves,
  resumes, sends, settles, start_fails, takes_futures, terminates, terminates_idle, watches,
}
use montygo.Session.System.{System, new_session}
use montygo.Session.Finish.{aborted_feed, terminate_session}
use montygo.Session.Lifecycle.{admission_error, received_turn}
use montygo.Session.Ownership.{AllEnded, Inv}
use montygo.Session.Phases.{aborting_of, at_phase, leave-Runs}
use montygo.Session.Endings.{AllEnded-mono, AllEnded-replace, resolve_stop-Ended, resolve_stop-Runs}
use montygo.Session.Stop.{deliver_stop, resolve_stop}
use montygo.Session.Sections.{
  aborts-Runs, add_future-Runs, before_resume-Runs, begin_callback-Runs, begin_execution-Runs,
  begin_send-Runs, claim_snapshot-Runs, close_owned-Runs, driver_aborts-Runs, end_callback-Runs,
  publish_pause-Runs, release_control-Runs, reserve_control_for-Runs,
}
use montygo.Session.Requests.{
  request_stop-Runs, request_stop_for_step-Runs, stop_at_boundary-Runs, watch_stop-Runs,
}
use montygo.Session.Control.{
  begin_close, close_control, close_owned_idle, make_control, reserve_control_idle, settle_close,
}
use montygo.Session.Closing.{attempting-RunsIf, begin_close-Attempting}
use montygo.Session.Steps.{
  aborter_ends, aborting-Inv, closer_ends, driver_aborting-Inv, driver_ends, finish-Inv,
  forcing-Inv, leaves-Inv, nobody, preparer_ends, reserve-Inv, running, sent-Inv, settle_close-Inv,
  starter_ends, terminate-Inv, unheld, went-Inv,
}

pub Step-Inv : {s t : System} → Step s t → Inv s → Inv t
unfolding received_turn deliver_stop aborted_feed reserve_control_idle make_control close_control
    begin_close close_owned_idle settle_close admission_error terminate_session close_done
Step-Inv {s = s} (reserves e life q) h = reserve-Inv s e life q h
Step-Inv {s = s} (start_fails n one) h = starter_ends s n one h
Step-Inv {s = s} (begins n now over limits e q one) h =
    went-Inv s n _ one h (begin_execution-Runs s n now over limits e one (running s e q h))
Step-Inv {s = s} (preparing_fails n one) h = preparer_ends s n one h
Step-Inv {s = s} (sends n now over limits e q one) h =
    sent-Inv s n _ one h (begin_send-Runs s n now over limits e one (running s e q h))
Step-Inv {s = s} (receives n e q one) h =
    let r = running s e q h in leaves-Inv s false _ h (let same = leave-Runs s e r in ground arith)
Step-Inv {s = s} (looks n now over limits e q one) h =
    leaves-Inv s _ _ h (stop_at_boundary-Runs s now over limits e (running s e q h))
Step-Inv {s = s} (calls_back n e d q one eq) h =
    let r = begin_callback-Runs s n e d one eq (running s e q h) in ground arith
Step-Inv {s = s} (comes_back n e q one) h =
    let r = end_callback-Runs s n e one (running s e q h) in ground arith
Step-Inv {s = s} (resumes n e q one) h =
    leaves-Inv s false _ h (before_resume-Runs s n e one (running s e q h))
Step-Inv {s = s} (delivers n e req q one eq) h =
    let r = running s e q h in leaves-Inv s false _ h (let same = leave-Runs s e r in ground arith)
Step-Inv {s = s} (adds_future n call_id given limits e q one) h =
    leaves-Inv s false _ h (add_future-Runs s limits given call_id e (running s e q h))
Step-Inv {s = s} (takes_futures n left e q one) h =
    let r = running s e q h in leaves-Inv s false _ h (let same = leave-Runs s e r in ground arith)
Step-Inv {s = s} (driving_ends n one) h = driver_ends s n one h
Step-Inv {s = s} (driver_aborts n e q one) h =
    driver_aborting-Inv s n _ h (driver_aborts-Runs s n e one (running s e q h))
Step-Inv {s = s} (Step.aborts n e q one) h =
    aborting-Inv s n _ h (aborts-Runs s n e one (running s e q h))
Step-Inv {s = s} (answers_abort n e q one) h =
    let r = running s e q h in leaves-Inv s false _ h (let same = leave-Runs s e r in ground arith)
Step-Inv {s = s} (abort_goes_wrong n e q one over) h =
    leaves-Inv s false _ h
      (leave-Runs s _ (resolve_stop-Runs s stop_finished e (ground arith) (running s e q h)))
Step-Inv {s = s} (abort_ends n one) h = aborter_ends s n one h
Step-Inv {s = s} (finishes n value err e q one) h = finish-Inv s n value err e q one h
Step-Inv {s = s} (asks_to_stop now base p e q) h =
    leaves-Inv s _ _ h (request_stop-Runs s base now p e (running s e q h))
Step-Inv {s = s} (context_ends now step base e q) h =
    leaves-Inv s _ _ h (request_stop_for_step-Runs s base now step e (running s e q h))
Step-Inv {s = s} (watches e req q stopped) h =
    leaves-Inv s _ _ h (watch_stop-Runs s req e (running s e q h) stopped)
Step-Inv {s = s} (forces now e req q stopped asked) h =
    let r = running s e q h in forcing-Inv s now req e q stopped (ground arith) h
Step-Inv {s = s} (abort_forces n now e req q stopped one) h =
    let r = running s e q h in
    let at = at_phase s e aborting r (aborting_of e.phase s r.owned (ground arith)) in
    forcing-Inv s now req e q stopped (ground arith) h
Step-Inv {s = s} (has_killed n e q one) h =
    let r =
      leave-Runs s _
        (resolve_stop-Runs s stop_killed e (λ _. h.forced (ground arith)) (running s e q h)) in
    let i = leaves-Inv s false _ h r in ground arith
Step-Inv {s = s} (has_killed_finished n front back e q one) h =
    let all =
      AllEnded-replace s.life front back e (resolve_stop stop_killed e)
        (resolve_stop-Ended s.life stop_killed e (λ _. h.forced (ground arith)))
        (subst (AllEnded s.life) q h.ends) in
    ground arith
Step-Inv {s = s} (terminates_idle cause q) h =
    let none_runs = nobody s q h in
    let up = AllEnded-mono s.life (terminate_session cause s.life) s.past (ground arith) h.ends in
    ground arith
Step-Inv {s = s} (terminates cause e q) h = terminate-Inv s cause e q h
Step-Inv {s = s} (pauses n token e d q one eq) h =
    let r = publish_pause-Runs s n token e d one eq (running s e q h) in ground arith
Step-Inv {s = s} (claims t u e d q eq) h =
    let r = claim_snapshot-Runs s t u e d eq (running s e q h) in ground arith
Step-Inv {s = s} (controls_idle life q eq) h =
    let none_runs = nobody s q h in
    let up = AllEnded-mono s.life life s.past (ground arith) h.ends in ground arith
Step-Inv {s = s} (leaves_idle n one) h =
    let none_runs = unheld s (ground arith) h in
    let up = AllEnded-mono s.life (close_control s.life) s.past (λ k. k) h.ends in ground arith
Step-Inv {s = s} (controls allowed token e d q eq) h =
    let r = reserve_control_for-Runs s allowed token e d eq (running s e q h) in ground arith
Step-Inv {s = s} (releases n e q one) h =
    let r = release_control-Runs s n e one (running s e q h) in ground arith
Step-Inv {s = s} (closes phase run a life eq) h =
    let up = AllEnded-mono s.life life s.past (ground arith) h.ends in
    let r =
      attempting-RunsIf s life (a ∷ s.attempts_made) (a.attempt_id ∷ s.attempters) s.exec
        (ground arith) (ground arith) h.runs in
    let more =
      begin_close-Attempting phase run a s.life life s.attempters s.attempts_made eq h.attempting in
    ground arith
Step-Inv {s = s} (owns_idle life q eq) h =
    let none_runs = nobody s q h in
    let up = AllEnded-mono s.life life s.past (ground arith) h.ends in ground arith
Step-Inv {s = s} (owns e d q eq) h =
    let r = close_owned-Runs s e d eq (running s e q h) in ground arith
Step-Inv {s = s} (owner_ends n one) h = closer_ends s n one h
Step-Inv {s = s} (settles id err front back q) h = settle_close-Inv s id err front back q h

pub Reach-Inv : {s : System} → Reach new_session s → Inv s
Reach-Inv here = ground arith
Reach-Inv (next r step) = Step-Inv step (Reach-Inv r)
