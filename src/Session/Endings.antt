-- ===== src/Session/Endings.antt =====
-- What the sections that end an execution, a stop or the session do to what Session/Ownership states.
use montygo.Prelude.{
  Bool-cases, List, Option, [], arith, false, inl, inr, none, refl, some, subst, true, ℕ, ◌++◌, ◌+◌,
  ◌∷◌, ◌≡◌,
}
use montygo.Session.{
  Channel, Error, Execution, ExecutionPhase, Life, StopKind, StopRequest, aborting, callback,
  close_done, control, executing, finished, is_closed, is_finished, is_paused, make_operation,
  paused, preparing, release_operation, release_turn, starting,
}
use montygo.Session.System.{System, count, forcing}
use montygo.Session.Finish.{
  close_execution, end_kind, ended_with, finish_execution, settle_stop, terminate_execution,
  terminate_session,
}
use montygo.Session.Ownership.{
  AllEnded, Ended, Inv, Owned, Runs, Stopping, Wired, is_killed, is_stop_killed,
}
use montygo.Session.Phases.{at_phase, leave-Runs, paused_of}
use montygo.Session.Stop.{force_execution, resolve, resolve_panics, resolve_stop}

pub resolve_stop-Runs :
    (s : System) (kind : StopKind) (e : Execution)
    → (is_stop_killed kind ≡ true → is_killed s.life.terminal ≡ true)
    → Runs s e
    → Runs s (resolve_stop kind e)
unfolding resolve_stop resolve
resolve_stop-Runs s kind e killed h = test e.stop refl
  where
    test :
        (o : Option StopRequest)
        → e.stop ≡ o
        → Runs s (elim o [
          | none ↦ e
          | some req ↦ record e {
            stop = some (resolve kind req);
            panics = e.panics + resolve_panics req;
          }
        ])
    test none q = h
    test (some req) q = let stopping = subst Stopping q h.stopping in ground arith

pub resolve_stop-Ended :
    (life : Life) (kind : StopKind) (e : Execution)
    → (is_stop_killed kind ≡ true → is_killed life.terminal ≡ true)
    → Ended life e
    → Ended life (resolve_stop kind e)
unfolding resolve_stop resolve
resolve_stop-Ended life kind e killed h = test e.stop refl
  where
    test :
        (o : Option StopRequest)
        → e.stop ≡ o
        → Ended life (elim o [
          | none ↦ e
          | some req ↦ record e {
            stop = some (resolve kind req);
            panics = e.panics + resolve_panics req;
          }
        ])
    test none q = h
    test (some req) q = let stopping = subst Stopping q h.stopping in ground arith

-- The channels of an execution are those of its phase.
free_ended :
    (s : System) (p : ExecutionPhase) (turn operation : Channel)
    → Wired p turn operation
    → (is_closed turn ≡ false) × (is_closed operation ≡ false)
free_ended s starting turn operation w = ground arith
free_ended s preparing turn operation w = ground arith
free_ended s executing turn operation w = ground arith
free_ended s callback turn operation w = ground arith
free_ended s paused turn operation w = ground arith
free_ended s control turn operation w = ground arith
free_ended s aborting turn operation w = ground arith
free_ended s finished turn operation w = ground arith

unfinished : (s : System) (p : ExecutionPhase) → Owned p s → is_finished p ≡ false
unfinished s starting o = refl
unfinished s preparing o = refl
unfinished s executing o = refl
unfinished s callback o = refl
unfinished s paused o = refl
unfinished s control o = refl
unfinished s aborting o = refl
unfinished s finished o = absurd o

pub finish_execution-Ended :
    (s : System) (value : Option ℕ) (err : Option Error) (e : Execution)
    → Runs s e
    → Ended (finish_execution value err s.life e).0 (finish_execution value err s.life e).1
unfolding finish_execution ended_with release_turn release_operation settle_stop close_execution
    resolve_stop resolve end_kind
finish_execution-Ended s value err e h =
    let free = free_ended s e.phase e.turn_done e.operation_done h.wired in
    let going = unfinished s e.phase h.owned in ground arith

pub AllEnded-mono :
    (old new : Life) (es : List Execution)
    → (is_killed old.terminal ≡ true → is_killed new.terminal ≡ true)
    → AllEnded old es
    → AllEnded new es
AllEnded-mono old new [] up h = h
AllEnded-mono old new (e ∷ es) up h = (ground arith, AllEnded-mono old new es up h.1)

pub AllEnded-replace :
    (life : Life) (front back : List Execution) (e d : Execution)
    → (Ended life e → Ended life d)
    → AllEnded life (front ++ e ∷ back)
    → AllEnded life (front ++ d ∷ back)
AllEnded-replace life [] back e d f h = (f h.0, h.1)
AllEnded-replace life (x ∷ front) back e d f h = (h.0, AllEnded-replace life front back e d f h.1)

pub terminate_execution-Runs :
    (s : System) (cause : Error) (e : Execution)
    → Runs s e
    → Inv s
    → (let life = terminate_session cause s.life in
        let r = terminate_execution life.terminal e in
        Runs (record s { life = life; exec = some r.1; enders = s.enders + count r.0 }) r.1)
unfolding terminate_session terminate_execution make_operation close_done
terminate_execution-Runs s cause e h i = elim (Bool-cases (is_paused e.phase)) [
  | inl q ↦ let at = at_phase s e paused h (paused_of e.phase q) in ground arith
  | inr q ↦ let same = leave-Runs s e h in ground arith
]

pub force_execution-Runs :
    (s : System) (now : ℕ) (req : StopRequest) (e : Execution)
    → e.stop ≡ some req
    → is_paused e.phase ≡ false
    → Runs s e
    → Inv s
    → Runs (forcing s (force_execution now req s.life e)) (force_execution now req s.life e).2
unfolding force_execution close_done
force_execution-Runs s now req e stopped awake h i = let same = leave-Runs s e h in ground arith
