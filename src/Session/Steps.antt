-- ===== src/Session/Steps.antt =====
-- What each step of a session does to what Session/Ownership states, by what its section does.
use montygo.Prelude.{
  Bool, List, Option, arith, false, none, refl, some, subst, true, ℕ, ◌++◌, ◌+◌, ◌<◌, ◌∷◌, ◌≡◌,
}
use montygo.Session.{
  Error, Execution, Life, StopRequest, aborting, close_done, control, executing, is_paused,
  preparing, session_killed, starting,
}
use montygo.Session.System.{System, aborting_by, count, forcing, leaves, went}
use montygo.Session.Finish.{finish_execution, terminate_execution, terminate_session}
use montygo.Session.Lifecycle.{admission_error, admitted, install_step, reserve_execution}
use montygo.Session.Ownership.{Inv, Runs, RunsIf, owners}
use montygo.Session.Closing.{attempting-RunsIf, settle_close-Attempting}
use montygo.Session.Phases.{
  aborting_of, at_phase, control_of, executing_of, preparing_of, starting_of,
}
use montygo.Session.Endings.{
  AllEnded-mono, finish_execution-Ended, force_execution-Runs, terminate_execution-Runs,
}
use montygo.Session.Stop.{force_execution}
use montygo.Session.Control.{settle_at, settle_close}

pub running : (s : System) (e : Execution) → s.exec ≡ some e → Inv s → Runs s e
running s e q h = subst (RunsIf s) q h.runs

pub someone : (s : System) → Inv s → 0 < owners s → (e : Execution) × (s.exec ≡ some e)
someone s h n = test s.exec h.runs
  where
    test : (o : Option Execution) → RunsIf s o → (e : Execution) × (o ≡ some e)
    test none r = absurd (ground arith)
    test (some e) r = (e, refl)

pub leaves-Inv :
    (s : System) (b : Bool) (e : Execution) → Inv s → Runs (leaves s b e) e → Inv (leaves s b e)
leaves-Inv s true e h r = ground arith
leaves-Inv s false e h r = ground arith

pub nobody : (s : System) → s.life.current ≡ none → Inv s → s.exec ≡ none
nobody s c h = test s.exec h.runs
  where
    test : (o : Option Execution) → RunsIf s o → o ≡ none
    test none r = refl
    test (some e) r = absurd (ground arith)

-- A goroutine gives up what it does with the execution, and is about to finish it.
pub starter_ends :
    (s : System) (n : ℕ)
    → s.starters ≡ n + 1
    → Inv s
    → Inv (record s { starters = n; enders = s.enders + 1 })
starter_ends s n one h =
    let (e, q) = someone s h (ground arith) in
    let r = running s e q h in
    let at = at_phase s e starting r (starting_of e.phase s r.owned (ground arith)) in ground arith

pub preparer_ends :
    (s : System) (n : ℕ)
    → s.preparers ≡ n + 1
    → Inv s
    → Inv (record s { preparers = n; enders = s.enders + 1 })
preparer_ends s n one h =
    let (e, q) = someone s h (ground arith) in
    let r = running s e q h in
    let at = at_phase s e preparing r (preparing_of e.phase s r.owned (ground arith)) in
    ground arith

pub driver_ends :
    (s : System) (n : ℕ)
    → s.drivers ≡ n + 1
    → Inv s
    → Inv (record s { drivers = n; enders = s.enders + 1 })
driver_ends s n one h =
    let (e, q) = someone s h (ground arith) in
    let r = running s e q h in
    let at = at_phase s e executing r (executing_of e.phase s r.owned (ground arith)) in
    ground arith

pub aborter_ends :
    (s : System) (n : ℕ)
    → s.aborters ≡ n + 1
    → Inv s
    → Inv (record s { aborters = n; enders = s.enders + 1 })
aborter_ends s n one h =
    let (e, q) = someone s h (ground arith) in
    let r = running s e q h in
    let at = at_phase s e aborting r (aborting_of e.phase s r.owned (ground arith)) in ground arith

pub closer_ends :
    (s : System) (n : ℕ)
    → s.closers ≡ n + 1
    → Inv s
    → Inv (record s { closers = n; enders = s.enders + 1 })
closer_ends s n one h =
    let (e, q) = someone s h (ground arith) in
    let r = running s e q h in
    let at = at_phase s e control r (control_of e.phase s r.owned (ground arith)) in ground arith

pub went-Inv :
    (s : System) (n : ℕ) (r : Option Error × Bool × Execution)
    → s.starters ≡ n + 1
    → Inv s
    → RunsIf
        (went (record s { starters = n }) (λ t. record t { preparers = t.preparers + 1 }) r)
        (some r.2)
    → Inv (went (record s { starters = n }) (λ t. record t { preparers = t.preparers + 1 }) r)
went-Inv s n (none, true, e) one h r = ground arith
went-Inv s n (none, false, e) one h r = ground arith
went-Inv s n (some err, true, e) one h r = ground arith
went-Inv s n (some err, false, e) one h r = ground arith

pub sent-Inv :
    (s : System) (n : ℕ) (r : Option Error × Bool × Execution)
    → s.preparers ≡ n + 1
    → Inv s
    → RunsIf
        (went (record s { preparers = n }) (λ t. record t { drivers = t.drivers + 1 }) r)
        (some r.2)
    → Inv (went (record s { preparers = n }) (λ t. record t { drivers = t.drivers + 1 }) r)
sent-Inv s n (none, true, e) one h r = ground arith
sent-Inv s n (none, false, e) one h r = ground arith
sent-Inv s n (some err, true, e) one h r = ground arith
sent-Inv s n (some err, false, e) one h r = ground arith

pub driver_aborting-Inv :
    (s : System) (n : ℕ) (r : Option Error × Execution)
    → Inv s
    → Runs (aborting_by (record s { drivers = n }) r) r.1
    → Inv (aborting_by (record s { drivers = n }) r)
driver_aborting-Inv s n (none, e) h r = ground arith
driver_aborting-Inv s n (some err, e) h r = ground arith

pub aborting-Inv :
    (s : System) (n : ℕ) (r : Option Error × Execution)
    → Inv s
    → Runs (aborting_by (record s { aborters = n }) r) r.1
    → Inv (aborting_by (record s { aborters = n }) r)
aborting-Inv s n (none, e) h r = ground arith
aborting-Inv s n (some err, e) h r = ground arith

pub forcing-Inv :
    (s : System) (now : ℕ) (req : StopRequest) (e : Execution)
    → s.exec ≡ some e
    → e.stop ≡ some req
    → is_paused e.phase ≡ false
    → Inv s
    → Inv (forcing s (force_execution now req s.life e))
unfolding force_execution close_done
forcing-Inv s now req e q stopped awake h =
    let r = running s e q h in
    let f = force_execution-Runs s now req e stopped awake r h in
    let up =
      AllEnded-mono s.life (close_done (session_killed req.policy.reason) s.life) s.past (λ _. refl)
        h.ends in
    ground arith

pub finish-Inv :
    (s : System) (n : ℕ) (value : Option ℕ) (err : Option Error) (e : Execution)
    → s.exec ≡ some e
    → s.enders ≡ n + 1
    → Inv s
    → (let r = finish_execution value err s.life e in
        Inv (record s { life = r.0; exec = none; past = r.1 ∷ s.past; enders = n }))
unfolding finish_execution
finish-Inv s n value err e q one h =
    let r = running s e q h in
    let over = finish_execution-Ended s value err e r in
    let up =
      AllEnded-mono s.life (finish_execution value err s.life e).0 s.past (ground arith) h.ends in
    ground arith

pub reserve-Inv :
    (s : System) (e : Execution) (life : Life)
    → reserve_execution s.life ≡ (admitted e, life)
    → Inv s
    → Inv (record s { life = life; exec = some e; starters = s.starters + 1 })
unfolding reserve_execution admission_error install_step
reserve-Inv s e life q h =
    let none_runs = nobody s (ground arith) h in
    let up = AllEnded-mono s.life life s.past (ground arith) h.ends in ground arith

pub terminate-Inv :
    (s : System) (cause : Error) (e : Execution)
    → s.exec ≡ some e
    → Inv s
    → (let life = terminate_session cause s.life in
        let r = terminate_execution life.terminal e in
        Inv (record s { life = life; exec = some r.1; enders = s.enders + count r.0 }))
unfolding terminate_session close_done
terminate-Inv s cause e q h =
    let r = terminate_execution-Runs s cause e (running s e q h) h in
    let up = AllEnded-mono s.life (terminate_session cause s.life) s.past (ground arith) h.ends in
    ground arith

pub unheld : (s : System) → 0 < s.holders → Inv s → s.exec ≡ none
unheld s n h = test s.exec h.runs
  where
    test : (o : Option Execution) → RunsIf s o → o ≡ none
    test none r = refl
    test (some e) r = absurd (ground arith)

pub settle_close-Inv :
    (s : System) (id : ℕ) (err : Option Error) (front back : List ℕ)
    → s.attempters ≡ front ++ id ∷ back
    → Inv s
    → (let r = settle_close id err s.attempts_made s.life in
        Inv (record s { life = r.1; attempts_made = r.0; attempters = front ++ back }))
unfolding settle_close
settle_close-Inv s id err front back q h =
    let more =
      settle_close-Attempting err id front back s.life.close_attempt s.attempters s.attempts_made q
        h.attempting in
    let life = (settle_close id err s.attempts_made s.life).1 in
    let r =
      attempting-RunsIf s life (settle_at id err s.attempts_made) (front ++ back) s.exec
        (ground arith) (ground arith) h.runs in
    let up = AllEnded-mono s.life life s.past (ground arith) h.ends in ground arith
