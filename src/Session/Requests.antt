-- ===== src/Session/Requests.antt =====
-- What a request to stop does to what Session/Ownership states of it.
use montygo.Prelude.{
  Bool, Bool-cases, Option, arith, false, if-either, if◌then◌else◌, inl, inr, ltb, none, not, refl,
  some, subst, true, ℕ, ◌&&◌, ◌==◌, ◌||◌, ◌≡◌,
}
use montygo.Session.{
  Error, Execution, StopRequest, is_finished, is_paused, is_some, make_operation, paused,
}
use montygo.Session.System.{System, leaves}
use montygo.Session.Ownership.{Runs, Stopping, is_killed, kind_is_killed}
use montygo.Session.Lifecycle.{Limits, execution_error, stop_at_boundary, unless_error}
use montygo.Session.Stop.{
  StopAnswer, enter_request, is_current, is_settled, merged, new_stop_request, request_stop,
  request_stop_for_step, shorten, watch_stop,
}
use montygo.Session.Policy.{StopPolicy, over}
use montygo.Session.Phases.{at_phase, leave-Runs, paused_of}

new_stop_request-Stopping : (p : StopPolicy) (now : ℕ) → Stopping (some (new_stop_request p now))
unfolding new_stop_request
new_stop_request-Stopping p now = ground arith

shorten-Stopping :
    (p : StopPolicy) (now : ℕ) (req : StopRequest)
    → Stopping (some req)
    → Stopping (some (shorten p now req))
unfolding shorten
shorten-Stopping p now req h = ground arith

pub unless_error-either :
    (P : Option Error × Bool × Execution → Type 0) (o : Option Error) (e : Execution)
    {r : Option Error × Bool × Execution}
    → ((err : Error) → P (some err, false, e))
    → P r
    → P (unless_error o e r)
unless_error-either P none e f h = h
unless_error-either P (some err) e f h = f err

-- A section that gives the execution another stop.
put_stop-Runs :
    (s : System) (req : StopRequest) (e : Execution)
    → Runs s e
    → Stopping (some req)
    → (kind_is_killed (some req) ≡ true → is_killed s.life.terminal ≡ true)
    → (is_paused e.phase ≡ true → req.requested ≡ false)
    → Runs s (record e { stop = some req })
put_stop-Runs s req e h stopping killed unrequested = ground arith

enter_request-Runs :
    (s : System) (req : StopRequest) (e : Execution)
    → Runs s e
    → e.stop ≡ some req
    → Runs (leaves s (enter_request req e).0 (enter_request req e).1) (enter_request req e).1
unfolding enter_request make_operation
enter_request-Runs s req e h stopped =
    let stopping = subst Stopping stopped h.stopping in
    let same = leave-Runs s e h in
    elim (Bool-cases (is_paused e.phase)) [
      | inl q ↦ let at = at_phase s e paused h (paused_of e.phase q) in ground arith
      | inr q ↦
          let again = leave-Runs s _ (
            put_stop-Runs s (record req { requested = true }) e h stopping (ground arith)
              (ground arith)) in
          ground arith
    ]

merged-Runs :
    (s : System) (now : ℕ) (p : StopPolicy) (e : Execution)
    → Runs s e
    → Runs s (record e { stop = some (merged p now e.stop) })
unfolding merged shorten new_stop_request
merged-Runs s now p e h = test e.stop refl
  where
    test :
        (o : Option StopRequest) → e.stop ≡ o → Runs s (record e { stop = some (merged p now o) })
    test none q =
        put_stop-Runs s (new_stop_request p now) e h (new_stop_request-Stopping p now)
          (ground arith) (ground arith)
    test (some req) q =
        put_stop-Runs s (shorten p now req) e h
          (shorten-Stopping p now req (subst Stopping q h.stopping)) (ground arith) (ground arith)

pub request_stop-Runs :
    (s : System) (base : StopPolicy) (now : ℕ) (p : StopPolicy) (e : Execution)
    → Runs s e
    → Runs
        (leaves s (request_stop base now p s.life e).1 (request_stop base now p s.life e).2)
        (request_stop base now p s.life e).2
unfolding request_stop
request_stop-Runs s base now p e h =
    let same = leave-Runs s e h in
    let P : StopAnswer × Bool × Execution → Type 0 = λ r. Runs (leaves s r.1 r.2) r.2 in
    let held = merged-Runs s now (over p base) e h in
    let kept = leave-Runs s _ held in
    let entered = enter_request-Runs s (merged (over p base) now e.stop) _ held refl in
    if-either P (is_settled e.stop) (λ _. same)
      (λ _.
        if-either P
          (is_finished e.phase || (not (is_current s.life.current e) && not (is_some e.stop)))
          (λ _. same)
          (λ _.
            if-either P (is_some e.terminal_cause && not (is_some e.stop)) (λ _. same)
              (λ _.
                if-either P (ltb now (merged (over p base) now e.stop).request_at) (λ _. kept)
                  (λ _. entered))))

pub request_stop_for_step-Runs :
    (s : System) (base : StopPolicy) (now step : ℕ) (e : Execution)
    → Runs s e
    → Runs
        (leaves s
          (request_stop_for_step base now step s.life e).0
          (request_stop_for_step base now step s.life e).1)
        (request_stop_for_step base now step s.life e).1
unfolding request_stop_for_step
request_stop_for_step-Runs s base now step e h =
    if-either {A = Bool × Execution} (λ r. Runs (leaves s r.0 r.1) r.1)
      (not (e.step == step) || is_finished e.phase) (λ _. leave-Runs s e h)
      (λ _. request_stop-Runs s base now base e h)

pub watch_stop-Runs :
    (s : System) (req : StopRequest) (e : Execution)
    → Runs s e
    → e.stop ≡ some req
    → Runs (leaves s (watch_stop req e).0 (watch_stop req e).1) (watch_stop req e).1
unfolding watch_stop
watch_stop-Runs s req e h stopped =
    if-either {A = Bool × Execution} (λ r. Runs (leaves s r.0 r.1) r.1)
      (req.requested || is_finished e.phase) (λ _. leave-Runs s e h)
      (λ _. enter_request-Runs s req e h stopped)

pub stop_at_boundary-Runs :
    (s : System) (now : ℕ) (ended : Bool) (limits : Limits) (e : Execution)
    → Runs s e
    → Runs
        (leaves s
          (stop_at_boundary ended now limits s.life e).1
          (stop_at_boundary ended now limits s.life e).2)
        (stop_at_boundary ended now limits s.life e).2
unfolding stop_at_boundary
stop_at_boundary-Runs s now ended limits e h =
    let P : Option Error × Bool × Execution → Type 0 = λ r. Runs (leaves s r.1 r.2) r.2 in
    unless_error-either P (execution_error s.life e) e
      {r = if ended && not (is_some e.stop)
        then (
          none,
          (request_stop limits.stop_policy now limits.stop_policy s.life e).1,
          (request_stop limits.stop_policy now limits.stop_policy s.life e).2,
        )
        else (none, false, e)}
      (λ _. leave-Runs s e h)
      (if-either P (ended && not (is_some e.stop))
        (λ _. request_stop-Runs s limits.stop_policy now limits.stop_policy e h)
        (λ _. leave-Runs s e h))
