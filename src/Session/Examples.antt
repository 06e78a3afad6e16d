-- ===== src/Session/Examples.antt =====
-- A run that is stopped and killed: an execution starts and sends its feed, a stop with a timeout of
-- five is asked for at time ten, and at time twenty the worker is killed.
use montygo.Session.Rotation.{
  RotationPolicy, ServerLimits, default_rotation_margin, due, new_rotation_policy, young_connection,
}
use montygo.Pool.Deadline.{subtract}
use montygo.Prelude.{
  [], arith, false, if◌then◌else◌, leb, length, none, not, refl, some, true, ℕ, ◌&&◌, ◌+◌, ◌-◌, ◌<◌,
  ◌||◌, ◌∷◌, ◌≡◌, ◌≤◌,
}
use montygo.Session.{
  Execution, StopRequest, closed, is_some, preparing, session_killed, stop_killed,
}
use montygo.Session.Goroutines.{
  Reach, asks_to_stop, begins, driving_ends, finishes, forces, has_killed, here, next, reserves,
  sends,
}
use montygo.Session.System.{System, count, forcing, leaves, new_session, went}
use montygo.Session.Lifecycle.{
  Limits, begin_execution, begin_send, install_step, new_execution, reserve_execution, to_wire,
}
use montygo.Session.Stop.{force_execution, new_stop_request, request_stop, resolve_stop, shorten}
use montygo.Session.Policy.{
  StopPolicy, effective_policy, effective_policy_settles, over, pos, validate,
}
use montygo.Session.Automaton.{Reach-allowed, allowed, shown}
use montygo.Session.Ledger.{all_reported, known, terminal_stays}
use montygo.Session.Control.{is_running, reserve_control_idle, state}
use montygo.Session.Ownership.{AllEnded, announced, is_killed, owners}
use montygo.Session.Answers.{idle_iff_admitted, is_admitted, is_held, is_idle, shorten_deadlines}
use montygo.Session.Safety.{
  cause_of, faults, kills_are_terminal, never_stranded, no_faults, one_owner, phase_of, stranded_by,
}
use montygo.Session.Finish.{finish_execution}

abbrev policy : StopPolicy
policy = record { drain = pos 0; timeout = pos 5; join = pos 3; reason = none; catchable = false }

abbrev limits : Limits
limits = record { stop_policy = policy; pending_futures = some 2 }

abbrev e1 : Execution
e1 = install_step (new_execution 1)

abbrev s1 : System
s1 = record new_session {
  life = record new_session.life { next_id = 1; current = some 1 };
  exec = some e1;
  starters = 1;
}

abbrev s2 : System
s2 =
    went (record s1 { starters = 0 }) (λ t. record t { preparers = t.preparers + 1 })
      (begin_execution false 0 limits s1.life e1)

abbrev e2 : Execution
e2 = record e1 { phase = preparing }

abbrev s3 : System
s3 =
    went (record s2 { preparers = 0 }) (λ t. record t { drivers = t.drivers + 1 })
      (begin_send false 0 limits s2.life e2)

abbrev e3 : Execution
e3 = to_wire e2

abbrev s4 : System
s4 = let r = request_stop policy 10 policy s3.life e3 in leaves s3 r.1 r.2

abbrev req : StopRequest
req = record (new_stop_request policy 10) { requested = true }

abbrev e4 : Execution
e4 = record e3 { stop = some req }

abbrev s5 : System
s5 = forcing s4 (force_execution 20 req s4.life e4)

abbrev e5 : Execution
e5 = record e4 {
  stop = some (record req { force_claimed = true; kind = stop_killed });
  terminal_cause = some (session_killed none);
  pending = [];
}

abbrev s6 : System
s6 = record (leaves s5 false (resolve_stop stop_killed e5)) { forcers = 0 }

start-Reach : Reach new_session s1
unfolding reserve_execution
start-Reach = next here (reserves e1 _ refl)

run-Reach : Reach new_session s3
unfolding install_step begin_execution
run-Reach =
    next (next start-Reach (begins 0 0 false limits e1 refl refl))
      (sends 0 0 false limits e2 refl refl)

killed-Reach : Reach new_session s6
unfolding install_step begin_execution begin_send request_stop force_execution
killed-Reach =
    next
      (next (next run-Reach (asks_to_stop 10 policy policy e3 refl))
        (forces 20 e4 req refl refl refl))
      (has_killed 0 e5 refl refl)

abbrev e6 : Execution
e6 = record e5 {
  stop = some (record req {
    force_claimed = true;
    kind = stop_killed;
    resolved_once = true;
    resolved = closed;
  });
}

abbrev s7 : System
s7 = record s6 { drivers = 0; enders = 1 }

abbrev s8 : System
s8 =
    let r = finish_execution (some 7) none s7.life e6 in
    record s7 { life = r.0; exec = none; past = r.1 ∷ s7.past; enders = 0 }

ended-Reach : Reach s6 s8
unfolding install_step begin_execution begin_send request_stop force_execution
ended-Reach = next (next here (driving_ends 0 refl)) (finishes 0 (some 7) none e6 refl refl)

all-Reach : Reach new_session s8
unfolding install_step begin_execution begin_send request_stop force_execution
all-Reach = next (next killed-Reach (driving_ends 0 refl)) (finishes 0 (some 7) none e6 refl refl)

no_faults_example : faults s8 ≡ 0
no_faults_example = no_faults all-Reach

one_owner_example :
    (owners s3 ≡ count (is_running (phase_of s3.exec)))
    × (owners s3 + s3.holders ≤ 1)
    × (length s3.attempters ≤ 1)
one_owner_example = one_owner run-Reach

never_stranded_example :
    (s6.life.session_done ≡ announced s6.life.terminal)
    × (cause_of s6.exec s6.life.terminal ≡ s6.life.terminal)
    × (stranded_by s6.life.terminal s6.exec ≡ false)
never_stranded_example = never_stranded killed-Reach

kills_are_terminal_example : is_killed s6.life.terminal ≡ true
unfolding new_stop_request resolve_stop
kills_are_terminal_example = kills_are_terminal killed-Reach refl

idle_iff_admitted_example :
    (is_idle (state (phase_of s3.exec) s3.life) ≡ is_admitted (reserve_execution s3.life).0)
    × (is_idle (state (phase_of s3.exec) s3.life)
        ≡ is_held (reserve_control_idle s3.life).0 && not (is_some s3.exec))
unfolding install_step begin_execution begin_send
idle_iff_admitted_example = idle_iff_admitted run-Reach (omega arith)

all_reported_example : (s8.life.next_id ≡ known s8) × AllEnded s8.life s8.past
all_reported_example = all_reported all-Reach

terminal_stays_example : (s8.life.terminal ≡ s6.life.terminal) × (s8.life.next_id ≡ s6.life.next_id)
unfolding install_step begin_execution begin_send request_stop force_execution
terminal_stays_example = terminal_stays killed-Reach ended-Reach refl

Reach-allowed_example : allowed (shown s3) (shown s4) ≡ true
unfolding install_step begin_execution begin_send
Reach-allowed_example = Reach-allowed run-Reach (asks_to_stop 10 policy policy e3 refl)

abbrev hasty : StopPolicy
hasty = record policy { timeout = pos 1 }

shorten_deadlines_example :
    let new = shorten hasty 12 req in
    (new.request_at ≤ req.request_at)
    × (new.kill_at ≤ req.kill_at)
    × (new.request_at ≤ new.kill_at)
    × (not req.requested || leb req.request_at 12 ≡ true → new.kill_at ≤ 12 + 0 + 1)
    × (if req.requested then new.request_at ≡ req.request_at else new.request_at ≤ 12 + 0)
unfolding new_stop_request
shorten_deadlines_example = shorten_deadlines hasty 12 req (omega arith)

abbrev asked_policy : StopPolicy
asked_policy = record hasty { reason = some 9; catchable = true }

effective_policy_settles_example :
    (over asked_policy policy ≡ asked_policy)
    × (validate asked_policy ≡ true)
    × ((r : ℕ) × (asked_policy.reason ≡ some r))
unfolding effective_policy over
effective_policy_settles_example =
    effective_policy_settles 9 policy asked_policy
      (record { drain = pos 0; timeout = pos 1; join = pos 0; reason = none; catchable = true }
        ∷ [])
      refl

abbrev limits_of_server : ServerLimits
limits_of_server = record { session_timeout = 600000000000; turn_timeout = 60000000000 }

abbrev rotates : RotationPolicy
rotates = record {
  rotates_within = 600000000000;
  one_turn = 60000000000;
  margin = default_rotation_margin;
}

young_connection_example :
    (due rotates (subtract rotates.rotates_within 5) ≡ false)
    × (rotates.one_turn + rotates.margin < rotates.rotates_within - 5)
unfolding new_rotation_policy
young_connection_example =
    young_connection (some limits_of_server) 0 5 rotates refl (omega arith) (omega arith)
      (omega arith)
