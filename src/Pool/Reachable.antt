-- ===== src/Pool/Reachable.antt =====
-- Every state that a pool reaches from a new one, under every interleaving of the sections.
use montygo.Prelude.{
  List, [], ap, arith, false, length, length-append, length-remove, none, some, subst, true, ◌∷◌,
  ◌≡◌, ◌≤◌,
}
use montygo.Pool.{
  Config, Slot, bind_closed, bind_spawned, handoff, re_reserve, reap_exited, release_reservation,
  report_live, reserve_locked, retire_lease, spawn_failed, stop_reapers,
}
use montygo.Pool.System.{
  Reach, Step, System, acquire_spawns, acquire_takes, acquire_waits, bind_fails, binds,
  binds_closed, buries, closes, fresh, hands_off, here, loses, next, observes, re_reserves,
  reaper_exits, reaper_takes, releases, reports, reserves, spawn_fails, spawn_leases, spawn_retires,
  stops, unreserves,
}
use montygo.Pool.Counting.{Inv}
use montygo.Pool.Steps.{acquire_locked-Inv, admit, close-Inv, release-Inv, spawn_done-Inv}

pub Step-Inv : {s t : System} → Step s t → Inv s → Inv t
unfolding spawn_failed retire_lease reserve_locked release_reservation bind_spawned bind_closed
    re_reserve handoff reap_exited stop_reapers report_live
Step-Inv {s = s} (acquire_takes alive l p e) h =
    subst (λ r. Inv (admit s r)) e (acquire_locked-Inv s alive h)
Step-Inv {s = s} (acquire_spawns alive p e) h =
    subst (λ r. Inv (admit s r)) e (acquire_locked-Inv s alive h)
Step-Inv {s = s} (acquire_waits alive p e) h =
    subst (λ r. Inv (admit s r)) e (acquire_locked-Inv s alive h)
Step-Inv (spawn_fails n e) h = ground arith
Step-Inv {s = s} (spawn_leases n w l p e f) h = spawn_done-Inv s n w (some l) p e f h
Step-Inv {s = s} (spawn_retires n w p e f) h = spawn_done-Inv s n w none p e f h
Step-Inv {s = s} (releases alive front back l served e) h =
    release-Inv s alive front back l served e h
Step-Inv {s = s} (loses front back l killed e) h = ground (
  arith,
  length-remove front l back,
  ap length e,
  length-append s.pool.reaper (record { worker = l.worker; killed = killed } ∷ []),
)
Step-Inv (reserves p e) h = ground arith
Step-Inv (unreserves n e) h = ground arith
Step-Inv (binds n w p e f) h = ground arith
Step-Inv (binds_closed n w p e f) h = ground arith
Step-Inv (reports n e) h = ground arith
Step-Inv {s = s} (buries front back w e) h = ground (
  arith,
  length-remove front w back,
  ap length e,
  length-append s.pool.reaper (record { worker = w; killed = false } ∷ []),
)
Step-Inv {s = s} (bind_fails front back l killed single e) h = ground (
  arith,
  length-remove front l back,
  ap length e,
  length-append s.pool.reaper (record { worker = l.worker; killed = killed } ∷ []),
)
Step-Inv (re_reserves n e) h = ground arith
Step-Inv {s = s} (hands_off front back l remote e) h = ground (
  arith,
  length-remove front l back,
  ap length e,
  length-append s.pool.reaper (record { worker = l.worker; killed = false } ∷ []),
)
Step-Inv (reaper_takes job rest e room) h = ground (arith, ap length e)
Step-Inv (reaper_exits front back job e) h =
    ground (arith, length-remove front job back, ap length e)
Step-Inv {s = s} closes h = close-Inv s h
Step-Inv (observes closed e) h = ground arith
Step-Inv (stops e) h = ground arith

pub fresh-Inv :
    (cfg : Config) (idle : List Slot)
    → length idle ≤ cfg.max_processes
    → (cfg.single_use ≡ true → length idle ≡ 0)
    → Inv (fresh cfg idle)
fresh-Inv cfg idle small none_idle = ground arith

-- Whatever the sections of acquire, release, retireLease, Close, Reserve, Release, Bind, Handoff,
-- the reapers and the shutdown do, in whatever order, from a new pool with at most MaxProcesses
-- prewarmed workers (none in a single-use pool): `starting` is the number of spawns under way and
-- of held reservations, `active` the number of leases, and `retiring` the number of jobs queued or
-- in a reaper's hands; a closed pool and a single-use pool have no idle worker; the gauges of idle
-- and retiring workers read the numbers of such workers, and the gauge of live workers reads the
-- active, idle and retiring ones and those that Bind is about to retire, less the spawned workers
-- whose WorkersLive(1) is still to be reported; and the claims on capacity
-- exceed MaxProcesses by at most the number of claims that reReserveLocked and Handoff took.
pub Reach-Inv :
    {cfg : Config} {idle : List Slot} {s : System}
    → length idle ≤ cfg.max_processes
    → (cfg.single_use ≡ true → length idle ≡ 0)
    → Reach (fresh cfg idle) s
    → Inv s
Reach-Inv small plain here = fresh-Inv _ _ small plain
Reach-Inv small plain (next r step) = Step-Inv step (Reach-Inv small plain r)
