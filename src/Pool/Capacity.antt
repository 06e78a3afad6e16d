-- ===== src/Pool/Capacity.antt =====
-- Pools that reuse their workers (neither single-use nor remote): MaxProcesses bounds the workers
-- and the jobs in the reaper channel, and Shutdown closes that channel when nothing can send to it.
use montygo.Prelude.{
  Bool, List, Option, [], ap, arith, false, if-either, length, length-remove, none, some, subst,
  true, ℕ, ◌≡◌, ◌≤◌,
}
use montygo.Pool.{
  Config, Pool, Slot, acquire_locked, bind_closed, bind_spawned, close, drained, handoff, live,
  re_reserve, reap_exited, recycles, release, release_reservation, report_live, reserve_locked,
  retire_lease, spawn_done, spawn_failed, spawn_or_wait, stop_reapers, took_or,
}
use montygo.Pool.System.{
  Reach, Step, System, acquire_spawns, acquire_takes, acquire_waits, bind_fails, binds,
  binds_closed, buries, closes, fresh, hands_off, here, loses, next, observes, re_reserves,
  reaper_exits, reaper_takes, releases, reports, reserves, spawn_fails, spawn_leases, spawn_retires,
  stops, unreserves,
}
use montygo.Pool.Counting.{Drained, Inv, take_idle-Drained}
use montygo.Pool.Steps.{admit, close_idle-Emptied}
use montygo.Pool.Reachable.{Step-Inv, fresh-Inv}

record Plain (s : System) : Type 0 where
  reused : s.pool.cfg.single_use ≡ false
  local : s.pool.cfg.remote ≡ false
  no_reserved : s.reserved ≡ 0
  no_failed : s.failed ≡ 0
  no_orphan : length s.orphans ≡ 0
  no_extra : s.extra ≡ 0
  seen_closed : s.observed ≡ true → s.pool.closed ≡ true
  seen_empty : s.observed ≡ true → live s.pool ≡ 0
  reaped_seen : s.pool.reaped ≡ true → s.observed ≡ true

took_or-Plain :
    (s : System) (o : Option Slot) (q : Pool)
    → s.pool.closed ≡ false
    → Drained s.pool.idle s.pool o q
    → Plain s
    → Plain (admit s (took_or (o, q)))
unfolding spawn_or_wait
took_or-Plain s none q running d g = ground arith
took_or-Plain s (some l) q running d g = ground arith

Acquired-Plain :
    (s : System) (alive : ℕ → Bool) → Plain s → Plain (admit s (acquire_locked alive s.pool))
unfolding acquire_locked
Acquired-Plain s alive g =
    if-either (λ r. Plain (admit s r)) s.pool.closed (λ e. g)
      (λ e.
        if-either (λ r. Plain (admit s r)) s.pool.cfg.single_use (λ f. ground arith)
          (λ f. took_or-Plain s _ _ e (take_idle-Drained alive s.pool.idle s.pool) g))

Step-Plain : {s t : System} → Inv s → Plain s → Step s t → Plain t
unfolding spawn_failed spawn_done release recycles retire_lease reserve_locked release_reservation
    bind_spawned bind_closed re_reserve handoff reap_exited stop_reapers report_live close drained
Step-Plain {s = s} h g (acquire_takes alive l p e) =
    subst (λ r. Plain (admit s r)) e (Acquired-Plain s alive g)
Step-Plain {s = s} h g (acquire_spawns alive p e) =
    subst (λ r. Plain (admit s r)) e (Acquired-Plain s alive g)
Step-Plain {s = s} h g (acquire_waits alive p e) =
    subst (λ r. Plain (admit s r)) e (Acquired-Plain s alive g)
Step-Plain h g (spawn_fails n e) = ground (arith, h)
Step-Plain h g (spawn_leases n w l p e f) = ground (arith, h)
Step-Plain h g (spawn_retires n w p e f) = ground (arith, h)
Step-Plain h g (releases alive front back l served e) =
    ground (arith, length-remove front l back, ap length e)
Step-Plain h g (loses front back l killed e) =
    ground (arith, length-remove front l back, ap length e)
Step-Plain h g (reserves p e) = ground arith
Step-Plain h g (unreserves n e) = ground arith
Step-Plain h g (binds n w p e f) = ground arith
Step-Plain h g (binds_closed n w p e f) = ground arith
Step-Plain h g (reports n e) = ground arith
Step-Plain h g (buries front back w e) = ground (arith, length-remove front w back, ap length e)
Step-Plain h g (bind_fails front back l killed single e) = ground arith
Step-Plain h g (re_reserves n e) = ground arith
Step-Plain h g (hands_off front back l remote e) = ground arith
Step-Plain h g (reaper_takes job rest e room) = ground arith
Step-Plain h g (reaper_exits front back job e) =
    ground (arith, length-remove front job back, ap length e)
Step-Plain {s = s} h g closes =
    ground (arith, close_idle-Emptied s.pool.idle (record s.pool { closed = true; idle = [] }))
Step-Plain h g (observes closed e) = ground arith
Step-Plain h g (stops e) = ground arith

Reach-Plain :
    {cfg : Config} {idle : List Slot} {s : System}
    → cfg.single_use ≡ false
    → cfg.remote ≡ false
    → length idle ≤ cfg.max_processes
    → Reach (fresh cfg idle) s
    → Inv s × Plain s
Reach-Plain reused local small here = (fresh-Inv _ _ small (ground arith), ground arith)
Reach-Plain reused local small (next r step) =
    let (inv, plain) = Reach-Plain reused local small r in
    (Step-Inv step inv, Step-Plain inv plain step)

-- In every state that a pool of reused local workers reaches from a new pool with at most
-- MaxProcesses prewarmed workers: starting, active, idle and retiring workers are together at most
-- MaxProcesses; so are the jobs in the reaper channel, so that a send to it never blocks; and once
-- the reaper channel is closed no worker is being spawned, leased, idle or in the channel.
pub capacity_bounds :
    {cfg : Config} {idle : List Slot} {s : System}
    → cfg.single_use ≡ false
    → cfg.remote ≡ false
    → length idle ≤ cfg.max_processes
    → Reach (fresh cfg idle) s
    → (live s.pool ≤ s.pool.cfg.max_processes)
      × (length s.pool.reaper ≤ s.pool.cfg.max_processes)
      × (s.pool.reaped ≡ true
          → (s.spawning ≡ 0)
            × (length s.leases ≡ 0)
            × (length s.pool.idle ≡ 0)
            × (length s.pool.reaper ≡ 0))
capacity_bounds reused local small r =
    let (inv, plain) = Reach-Plain reused local small r in ground (arith, inv, plain)
