-- ===== src/Pool/Examples.antt =====
-- Runs of a pool of one reused worker and of a single-use pool, and the theorems at these pools.
use montygo.Prelude.{Bool, [], arith, false, length, none, refl, some, true, ℕ, ◌∷◌, ◌≡◌, ◌≤◌}
use montygo.Pool.{
  Config, Pool, Slot, acquire_locked, live, recycles, release, spawn_or_wait, take_idle, took,
  waits,
}
use montygo.Pool.System.{Reach, System, acquire_takes, acquire_waits, fresh, here, next}
use montygo.Pool.Capacity.{capacity_bounds}
use montygo.Pool.Wakeups.{wait-until_woken}
use montygo.Pool.Counting.{Inv}
use montygo.Pool.Overcommit.{overcommit}
use montygo.Pool.Reachable.{Reach-Inv}
use montygo.Pool.Budget.{EventUsage, SessionBudget, default_max_suspensions}

abbrev one : Config
one = record { max_processes = 1; max_checkouts_per_worker = 5; single_use = false; remote = false }

abbrev dialed : Config
dialed = record {
  max_processes = 2;
  max_checkouts_per_worker = 0;
  single_use = true;
  remote = true;
}

abbrev warm : Slot
warm = record { worker = 7; served = 0 }

abbrev all_alive : ℕ → Bool
all_alive w = true

abbrev busy_pool : Pool
busy_pool = record (fresh one (warm ∷ [])).pool {
  idle = [];
  active = 1;
  workers_idle = record { up = 1; down = 1 };
}

abbrev busy : System
busy = record (fresh one (warm ∷ [])) { pool = busy_pool; leases = warm ∷ [] }

takes_warm : acquire_locked all_alive (fresh one (warm ∷ [])).pool ≡ (took warm, busy_pool)
unfolding acquire_locked take_idle
takes_warm = refl

waits_busy : acquire_locked all_alive busy_pool ≡ (waits, busy_pool)
unfolding acquire_locked take_idle spawn_or_wait
waits_busy = refl

reach_busy : Reach (fresh one (warm ∷ [])) busy
reach_busy = next here (acquire_takes all_alive warm busy_pool takes_warm)

after_release : (release all_alive warm busy_pool).idle ≡ warm ∷ []
unfolding release recycles
after_release = refl

Reach-Inv_example : Inv busy
Reach-Inv_example = Reach-Inv (omega arith) (ground arith) reach_busy

capacity_bounds_example :
    (live busy_pool ≤ 1)
    × (length busy_pool.reaper ≤ 1)
    × (busy_pool.reaped ≡ true
        → (busy.spawning ≡ 0)
          × (length busy.leases ≡ 0)
          × (length busy_pool.idle ≡ 0)
          × (length busy_pool.reaper ≡ 0))
capacity_bounds_example = capacity_bounds refl refl (omega arith) reach_busy

wait-until_woken_example : (acquire_locked all_alive busy_pool).0 ≡ waits
wait-until_woken_example =
    wait-until_woken {s = busy} {t = busy} all_alive all_alive busy_pool (omega arith)
      (ground arith) reach_busy waits_busy
      (next here (acquire_waits all_alive busy_pool waits_busy)) refl

overcommit_example :
    (s : System) × Reach (fresh dialed []) s
    × (live s.pool ≡ 4)
    × (length s.pool.reaper ≡ 2)
    × (s.pool.closed ≡ false)
overcommit_example = overcommit dialed 2 refl (omega arith) (omega arith)

abbrev called : EventUsage
called = record {
  total_execution_micros = 20;
  max_duration_micros = some 100;
  max_suspensions = some 5;
  is_suspension = true;
}

abbrev no_use : SessionBudget
no_use = record {
  duration_budget = none;
  reported_exec = 0;
  suspension_limit = default_max_suspensions;
  suspensions_seen = 0;
}
