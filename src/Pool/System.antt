-- ===== src/Pool/System.antt =====
-- The pool and everything that holds a claim on it, with the steps by which they interleave. Each
-- step is one critical section; between two sections of one call any other step may come. The
-- reaper channel is taken without its capacity, which Pool/Capacity compares with its length.
use montygo.Prelude.{
  Bool, List, [], false, length, min, none, some, true, ℕ, ◌++◌, ◌+◌, ◌<◌, ◌∷◌, ◌≡◌,
}
use montygo.Pool.{
  Config, Gauge, Pool, RetiredWorker, Slot, acquire_locked, bind_closed, bind_spawned, close,
  drained, handoff, held, max_reapers, re_reserve, reap_exited, release, release_reservation,
  report_live, reserve_locked, retire_lease, spawn_done, spawn_failed, spawns, stop_reapers, took,
  waits,
}

pub record System : Type 0 where
  pub pool : Pool
  -- Calls of acquire between their sections, held reservations, outstanding leases.
  pub spawning : ℕ
  pub reserved : ℕ
  pub leases : List Slot
  -- Binds between the retirement of a failed worker and reReserveLocked, and workers that Bind
  -- spawned in a closed pool and has yet to retire.
  pub failed : ℕ
  pub orphans : List ℕ
  -- Spawned workers whose WorkersLive(1) is still to be reported.
  pub unreported : ℕ
  -- Jobs that a reaper has received, and whether waitDrained has seen an empty pool.
  pub in_hand : List RetiredWorker
  pub observed : Bool
  -- How often a claim was taken without a test of the capacity: by reReserveLocked and by Handoff.
  pub extra : ℕ

pub data Step (s : System) : System → Type 0 where
  acquire_takes :
      (alive : ℕ → Bool) (l : Slot) (p : Pool)
      → acquire_locked alive s.pool ≡ (took l, p)
      → Step s (record s { pool = p; leases = l ∷ s.leases })
  acquire_spawns :
      (alive : ℕ → Bool) (p : Pool)
      → acquire_locked alive s.pool ≡ (spawns, p)
      → Step s (record s { pool = p; spawning = s.spawning + 1 })
  acquire_waits :
      (alive : ℕ → Bool) (p : Pool)
      → acquire_locked alive s.pool ≡ (waits, p)
      → Step s (record s { pool = p })
  spawn_fails :
      (n : ℕ) → s.spawning ≡ n + 1 → Step s (record s { pool = spawn_failed s.pool; spawning = n })
  spawn_leases :
      (n w : ℕ) (l : Slot) (p : Pool)
      → s.spawning ≡ n + 1
      → spawn_done w s.pool ≡ (some l, p)
      → Step s (record s {
        pool = p;
        spawning = n;
        leases = l ∷ s.leases;
        unreported = s.unreported + 1;
      })
  spawn_retires :
      (n w : ℕ) (p : Pool)
      → s.spawning ≡ n + 1
      → spawn_done w s.pool ≡ (none, p)
      → Step s (record s { pool = p; spawning = n })
  releases :
      (alive : ℕ → Bool) (before after : List Slot) (l : Slot) (served : ℕ)
      → s.leases ≡ before ++ l ∷ after
      → Step s (record s {
        pool = release alive (record l { served = served }) s.pool;
        leases = before ++ after;
      })
  loses :
      (before after : List Slot) (l : Slot) (killed : Bool)
      → s.leases ≡ before ++ l ∷ after
      → Step s (record s { pool = retire_lease l.worker killed s.pool; leases = before ++ after })
  reserves :
      (p : Pool)
      → reserve_locked s.pool ≡ (held, p)
      → Step s (record s { pool = p; reserved = s.reserved + 1 })
  unreserves :
      (n : ℕ)
      → s.reserved ≡ n + 1
      → Step s (record s { pool = release_reservation s.pool; reserved = n })
  binds :
      (n w : ℕ) (p : Pool)
      → s.reserved ≡ n + 1
      → bind_spawned s.pool ≡ (true, p)
      → Step s (record s {
        pool = p;
        reserved = n;
        leases = record { worker = w; served = 0 } ∷ s.leases;
        unreported = s.unreported + 1;
      })
  binds_closed :
      (n w : ℕ) (p : Pool)
      → s.reserved ≡ n + 1
      → bind_spawned s.pool ≡ (false, p)
      → Step s (record s {
        pool = p;
        reserved = n;
        orphans = w ∷ s.orphans;
        unreported = s.unreported + 1;
      })
  -- The source uses the worker only behind its report; here the report may also come later.
  reports :
      (n : ℕ)
      → s.unreported ≡ n + 1
      → Step s (record s { pool = report_live s.pool; unreported = n })
  buries :
      (before after : List ℕ) (w : ℕ)
      → s.orphans ≡ before ++ w ∷ after
      → Step s (record s { pool = bind_closed w s.pool; orphans = before ++ after })
  bind_fails :
      (before after : List Slot) (l : Slot) (killed : Bool)
      → s.pool.cfg.single_use ≡ true
      → s.leases ≡ before ++ l ∷ after
      → Step s (record s {
        pool = retire_lease l.worker killed s.pool;
        leases = before ++ after;
        failed = s.failed + 1;
      })
  re_reserves :
      (n : ℕ)
      → s.failed ≡ n + 1
      → Step s (record s {
        pool = re_reserve s.pool;
        failed = n;
        reserved = s.reserved + 1;
        extra = s.extra + 1;
      })
  hands_off :
      (before after : List Slot) (l : Slot)
      → s.pool.cfg.remote ≡ true
      → s.leases ≡ before ++ l ∷ after
      → Step s (record s {
        pool = handoff l.worker s.pool;
        leases = before ++ after;
        reserved = s.reserved + 1;
        extra = s.extra + 1;
      })
  reaper_takes :
      (job : RetiredWorker) (rest : List RetiredWorker)
      → s.pool.reaper ≡ job ∷ rest
      → length s.in_hand < min s.pool.cfg.max_processes max_reapers
      → Step s (record s { pool = record s.pool { reaper = rest }; in_hand = job ∷ s.in_hand })
  reaper_exits :
      (before after : List RetiredWorker) (job : RetiredWorker)
      → s.in_hand ≡ before ++ job ∷ after
      → Step s (record s { pool = reap_exited s.pool; in_hand = before ++ after })
  closes : Step s (record s { pool = close s.pool })
  observes : s.pool.closed ≡ true → drained s.pool ≡ true → Step s (record s { observed = true })
  stops : s.observed ≡ true → Step s (record s { pool = stop_reapers s.pool })

pub data Reach (s : System) : System → Type 0 where
  here : Reach s s
  next : {t u : System} → Reach s t → Step t u → Reach s u

-- A new pool with its prewarmed workers idle.
abbrev pub no_gauge : Gauge
no_gauge = record { up = 0; down = 0 }

abbrev pub fresh : Config → List Slot → System
fresh cfg idle = record {
  pool = record {
    cfg = cfg;
    idle = idle;
    starting = 0;
    active = 0;
    retiring = 0;
    closed = false;
    reaped = false;
    reaper = [];
    wakes = 0;
    workers_live = record { up = length idle; down = 0 };
    workers_idle = record { up = length idle; down = 0 };
    workers_retiring = no_gauge;
  };
  spawning = 0;
  reserved = 0;
  leases = [];
  failed = 0;
  orphans = [];
  unreported = 0;
  in_hand = [];
  observed = false;
  extra = 0;
}
