-- ===== src/Pool.antt =====
-- internal/pool/pool.go, reservation.go: an elastic set of workers behind one mutex. Each function
-- is one critical section of the source, with the metrics that it reports; what a caller does
-- between two sections is the step relation of Pool/System. Worker processes are numbers, and
-- whether one is alive is the argument `alive`. The end of the idle slice is the head of the list.
-- The counters of a gauge are the sums of the increments and of the decrements reported. All are
-- reported inside the sections but for WorkersLive(1) of a worker that acquire or Bind has spawned,
-- which is a step of its own, and those of New, which returns the pool behind them. The reasons and
-- durations that the metrics record besides, and the observers of a slot, are not modelled.
pub mod System
pub mod Counting
pub mod Steps
pub mod Reachable
pub mod Capacity
pub mod Wakeups
pub mod Overcommit
pub mod Deadline
pub mod Lease
mod Lifetimes
pub mod Observer
pub mod Budget
pub mod Protocol
pub mod Checkout
mod Examples
use montygo.Prelude.{
  Bool, List, Option, [], false, if◌then◌else◌, leb, length, ltb, none, not, some, true, ℕ, ◌&&◌,
  ◌++◌, ◌+◌, ◌-◌, ◌==◌, ◌||◌, ◌∷◌,
}

pub record Config : Type 0 where
  pub max_processes : ℕ
  pub max_checkouts_per_worker : ℕ
  pub single_use : Bool
  pub remote : Bool

pub record Slot : Type 0 where
  pub worker : ℕ
  pub served : ℕ

pub record RetiredWorker : Type 0 where
  pub worker : ℕ
  pub killed : Bool

pub record Gauge : Type 0 where
  pub up : ℕ
  pub down : ℕ

pub record Pool : Type 0 where
  pub cfg : Config
  pub idle : List Slot
  pub starting : ℕ
  pub active : ℕ
  pub retiring : ℕ
  pub closed : Bool
  pub reaped : Bool
  -- The reaper channel, oldest job first, and the number of closed `notify` channels.
  pub reaper : List RetiredWorker
  pub wakes : ℕ
  pub workers_live : Gauge
  pub workers_idle : Gauge
  pub workers_retiring : Gauge

-- `min(cfg.MaxProcesses, maxReapers)` goroutines reap.
abbrev pub max_reapers : ℕ
max_reapers = 8

abbrev pub raise : Gauge → Gauge
raise g = record g { up = g.up + 1 }

abbrev pub lower : Gauge → Gauge
lower g = record g { down = g.down + 1 }

-- Pool.live.
abbrev pub live : Pool → ℕ
live p = p.starting + p.active + length p.idle + p.retiring

-- Pool.wakeLocked.
abbrev pub wake_locked : Pool → Pool
wake_locked p = record p { wakes = p.wakes + 1 }

-- Pool.retireLocked.
abbrev pub retire_locked : RetiredWorker → Pool → Pool
retire_locked s p = record p {
  retiring = p.retiring + 1;
  workers_retiring = raise p.workers_retiring;
  reaper = p.reaper ++ s ∷ [];
}

-- What `acquire` finds under the lock: an error, an idle worker, a place to spawn, or a wait.
pub data Acquired : Type 0 where
  pool_closed spawns waits : Acquired
  took : Slot → Acquired

-- The loop over the idle workers; the dead ones on the way are killed and retired.
pub take_idle : (ℕ → Bool) → List Slot → Pool → Option Slot × Pool
take_idle alive [] p = (none, record p { idle = [] })
take_idle alive (s ∷ rest) p =
    let q = record p { idle = rest; workers_idle = lower p.workers_idle } in
    if alive s.worker
    then (some s, record q { active = q.active + 1 })
    else take_idle alive rest (retire_locked (record { worker = s.worker; killed = true }) q)

pub spawn_or_wait : Pool → Acquired × Pool
spawn_or_wait p =
    if ltb (live p) p.cfg.max_processes
    then (spawns, record p { starting = p.starting + 1 })
    else (waits, p)

abbrev pub took_or : Option Slot × Pool → Acquired × Pool
took_or (some s, p) = (took s, p)
took_or (none, p) = spawn_or_wait p

-- The first section of Pool.acquire.
pub acquire_locked : (ℕ → Bool) → Pool → Acquired × Pool
unfolding take_idle spawn_or_wait
acquire_locked alive p =
    if p.closed
    then (pool_closed, p)
    else if p.cfg.single_use
    then spawn_or_wait p
    else took_or (take_idle alive p.idle p)

-- The second section of Pool.acquire: the spawn failed, or gave the worker `w`. A pool that was
-- closed meanwhile retires it.
pub spawn_failed : Pool → Pool
spawn_failed p = wake_locked (record p { starting = p.starting - 1 })

pub spawn_done : ℕ → Pool → Option Slot × Pool
spawn_done w p =
    let q = record p { starting = p.starting - 1 } in
    if p.closed
    then (
      none,
      wake_locked (
          retire_locked (record { worker = w; killed = false })
            (record q { workers_live = raise q.workers_live })),
    )
    else (some (record { worker = w; served = 0 }), record q { active = q.active + 1 })

-- The test of Pool.release, and its section.
recycles : (ℕ → Bool) → Slot → Pool → Bool
recycles alive s p =
    p.cfg.single_use
    || p.closed
    || not (alive s.worker)
    || (ltb 0 p.cfg.max_checkouts_per_worker && leb p.cfg.max_checkouts_per_worker s.served)

pub release : (ℕ → Bool) → Slot → Pool → Pool
unfolding recycles
release alive s p =
    let q = record p { active = p.active - 1 } in
    wake_locked (
      if recycles alive s p
      then retire_locked (record { worker = s.worker; killed = false }) q
      else record q { idle = s ∷ q.idle; workers_idle = raise q.workers_idle })

-- Pool.retireLease.
pub retire_lease : ℕ → Bool → Pool → Pool
retire_lease w killed p =
    wake_locked
      (retire_locked (record { worker = w; killed = killed }) (record p { active = p.active - 1 }))

-- The section at the end of a reaper's job, once the worker has exited.
pub reap_exited : Pool → Pool
reap_exited p = wake_locked (record p {
  retiring = p.retiring - 1;
  workers_retiring = lower p.workers_retiring;
  workers_live = lower p.workers_live;
})

-- Pool.Close: the idle workers are retired in the order of the slice.
pub close_idle : List Slot → Pool → Pool
close_idle [] p = p
close_idle (s ∷ rest) p =
    let q = close_idle rest p in
    retire_locked (record { worker = s.worker; killed = false })
      (record q { workers_idle = lower q.workers_idle })

pub close : Pool → Pool
unfolding close_idle
close p =
    if p.closed then p else wake_locked (close_idle p.idle (record p { closed = true; idle = [] }))

-- Pool.waitDrained's test, and Pool.stopReapers.
pub drained : Pool → Bool
drained p = live p == 0

pub stop_reapers : Pool → Pool
stop_reapers p = if not p.reaped then record p { reaped = true } else p

-- Pool.Reserve under the lock.
pub data Reserved : Type 0 where
  not_single_use closed_pool held must_wait : Reserved

pub reserve_locked : Pool → Reserved × Pool
reserve_locked p =
    if not p.cfg.single_use
    then (not_single_use, p)
    else if p.closed
    then (closed_pool, p)
    else if ltb (live p) p.cfg.max_processes
    then (held, record p { starting = p.starting + 1 })
    else (must_wait, p)

-- Reservation.releaseLocked of a held reservation, and reReserveLocked.
pub release_reservation : Pool → Pool
release_reservation p = wake_locked (record p { starting = p.starting - 1 })

pub re_reserve : Pool → Pool
re_reserve p = record p { starting = p.starting + 1 }

-- WorkersLive(1), which acquire and Bind report behind their sections, when they hold no lock.
pub report_live : Pool → Pool
report_live p = record p { workers_live = raise p.workers_live }

-- Pool.Bind behind its spawn. In a closed pool it leaves the lock before it takes it again to
-- retire the worker, so these are two sections.
pub bind_spawned : Pool → Bool × Pool
bind_spawned p =
    let q = record p { starting = p.starting - 1 } in
    if p.closed then (false, q) else (true, record q { active = q.active + 1 })

pub bind_closed : ℕ → Pool → Pool
bind_closed w p = wake_locked (retire_locked (record { worker = w; killed = false }) p)

-- Checkout.Handoff under the pool's lock.
pub handoff : ℕ → Pool → Pool
handoff w p = wake_locked (
    retire_locked (record { worker = w; killed = false })
      (record p { active = p.active - 1; starting = p.starting + 1 }))
