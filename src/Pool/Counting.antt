-- ===== src/Pool/Counting.antt =====
-- The pool's counters and gauges count what they are meant to count, in every reachable state.
use montygo.Prelude.{
  Bool, Bool-cases, List, Option, [], arith, false, inl, inr, length, length-append, none, some,
  true, ℕ, ◌+◌, ◌∷◌, ◌≡◌, ◌≤◌,
}
use montygo.Pool.{Pool, Slot, live, retire_locked, take_idle}
use montygo.Pool.System.{System}

pub record Inv (s : System) : Type 0 where
  pub starting_counts : s.pool.starting ≡ s.spawning + s.reserved
  pub active_counts : s.pool.active ≡ length s.leases
  pub retiring_counts : s.pool.retiring ≡ length s.pool.reaper + length s.in_hand
  pub closed_idle : s.pool.closed ≡ true → length s.pool.idle ≡ 0
  pub single_idle : s.pool.cfg.single_use ≡ true → length s.pool.idle ≡ 0
  pub open_orphans : s.pool.closed ≡ false → length s.orphans ≡ 0
  pub bounded : live s.pool + length s.orphans ≤ s.pool.cfg.max_processes + s.extra
  pub idle_gauge : s.pool.workers_idle.up ≡ s.pool.workers_idle.down + length s.pool.idle
  pub retiring_gauge : s.pool.workers_retiring.up ≡ s.pool.workers_retiring.down + s.pool.retiring
  pub live_gauge :
      s.pool.workers_live.up + s.unreported
      ≡ s.pool.workers_live.down
        + (s.pool.active + length s.pool.idle + s.pool.retiring + length s.orphans)

abbrev pub taken : Option Slot → ℕ
taken none = 0
taken (some s) = 1

-- What the walk over the idle workers does to the counts.
pub record Drained (idle : List Slot) (p : Pool) (o : Option Slot) (q : Pool) : Type 0 where
  pub same_cfg : q.cfg ≡ p.cfg
  pub same_starting : q.starting ≡ p.starting
  pub same_closed : q.closed ≡ p.closed
  pub same_reaped : q.reaped ≡ p.reaped
  pub same_wakes : q.wakes ≡ p.wakes
  pub same_live : q.workers_live ≡ p.workers_live
  pub same_up : q.workers_idle.up ≡ p.workers_idle.up
  pub same_down : q.workers_retiring.down ≡ p.workers_retiring.down
  pub active_taken : q.active ≡ p.active + taken o
  pub conserved : q.retiring + length q.idle + taken o ≡ p.retiring + length idle
  pub queued : length q.reaper + p.retiring ≡ length p.reaper + q.retiring
  pub exhausted : taken o ≡ 0 → length q.idle ≡ 0
  pub idle_down : q.workers_idle.down + length q.idle ≡ p.workers_idle.down + length idle
  pub retiring_up : q.workers_retiring.up + p.retiring ≡ p.workers_retiring.up + q.retiring

pub take_idle-Drained :
    (alive : ℕ → Bool) (idle : List Slot) (p : Pool)
    → Drained idle p (take_idle alive idle p).0 (take_idle alive idle p).1
unfolding take_idle
take_idle-Drained alive [] p = ground arith
take_idle-Drained alive (s ∷ idle) p = elim (Bool-cases (alive s.worker)) [
  | inl e ↦ ground arith
  | inr e ↦
      let h = take_idle-Drained alive idle (
        retire_locked (record { worker = s.worker; killed = true })
          (record p {
            idle = idle;
            workers_idle = record p.workers_idle { down = p.workers_idle.down + 1 };
          })) in
      ground (arith, h, length-append p.reaper (record { worker = s.worker; killed = true } ∷ []))
]
