-- ===== src/Pool/Overcommit.antt =====
-- How far reReserveLocked lets a single-use pool exceed MaxProcesses.
use montygo.Prelude.{
  [], arith, false, length, length-append, refl, subst, suc, sym, true, zero, ℕ, ◌+◌, ◌-◌, ◌∷◌, ◌≡◌,
  ◌≤◌,
}
use montygo.Pool.{Config, Slot, bind_spawned, live, re_reserve, reserve_locked, retire_lease}
use montygo.Pool.System.{Reach, System, bind_fails, binds, fresh, here, next, re_reserves, reserves}

-- A running single-use pool with `held` reservations and `retired` jobs in the reaper channel,
-- that holds nothing else.
record Reserves (cfg : Config) (held_now retired : ℕ) (s : System) : Type 0 where
  same_cfg : s.pool.cfg ≡ cfg
  running : s.pool.closed ≡ false
  reservations : s.reserved ≡ held_now
  no_failed : s.failed ≡ 0
  no_lease : s.leases ≡ []
  starts : s.pool.starting ≡ held_now
  no_active : s.pool.active ≡ 0
  no_idle : s.pool.idle ≡ []
  retires : s.pool.retiring ≡ retired
  queue : length s.pool.reaper ≡ retired

reserve_all :
    (cfg : Config) (n : ℕ)
    → cfg.single_use ≡ true
    → n ≤ cfg.max_processes
    → (s : System) × Reach (fresh cfg []) s × Reserves cfg n 0 s
unfolding reserve_locked
reserve_all cfg zero single small = (fresh cfg [], here, ground arith)
reserve_all cfg (suc n) single small =
    let (s, r, h) = reserve_all cfg n single (omega (arith, small)) in
    let p = record s.pool { starting = s.pool.starting + 1 } in
    (
      record s { pool = p; reserved = s.reserved + 1 },
      next r (reserves p (ground arith)),
      ground arith,
    )

-- One failed Bind: its spawn, its failure and reReserveLocked.
bind_once :
    (cfg : Config) (n k : ℕ) (s : System)
    → cfg.single_use ≡ true
    → Reach (fresh cfg []) s
    → Reserves cfg (suc n) k s
    → (t : System) × Reach (fresh cfg []) t × Reserves cfg (suc n) (suc k) t
unfolding bind_spawned retire_lease re_reserve
bind_once cfg n k s single r h =
    let p = (bind_spawned s.pool).1 in
    let l : Slot = record { worker = k; served = 0 } in
    let q = record s {
      pool = p;
      reserved = n;
      leases = l ∷ s.leases;
      unreported = s.unreported + 1;
    } in
    let f = record q { pool = retire_lease k true p; leases = s.leases; failed = s.failed + 1 } in
    (
      record f {
        pool = re_reserve f.pool;
        failed = 0;
        reserved = f.reserved + 1;
        extra = f.extra + 1;
      },
      next
          (next (next r (binds n k p (ground arith) (ground arith)))
            (bind_fails [] s.leases l true (ground arith) refl))
          (re_reserves 0 (ground arith)),
      ground (arith, length-append p.reaper (record { worker = k; killed = true } ∷ [])),
    )

bind_each :
    (cfg : Config) (k : ℕ)
    → cfg.single_use ≡ true
    → 1 ≤ cfg.max_processes
    → (s : System) × Reach (fresh cfg []) s × Reserves cfg cfg.max_processes k s
bind_each cfg zero single some_room = reserve_all cfg cfg.max_processes single (omega arith)
bind_each cfg (suc k) single some_room =
    let (s, r, h) = bind_each cfg k single some_room in
    let n = cfg.max_processes - 1 in
    let e : suc n ≡ cfg.max_processes = omega (arith, some_room) in
    let (t, q, g) = bind_once cfg n k s single r (subst (λ m. Reserves cfg m k s) (sym e) h) in
    (t, q, subst (λ m. Reserves cfg m (suc k) t) e g)

-- A single-use pool with MaxProcesses > 0 that is never closed reaches, for each number `k` up to
-- MaxProcesses, a state in which the claims on capacity are `k` more than MaxProcesses, with `k`
-- jobs in the reaper channel: each of its reservations has failed to bind once.
pub overcommit :
    (cfg : Config) (k : ℕ)
    → cfg.single_use ≡ true
    → 1 ≤ cfg.max_processes
    → k ≤ cfg.max_processes
    → (s : System) × Reach (fresh cfg []) s
      × (live s.pool ≡ cfg.max_processes + k)
      × (length s.pool.reaper ≡ k)
      × (s.pool.closed ≡ false)
overcommit cfg k single some_room small =
    let (s, r, h) = bind_each cfg k single some_room in
    (s, r, ground (arith, h), h.queue, ground (arith, h))
