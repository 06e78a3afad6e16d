-- ===== src/Pool/Steps.antt =====
-- What each section of the pool does to the counts of Pool/Counting.
use montygo.Prelude.{
  Bool, List, Option, [], ap, arith, false, if-either, length, length-append, length-remove, none,
  some, true, ℕ, ◌++◌, ◌+◌, ◌∷◌, ◌≡◌,
}
use montygo.Pool.{
  Acquired, Pool, Slot, acquire_locked, close, close_idle, pool_closed, recycles, release,
  spawn_done, spawn_or_wait, spawns, took, took_or, waits,
}
use montygo.Pool.System.{System}
use montygo.Pool.Counting.{Drained, Inv, take_idle-Drained}

-- The system after the first section of acquire, by what that section found.
abbrev pub admit : System → Acquired × Pool → System
admit s (pool_closed, p) = record s { pool = p }
admit s (waits, p) = record s { pool = p }
admit s (spawns, p) = record s { pool = p; spawning = s.spawning + 1 }
admit s (took l, p) = record s { pool = p; leases = l ∷ s.leases }

spawn_or_wait-Inv :
    (s : System) (p : Pool)
    → p.closed ≡ false
    → Inv (record s { pool = p })
    → Inv (admit s (spawn_or_wait p))
unfolding spawn_or_wait
spawn_or_wait-Inv s p running h = ground arith

took_or-Inv :
    (s : System) (o : Option Slot) (q : Pool)
    → s.pool.closed ≡ false
    → s.pool.cfg.single_use ≡ false
    → Drained s.pool.idle s.pool o q
    → Inv s
    → Inv (admit s (took_or (o, q)))
took_or-Inv s none q running plain d h = spawn_or_wait-Inv s q (ground arith) (ground arith)
took_or-Inv s (some l) q running plain d h = ground arith

pub acquire_locked-Inv :
    (s : System) (alive : ℕ → Bool) → Inv s → Inv (admit s (acquire_locked alive s.pool))
unfolding acquire_locked
acquire_locked-Inv s alive h =
    if-either (λ r. Inv (admit s r)) s.pool.closed (λ e. h)
      (λ e.
        if-either (λ r. Inv (admit s r)) s.pool.cfg.single_use (λ f. spawn_or_wait-Inv s s.pool e h)
          (λ f. took_or-Inv s _ _ e f (take_idle-Drained alive s.pool.idle s.pool) h))

pub release-Inv :
    (s : System) (alive : ℕ → Bool) (front back : List Slot) (l : Slot) (served : ℕ)
    → s.leases ≡ front ++ l ∷ back
    → Inv s
    → Inv (record s {
      pool = release alive (record l { served = served }) s.pool;
      leases = front ++ back;
    })
unfolding release recycles
release-Inv s alive front back l served e h = ground (
  arith,
  h,
  length-remove front l back,
  length-append s.pool.reaper (record { worker = l.worker; killed = false } ∷ []),
  ap length e,
)

pub spawn_done-Inv :
    (s : System) (n w : ℕ) (o : Option Slot) (p : Pool)
    → s.spawning ≡ n + 1
    → spawn_done w s.pool ≡ (o, p)
    → Inv s
    → Inv (elim o [
      | none ↦ record s { pool = p; spawning = n }
      | some l ↦ record s {
        pool = p;
        spawning = n;
        leases = l ∷ s.leases;
        unreported = s.unreported + 1;
      }
    ])
unfolding spawn_done
spawn_done-Inv s n w none p e f h =
    ground (arith, h, length-append s.pool.reaper (record { worker = w; killed = false } ∷ []))
spawn_done-Inv s n w (some l) p e f h = ground arith

-- What Close does to the counts.
pub record Emptied (idle : List Slot) (p q : Pool) : Type 0 where
  pub same_cfg : q.cfg ≡ p.cfg
  pub same_starting : q.starting ≡ p.starting
  pub same_active : q.active ≡ p.active
  pub same_idle : q.idle ≡ p.idle
  pub same_closed : q.closed ≡ p.closed
  pub same_wakes : q.wakes ≡ p.wakes
  pub same_reaped : q.reaped ≡ p.reaped
  pub same_live : q.workers_live ≡ p.workers_live
  pub same_up : q.workers_idle.up ≡ p.workers_idle.up
  pub same_down : q.workers_retiring.down ≡ p.workers_retiring.down
  pub retired : q.retiring ≡ p.retiring + length idle
  pub queued : length q.reaper ≡ length p.reaper + length idle
  pub idle_down : q.workers_idle.down ≡ p.workers_idle.down + length idle
  pub retiring_up : q.workers_retiring.up ≡ p.workers_retiring.up + length idle

pub close_idle-Emptied : (idle : List Slot) (p : Pool) → Emptied idle p (close_idle idle p)
unfolding close_idle
close_idle-Emptied [] p = ground arith
close_idle-Emptied (s ∷ idle) p = ground (
  arith,
  close_idle-Emptied idle p,
  length-append (close_idle idle p).reaper (record { worker = s.worker; killed = false } ∷ []),
)

pub close-Inv : (s : System) → Inv s → Inv (record s { pool = close s.pool })
unfolding close
close-Inv s h =
    ground (arith, h, close_idle-Emptied s.pool.idle (record s.pool { closed = true; idle = [] }))
