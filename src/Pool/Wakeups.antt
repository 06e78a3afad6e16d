-- ===== src/Pool/Wakeups.antt =====
-- The `notify` channel: a call of acquire that waits on it is woken when it could go on.
use montygo.Prelude.{
  Bool, Bool-cases, List, [], arith, false, inl, inr, length, none, refl, true, ℕ, ◌∷◌, ◌≡◌, ◌≤◌,
}
use montygo.Pool.{
  Config, Pool, Slot, acquire_locked, bind_closed, bind_spawned, close, handoff, live, re_reserve,
  reap_exited, recycles, release, release_reservation, report_live, reserve_locked, retire_lease,
  spawn_done, spawn_failed, spawn_or_wait, spawns, stop_reapers, take_idle, took, waits,
}
use montygo.Pool.Counting.{Inv, take_idle-Drained}
use montygo.Pool.System.{
  Reach, Step, System, acquire_spawns, acquire_takes, acquire_waits, bind_fails, binds,
  binds_closed, buries, closes, fresh, hands_off, here, loses, next, observes, re_reserves,
  reaper_exits, reaper_takes, releases, reports, reserves, spawn_fails, spawn_leases, spawn_retires,
  stops, unreserves,
}
use montygo.Pool.Steps.{close_idle-Emptied}
use montygo.Pool.Reachable.{Reach-Inv, Step-Inv}

-- The pools in which the first section of acquire waits without a change.
record Full (p : Pool) : Type 0 where
  running : p.closed ≡ false
  no_idle : p.cfg.single_use ≡ false → length p.idle ≡ 0
  capacity : p.cfg.max_processes ≤ live p

length-zero {ℓ} : {A : Type ℓ} (xs : List A) → length xs ≡ 0 → xs ≡ []
length-zero [] h = refl
length-zero (x ∷ xs) h = ground arith

take_idle-zero :
    (alive : ℕ → Bool) (p : Pool) (idle : List Slot)
    → length idle ≡ 0
    → take_idle alive idle p ≡ (none, record p { idle = [] })
unfolding take_idle
take_idle-zero alive p idle e = rw (length-zero idle e) refl

Full-waits : (alive : ℕ → Bool) (p : Pool) → Full p → (acquire_locked alive p).0 ≡ waits
unfolding acquire_locked spawn_or_wait
Full-waits alive p h = elim (Bool-cases p.cfg.single_use) [
  | inl e ↦ ground arith
  | inr e ↦ ground (arith, take_idle-zero alive p p.idle (h.no_idle e))
]

waits-Full : (alive : ℕ → Bool) (p q : Pool) → acquire_locked alive p ≡ (waits, q) → Full q
unfolding acquire_locked spawn_or_wait
waits-Full alive p q e = ground (arith, take_idle-Drained alive p.idle p)

-- No step lowers the number of wakeups, and one that does not raise it leaves a full pool full.
record Keeps (p q : Pool) : Type 0 where
  monotone : p.wakes ≤ q.wakes
  stays : q.wakes ≡ p.wakes → Full p → Full q

Full-took :
    (alive : ℕ → Bool) (p q : Pool) (l : Slot) → acquire_locked alive p ≡ (took l, q) → Keeps p q
unfolding acquire_locked spawn_or_wait
Full-took alive p q l e = ground (arith, take_idle-Drained alive p.idle p, Full-waits alive p)

Full-spawns : (alive : ℕ → Bool) (p q : Pool) → acquire_locked alive p ≡ (spawns, q) → Keeps p q
unfolding acquire_locked spawn_or_wait
Full-spawns alive p q e = ground (arith, take_idle-Drained alive p.idle p, Full-waits alive p)

Full-again : (alive : ℕ → Bool) (p q : Pool) → acquire_locked alive p ≡ (waits, q) → Keeps p q
unfolding acquire_locked spawn_or_wait
Full-again alive p q e = ground (arith, take_idle-Drained alive p.idle p)

close-Keeps : (p : Pool) → Keeps p (close p)
unfolding close
close-Keeps p = ground (arith, close_idle-Emptied p.idle (record p { closed = true; idle = [] }))

Step-Keeps : {s t : System} → Inv s → Step s t → Keeps s.pool t.pool
unfolding spawn_failed spawn_done release recycles retire_lease reserve_locked release_reservation
    bind_spawned bind_closed re_reserve handoff reap_exited stop_reapers report_live
Step-Keeps {s = s} h (acquire_takes alive l p e) = Full-took alive s.pool p l e
Step-Keeps {s = s} h (acquire_spawns alive p e) = Full-spawns alive s.pool p e
Step-Keeps {s = s} h (acquire_waits alive p e) = Full-again alive s.pool p e
Step-Keeps h (spawn_fails n e) = ground arith
Step-Keeps h (spawn_leases n w l p e f) = ground arith
Step-Keeps h (spawn_retires n w p e f) = ground arith
Step-Keeps h (releases alive front back l served e) = ground arith
Step-Keeps h (loses front back l killed e) = ground arith
Step-Keeps h (reserves p e) = ground arith
Step-Keeps h (unreserves n e) = ground arith
Step-Keeps h (binds n w p e f) = ground (arith, h)
Step-Keeps h (binds_closed n w p e f) = ground arith
Step-Keeps h (reports n e) = ground arith
Step-Keeps h (buries front back w e) = ground arith
Step-Keeps h (bind_fails front back l killed single e) = ground arith
Step-Keeps h (re_reserves n e) = ground arith
Step-Keeps h (hands_off front back l remote e) = ground arith
Step-Keeps h (reaper_takes job rest e room) = ground arith
Step-Keeps h (reaper_exits front back job e) = ground arith
Step-Keeps {s = s} h closes = close-Keeps s.pool
Step-Keeps h (observes closed e) = ground arith
Step-Keeps h (stops e) = ground arith

Reach-Keeps : {s t : System} → Inv s → Reach s t → Inv t × Keeps s.pool t.pool
Reach-Keeps h here = (h, record { monotone = omega arith; stays = λ _ f. f })
Reach-Keeps h (next r step) =
    let (inv, kept) = Reach-Keeps h r in
    let more = Step-Keeps inv step in
    (
      Step-Inv step inv,
      record {
        monotone = omega (arith, kept.monotone, more.monotone);
        stays = λ e f.
            more.stays (omega (arith, e, kept.monotone, more.monotone))
              (kept.stays (omega (arith, e, kept.monotone, more.monotone)) f);
      },
    )

-- No wakeup is lost: when, in a state reached from a new pool with at most MaxProcesses prewarmed
-- workers (none in a single-use pool), the first section of acquire leaves the pool `p` and waits,
-- then in every state that the pool reaches from there without a wakeup, the section would wait
-- again, whichever workers are alive then.
pub wait-until_woken :
    {cfg : Config} {idle : List Slot} {s t : System} (alive later : ℕ → Bool) (p : Pool)
    → length idle ≤ cfg.max_processes
    → (cfg.single_use ≡ true → length idle ≡ 0)
    → Reach (fresh cfg idle) s
    → acquire_locked alive s.pool ≡ (waits, p)
    → Reach (record s { pool = p }) t
    → t.pool.wakes ≡ p.wakes
    → (acquire_locked later t.pool).0 ≡ waits
wait-until_woken {s = s} {t = t} alive later p small plain r e after same =
    let inv = Step-Inv (acquire_waits alive p e) (Reach-Inv small plain r) in
    let kept = (Reach-Keeps inv after).1 in
    Full-waits later t.pool (kept.stays same (waits-Full alive s.pool p e))
