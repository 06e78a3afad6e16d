-- ===== src/Pool/Budget.antt =====
-- internal/pool/budget.go: what a session has used of its budget, from the events of its worker.
-- A duration is the 64-bit pattern of its nanoseconds.
use montygo.Prelude.{
  All, Bool, List, Option, [], arith, if◌then◌else◌, ltb, none, some, ℕ, ◌%◌, ◌*◌, ◌+◌, ◌<◌, ◌∷◌,
  ◌≡◌, ◌≤◌,
}

pub record EventUsage : Type 0 where
  pub total_execution_micros : ℕ
  pub max_duration_micros : Option ℕ
  pub max_suspensions : Option ℕ
  pub is_suspension : Bool

pub record SessionBudget : Type 0 where
  pub duration_budget : Option ℕ
  pub reported_exec : ℕ
  pub suspension_limit : ℕ
  pub suspensions_seen : ℕ

abbrev pub default_max_suspensions : ℕ
default_max_suspensions = 1000

first_of : Option ℕ → Option ℕ → Option ℕ
first_of none none = none
first_of none (some micros) = some (micros * 1000 % 18446744073709551616)
first_of (some d) max_micros = some d

lower_limit : Option ℕ → ℕ → ℕ
lower_limit none limit = limit
lower_limit (some n) limit = if ltb n limit then n else limit

-- sessionBudget.observe.
unfoldable pub observe : EventUsage → SessionBudget → SessionBudget
unfolding first_of lower_limit
observe ev b = record {
  duration_budget = first_of b.duration_budget ev.max_duration_micros;
  reported_exec =
      if ltb b.reported_exec ev.total_execution_micros
      then ev.total_execution_micros
      else b.reported_exec;
  suspension_limit = lower_limit ev.max_suspensions b.suspension_limit;
  suspensions_seen =
      if ev.is_suspension
      then (b.suspensions_seen + 1) % 18446744073709551616
      else b.suspensions_seen;
}

pub observe_all : List EventUsage → SessionBudget → SessionBudget
observe_all [] b = b
observe_all (ev ∷ evs) b = observe_all evs (observe ev b)

abbrev pub suspensions : List EventUsage → ℕ
suspensions [] = 0
suspensions (ev ∷ evs) = (if ev.is_suspension then 1 else 0) + suspensions evs

-- The bounds that one event sets.
abbrev pub IsObserved : SessionBudget → EventUsage → Type 0
IsObserved b ev =
    (ev.total_execution_micros ≤ b.reported_exec)
    × ((n : ℕ) → ev.max_suspensions ≡ some n → b.suspension_limit ≤ n)

observe_seen :
    (ev : EventUsage) (b : SessionBudget) (later : ℕ)
    → b.suspensions_seen + ((if ev.is_suspension then 1 else 0) + later) < 18446744073709551616
    → ((observe ev b).suspensions_seen ≡ b.suspensions_seen + (if ev.is_suspension then 1 else 0))
      × ((observe ev b).suspensions_seen + later < 18446744073709551616)
unfolding observe
observe_seen ev b later small = ground arith

observe-bounds :
    (ev : EventUsage) (b : SessionBudget)
    → ((ev.total_execution_micros ≤ (observe ev b).reported_exec)
        × (b.reported_exec ≤ (observe ev b).reported_exec))
      × (((observe ev b).suspension_limit ≤ b.suspension_limit)
          × ((n : ℕ) → ev.max_suspensions ≡ some n → (observe ev b).suspension_limit ≤ n))
unfolding observe lower_limit
observe-bounds ev b = (ground arith, (ground arith, λ n e. ground arith))

-- After any events, while the count of suspensions fits 64 bits: the execution time and the suspension limit
-- bound those of each event; the limit has not risen and the execution time has not fallen; and
-- the suspensions seen have grown by those among the events.
pub observe_all-IsObserved :
    (evs : List EventUsage) (b : SessionBudget)
    → b.suspensions_seen + suspensions evs < 18446744073709551616
    → All (IsObserved (observe_all evs b)) evs
      × (b.reported_exec ≤ (observe_all evs b).reported_exec)
      × ((observe_all evs b).suspension_limit ≤ b.suspension_limit)
      × ((observe_all evs b).suspensions_seen ≡ b.suspensions_seen + suspensions evs)
unfolding observe_all
observe_all-IsObserved [] b small = (tt, omega arith, omega arith, omega arith)
observe_all-IsObserved (ev ∷ evs) b small =
    let (now, fits) = observe_seen ev b (suspensions evs) small in
    let (each, longer, lower, seen) = observe_all-IsObserved evs (observe ev b) fits in
    let (micros, limit) = observe-bounds ev b in
    (
      ((omega (arith, micros.0, longer), λ n e. omega (arith, lower, limit.1 n e)), each),
      omega (arith, micros.1, longer),
      omega (arith, limit.0, lower),
      omega (arith, seen, now),
    )
