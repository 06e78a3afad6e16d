-- ===== src/Pool/Lifetimes.antt =====
-- The observer of one session, and the deadlines of a session with a limit of ten seconds.
use montygo.Prelude.{List, [], arith, false, refl, some, true, ℕ, ◌+◌, ◌<◌, ◌∷◌, ◌≡◌}
use montygo.Pool.Observer.{
  Call, ObserverLifetime, acquire, acquires, call, call_all, close, closes, release, releases,
  unused,
}
use montygo.Pool.Budget.{SessionBudget}
use montygo.Pool.Deadline.{backstop_of, deadline, deadline_exact, earlier}

abbrev calls : List Call
calls = acquires ∷ closes ∷ acquires ∷ releases ∷ []

abbrev ended_unused : ObserverLifetime
ended_unused = record { users = 0; closing = true; closed = true; told = 1 }

calls_end : call_all calls unused ≡ some ended_unused
unfolding call_all call acquire release close
calls_end = refl

abbrev ten_seconds : SessionBudget
ten_seconds = record {
  duration_budget = some 10000000000;
  reported_exec = 4000000;
  suspension_limit = 5;
  suspensions_seen = 0;
}

ten_seconds_fits :
    (budget : ℕ)
    → ten_seconds.duration_budget ≡ some budget
    → budget + 1000000000 < 9223372036854775808
ten_seconds_fits budget e = ground arith

deadline_exact_example :
    deadline 60000000000 1000000000 false false ten_seconds
    ≡ earlier
        (backstop_of 1000000000 true ten_seconds ten_seconds.duration_budget)
        (some 60000000000)
deadline_exact_example =
    deadline_exact 60000000000 1000000000 false false ten_seconds (omega arith) (omega arith)
      ten_seconds_fits

abbrev almost_unlimited : SessionBudget
almost_unlimited = record ten_seconds {
  duration_budget = some 9223372036854775000;
  reported_exec = 0;
}
