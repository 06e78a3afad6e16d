-- ===== src/Pool/Deadline.antt =====
-- internal/pool/budget.go: the deadline of a turn. A duration is the 64-bit pattern of its signed
-- nanoseconds.
use montygo.Prelude.{
  Bool, Option, ap, arith, false, if-either, if◌then◌else◌, ltb, none, not, refl, some, true, ℕ,
  ◌%◌, ◌&&◌, ◌*◌, ◌+◌, ◌-◌, ◌<◌, ◌∙◌, ◌≡◌, ◌≤◌,
}
use montygo.Pool.Budget.{SessionBudget}

abbrev pub word : ℕ
word = 18446744073709551616

abbrev pub sign : ℕ
sign = 9223372036854775808

-- Go's `+`, `-` and `<` on time.Duration.
abbrev pub add : ℕ → ℕ → ℕ
add a b = (a + b) % word

abbrev pub subtract : ℕ → ℕ → ℕ
subtract a b = (a + (word - b)) % word

abbrev pub less : ℕ → ℕ → Bool
less a b = ltb ((a + sign) % word) ((b + sign) % word)

-- time.Duration(b.reportedExec) * time.Microsecond.
abbrev pub exec_time : SessionBudget → ℕ
exec_time b = b.reported_exec * 1000 % word

unfoldable pub backstop : ℕ → SessionBudget → ℕ → ℕ
backstop grace b budget =
    let rem = subtract budget (exec_time b) in add (if less rem 0 then 0 else rem) grace

unfoldable pub sooner : ℕ → Option ℕ → Option ℕ
sooner back none = some back
sooner back (some d) = some (if less back d then back else d)

-- sessionBudget.deadline.
unfoldable pub deadline : ℕ → ℕ → Bool → Bool → SessionBudget → Option ℕ
unfolding backstop sooner
deadline request_timeout grace grace_disabled control b =
    let d = if less 0 request_timeout then some request_timeout else none in
    elim b.duration_budget [
      | none ↦ d
      | some budget ↦
          if not control && not grace_disabled then sooner (backstop grace b budget) d else d
    ]

-- The same on natural numbers, where a subtraction stops at 0.
abbrev pub earlier : Option ℕ → Option ℕ → Option ℕ
earlier none d = d
earlier (some a) none = some a
earlier (some a) (some d) = some (if ltb a d then a else d)

abbrev pub backstop_of : ℕ → Bool → SessionBudget → Option ℕ → Option ℕ
backstop_of grace true b (some budget) = some (budget - b.reported_exec * 1000 + grace)
backstop_of grace _ b _ = none

backstop-exact :
    (grace : ℕ) (b : SessionBudget) (budget : ℕ)
    → b.reported_exec * 1000 < sign
    → budget + grace < sign
    → backstop grace b budget ≡ budget - b.reported_exec * 1000 + grace
unfolding backstop
backstop-exact grace b budget small fits = ground arith

less_positive : (d : ℕ) → d < sign → less 0 d ≡ ltb 0 d
less_positive d h = ground arith

abbrev timeout_of : ℕ → Option ℕ
timeout_of d = if less 0 d then some d else none

sooner-earlier :
    (a d : ℕ) → a < sign → d < sign → sooner a (timeout_of d) ≡ earlier (some a) (timeout_of d)
unfolding sooner
sooner-earlier a d h k =
    if-either {A = Option ℕ} (λ o. sooner a o ≡ earlier (some a) o) (less 0 d) (λ _. ground arith)
      (λ _. refl)

-- Both sides at a budget that is given or not, with the backstop on or off.
deadline_at :
    (grace : ℕ) (on : Bool) (b : SessionBudget) (d : ℕ) (budget : Option ℕ)
    → d < sign
    → b.reported_exec * 1000 < sign
    → ((n : ℕ) → budget ≡ some n → n + grace < sign)
    → (elim budget [
      | none ↦ timeout_of d
      | some n ↦ if on then sooner (backstop grace b n) (timeout_of d) else timeout_of d
    ])
      ≡ earlier (backstop_of grace on b budget) (timeout_of d)
deadline_at grace true b d none timeout small fits = refl
deadline_at grace false b d none timeout small fits = refl
deadline_at grace true b d (some n) timeout small fits =
    rw (backstop-exact grace b n small (fits n refl))
      (sooner-earlier _ d (omega (arith, fits n refl)) timeout)
deadline_at grace false b d (some n) timeout small fits = refl

-- While the durations fit their words, the deadline of a turn is the earlier of the request timeout,
-- when there is one, and of the backstop: what is left of the budget, at least 0, and the grace. The
-- backstop counts unless the turn is a control turn, the grace is disabled or there is no budget.
pub deadline_exact :
    (request_timeout grace : ℕ) (grace_disabled control : Bool) (b : SessionBudget)
    → request_timeout < sign
    → b.reported_exec * 1000 < sign
    → ((budget : ℕ) → b.duration_budget ≡ some budget → budget + grace < sign)
    → deadline request_timeout grace grace_disabled control b
      ≡ earlier
          (backstop_of grace (not control && not grace_disabled) b b.duration_budget)
          (if ltb 0 request_timeout then some request_timeout else none)
unfolding deadline
deadline_exact request_timeout grace grace_disabled control b timeout small fits =
    deadline_at grace (not control && not grace_disabled) b request_timeout b.duration_budget
      timeout small fits
    ∙ ap
        (λ on.
          earlier (backstop_of grace (not control && not grace_disabled) b b.duration_budget)
            (if on then some request_timeout else none))
        (less_positive request_timeout timeout)

-- A budget below 2^63 that exceeds it together with the grace, of which nothing is used: the deadline
-- of a turn that is no control turn is negative, so that the turn is late before it starts.
pub deadline_overflow :
    (request_timeout grace budget : ℕ) (b : SessionBudget)
    → request_timeout < sign
    → budget < sign
    → grace < sign
    → sign ≤ budget + grace
    → b.reported_exec ≡ 0
    → b.duration_budget ≡ some budget
    → (d : ℕ) × (deadline request_timeout grace false false b ≡ some d) × (less d 0 ≡ true)
unfolding deadline backstop sooner
deadline_overflow request_timeout grace budget b timeout positive small large unused given =
    rw (given, unused) (late request_timeout timeout)
  where
    late :
        (t : ℕ)
        → t < sign
        → (d : ℕ) × (sooner
              (backstop grace
                (record b { reported_exec = 0; duration_budget = some budget })
                budget)
              (timeout_of t)
            ≡ some d)
          × (less d 0 ≡ true)
    late t h =
        if-either {A = Option ℕ}
          (λ o.
            (d : ℕ) × (sooner
                (backstop grace (record b { reported_exec = 0; duration_budget = some budget })
                  budget)
                o
              ≡ some d)
            × (less d 0 ≡ true))
          (less 0 t) (λ _. (budget + grace, ground arith, ground arith))
          (λ _. (budget + grace, ground arith, ground arith))
