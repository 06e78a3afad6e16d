-- ===== src/Session/Policy.antt =====
-- options.go: how the stop policies of the levels combine. A duration of Go is signed.
use montygo.Prelude.{
  Bool, List, Option, [], arith, false, if◌then◌else◌, none, refl, some, subst, suc, true, zero, ℕ,
  ◌||◌, ◌∷◌, ◌≡◌,
}

pub data ℤ : Type 0 where
  pos negsuc : ℕ → ℤ

-- A reason is a number, or none for a nil error.
pub record StopPolicy : Type 0 where
  pub drain : ℤ
  pub timeout : ℤ
  pub join : ℤ
  pub reason : Option ℕ
  pub catchable : Bool

abbrev pub is_negative : ℤ → Bool
is_negative (pos n) = false
is_negative (negsuc n) = true

-- max(d, 0).
abbrev pub at_least_zero : ℤ → ℕ
at_least_zero (pos n) = n
at_least_zero (negsuc n) = 0

abbrev pub nonzero_or : ℤ → ℤ → ℤ
nonzero_or (pos zero) base = base
nonzero_or (pos (suc n)) base = pos (suc n)
nonzero_or (negsuc n) base = negsuc n

abbrev pub given_or : Option ℕ → Option ℕ → Option ℕ
given_or none base = base
given_or (some r) base = some r

-- StopPolicy.over.
unfoldable pub over : StopPolicy → StopPolicy → StopPolicy
over p base = record {
  drain = nonzero_or p.drain base.drain;
  timeout = nonzero_or p.timeout base.timeout;
  join = nonzero_or p.join base.join;
  reason = given_or p.reason base.reason;
  catchable = p.catchable || base.catchable;
}

-- StopPolicy.validate: whether the policy is accepted.
unfoldable pub validate : StopPolicy → Bool
validate p = if is_negative p.drain || is_negative p.join then false else true

abbrev pub with_reason : ℕ → StopPolicy → StopPolicy
with_reason interrupt p = record p { reason = given_or p.reason (some interrupt) }

abbrev pub accepted : StopPolicy → Option StopPolicy
accepted p = if validate p then some p else none

-- effectivePolicy, none for an OptionError; `interrupt` is keyboardInterrupt.
unfoldable pub effective_policy : ℕ → StopPolicy → List StopPolicy → Option StopPolicy
unfolding validate
effective_policy interrupt base [] = accepted (with_reason interrupt base)
effective_policy interrupt base (p ∷ []) = accepted (with_reason interrupt (over p base))
effective_policy interrupt base (p ∷ q ∷ rest) = none

nonzero_or_assoc : (a b c : ℤ) → nonzero_or a (nonzero_or b c) ≡ nonzero_or (nonzero_or a b) c
nonzero_or_assoc (pos zero) b c = refl
nonzero_or_assoc (pos (suc n)) b c = refl
nonzero_or_assoc (negsuc n) b c = refl

or_assoc : (a b c : Bool) → (a || (b || c)) ≡ (a || b || c)
or_assoc true b c = refl
or_assoc false b c = refl

given_or_assoc : (a b c : Option ℕ) → given_or a (given_or b c) ≡ given_or (given_or a b) c
given_or_assoc none b c = refl
given_or_assoc (some r) b c = refl

-- How policies of three levels combine does not depend on which two of them are combined first.
pub over_assoc : (p q r : StopPolicy) → over p (over q r) ≡ over (over p q) r
unfolding over
over_assoc p q r i = record {
  drain = nonzero_or_assoc p.drain q.drain r.drain i;
  timeout = nonzero_or_assoc p.timeout q.timeout r.timeout i;
  join = nonzero_or_assoc p.join q.join r.join i;
  reason = given_or_assoc p.reason q.reason r.reason i;
  catchable = or_assoc p.catchable q.catchable r.catchable i;
}

nonzero_or-nonzero_or : (a base : ℤ) → nonzero_or (nonzero_or a base) base ≡ nonzero_or a base
nonzero_or-nonzero_or (pos zero) (pos zero) = refl
nonzero_or-nonzero_or (pos zero) (pos (suc n)) = refl
nonzero_or-nonzero_or (pos zero) (negsuc n) = refl
nonzero_or-nonzero_or (pos (suc n)) base = refl
nonzero_or-nonzero_or (negsuc n) base = refl

nonzero_or_same : (a : ℤ) → nonzero_or a a ≡ a
nonzero_or_same (pos zero) = refl
nonzero_or_same (pos (suc n)) = refl
nonzero_or_same (negsuc n) = refl

reason_stays :
    (interrupt : ℕ) (a base : Option ℕ)
    → given_or (given_or (given_or a base) (some interrupt)) base
      ≡ given_or (given_or a base) (some interrupt)
reason_stays interrupt none none = refl
reason_stays interrupt none (some r) = refl
reason_stays interrupt (some q) base = refl

resolved-over :
    (interrupt : ℕ) (p base : StopPolicy)
    → over (with_reason interrupt (over p base)) base ≡ with_reason interrupt (over p base)
unfolding over
resolved-over interrupt p base i = record {
  drain = nonzero_or-nonzero_or p.drain base.drain i;
  timeout = nonzero_or-nonzero_or p.timeout base.timeout i;
  join = nonzero_or-nonzero_or p.join base.join i;
  reason = reason_stays interrupt p.reason base.reason i;
  catchable = catchable_stays i;
}
  where
    catchable_stays :
        (p.catchable || base.catchable || base.catchable) ≡ (p.catchable || base.catchable)
    catchable_stays = ground arith

base-over :
    (interrupt : ℕ) (base : StopPolicy)
    → over (with_reason interrupt base) base ≡ with_reason interrupt base
unfolding over
base-over interrupt base i = record {
  drain = nonzero_or_same base.drain i;
  timeout = nonzero_or_same base.timeout i;
  join = nonzero_or_same base.join i;
  reason = stays base.reason i;
  catchable = same i;
}
  where
    stays : (o : Option ℕ) → given_or (given_or o (some interrupt)) o ≡ given_or o (some interrupt)
    stays none = refl
    stays (some r) = refl

    same : (base.catchable || base.catchable) ≡ base.catchable
    same = ground arith

accepted_is : (p q : StopPolicy) → accepted p ≡ some q → (p ≡ q) × (validate p ≡ true)
accepted_is p q h = test (validate p) refl h
  where
    test :
        (b : Bool)
        → validate p ≡ b
        → (if b then some p else none) ≡ some q
        → (p ≡ q) × (validate p ≡ true)
    test true v k = (ground arith, v)
    test false v k = absurd (ground arith)

given_reason : (o : Option ℕ) (interrupt : ℕ) → (r : ℕ) × (given_or o (some interrupt) ≡ some r)
given_reason none interrupt = (interrupt, refl)
given_reason (some r) interrupt = (r, refl)

-- A policy that effectivePolicy resolves against a base has a reason, and neither its Drain nor its
-- Join is negative; requestStop, which lays it over the same base again, changes nothing by that.
pub effective_policy_settles :
    (interrupt : ℕ) (base q : StopPolicy) (given : List StopPolicy)
    → effective_policy interrupt base given ≡ some q
    → (over q base ≡ q) × (validate q ≡ true) × ((r : ℕ) × (q.reason ≡ some r))
unfolding effective_policy
effective_policy_settles interrupt base q [] h =
    let (same, valid) = accepted_is (with_reason interrupt base) q h in
    subst (λ q. (over q base ≡ q) × (validate q ≡ true) × ((r : ℕ) × (q.reason ≡ some r))) same
      (base-over interrupt base, valid, given_reason base.reason interrupt)
effective_policy_settles interrupt base q (p ∷ []) h =
    let (same, valid) = accepted_is (with_reason interrupt (over p base)) q h in
    subst (λ q. (over q base ≡ q) × (validate q ≡ true) × ((r : ℕ) × (q.reason ≡ some r))) same
      (resolved-over interrupt p base, valid, given_reason (over p base).reason interrupt)
effective_policy_settles interrupt base q (p ∷ p' ∷ rest) h = absurd (ground arith)
