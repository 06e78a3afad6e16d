-- ===== src/Session/Rotation.antt =====
-- rotation.go: when a session moves to a fresh connection. A duration is the 64-bit pattern of its
-- signed nanoseconds; `remaining` is what `deadline.Sub(now)` returns. The timer and the move itself,
-- which are calls of the clock, of the worker and of the pool, are not modelled.
use montygo.Prelude.{
  Bool, Option, arith, false, if◌then◌else◌, none, not, some, ℕ, ◌%◌, ◌*◌, ◌+◌, ◌-◌, ◌<◌, ◌==◌,
  ◌||◌, ◌≡◌,
}
use montygo.Pool.Deadline.{add, less, sign, subtract, word}

-- The limits of a ServerInfo that rotation reads.
pub record ServerLimits : Type 0 where
  pub session_timeout : ℕ
  pub turn_timeout : ℕ

pub record RotationPolicy : Type 0 where
  pub rotates_within : ℕ
  pub one_turn : ℕ
  pub margin : ℕ

abbrev pub default_rotation_margin : ℕ
default_rotation_margin = 30 * 1000000000

-- newRotationPolicy.
unfoldable pub new_rotation_policy : Option ServerLimits → ℕ → Option RotationPolicy
new_rotation_policy none margin = none
new_rotation_policy (some l) margin =
    let m = if margin == 0 then default_rotation_margin else margin in
    if not (less 0 l.session_timeout)
      || (not (less 0 l.turn_timeout) || less l.session_timeout (2 * add l.turn_timeout m % word))
    then none
    else some (record { rotates_within = l.session_timeout; one_turn = l.turn_timeout; margin = m })

-- rotationPolicy.due.
unfoldable pub due : RotationPolicy → ℕ → Bool
due r remaining = not (less (add r.one_turn r.margin) remaining)

-- With a policy that newRotationPolicy accepts, a session timeout that is not negative, and a turn and
-- a margin that together stay below 2^62 nanoseconds: a connection is not due while it is younger than
-- the two together; and what it then has left is more than the two.
pub young_connection :
    (info : Option ServerLimits) (margin elapsed : ℕ) (r : RotationPolicy)
    → new_rotation_policy info margin ≡ some r
    → r.rotates_within < sign
    → r.one_turn + r.margin < 4611686018427387904
    → elapsed < r.one_turn + r.margin
    → (due r (subtract r.rotates_within elapsed) ≡ false)
      × (r.one_turn + r.margin < r.rotates_within - elapsed)
unfolding new_rotation_policy due
young_connection none margin elapsed r made fits small young = absurd (ground arith)
young_connection (some l) margin elapsed r made fits small young = ground arith
