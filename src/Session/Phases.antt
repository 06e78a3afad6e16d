-- ===== src/Session/Phases.antt =====
-- The phase of an execution, by the goroutine that has it in hand.
use montygo.Prelude.{arith, false, refl, subst, true, ◌+◌, ◌<◌, ◌≡◌}
use montygo.Session.{
  Channel, Execution, ExecutionPhase, aborting, callback, control, executing, finished, is_nil,
  is_paused, paused, preparing, starting,
}
use montygo.Session.System.{System, leaves}
use montygo.Session.Ownership.{Owned, Runs, Wired}

-- The phase that each kind of goroutine has in hand.
record Told (p : ExecutionPhase) (s : System) : Type 0 where
  tells_starting : 0 < s.starters → p ≡ starting
  tells_preparing : 0 < s.preparers → p ≡ preparing
  tells_executing : 0 < s.drivers → p ≡ executing
  tells_callback : 0 < s.callers → p ≡ callback
  tells_control : 0 < s.controllers + s.closers → p ≡ control
  tells_aborting : 0 < s.aborters → p ≡ aborting

Owned-Told : (p : ExecutionPhase) (s : System) → Owned p s → Told p s
Owned-Told starting s h = ground arith
Owned-Told preparing s h = ground arith
Owned-Told executing s h = ground arith
Owned-Told callback s h = ground arith
Owned-Told paused s h = ground arith
Owned-Told control s h = ground arith
Owned-Told aborting s h = ground arith
Owned-Told finished s h = absurd h

pub starting_of : (p : ExecutionPhase) (s : System) → Owned p s → 0 < s.starters → p ≡ starting
starting_of p s h n = (Owned-Told p s h).tells_starting n

pub preparing_of : (p : ExecutionPhase) (s : System) → Owned p s → 0 < s.preparers → p ≡ preparing
preparing_of p s h n = (Owned-Told p s h).tells_preparing n

pub executing_of : (p : ExecutionPhase) (s : System) → Owned p s → 0 < s.drivers → p ≡ executing
executing_of p s h n = (Owned-Told p s h).tells_executing n

pub callback_of : (p : ExecutionPhase) (s : System) → Owned p s → 0 < s.callers → p ≡ callback
callback_of p s h n = (Owned-Told p s h).tells_callback n

pub control_of :
    (p : ExecutionPhase) (s : System) → Owned p s → 0 < s.controllers + s.closers → p ≡ control
control_of p s h n = (Owned-Told p s h).tells_control n

pub aborting_of : (p : ExecutionPhase) (s : System) → Owned p s → 0 < s.aborters → p ≡ aborting
aborting_of p s h n = (Owned-Told p s h).tells_aborting n

-- The parts of Runs that depend on the phase, at a phase that is known.
pub at_phase :
    (s : System) (e : Execution) (p : ExecutionPhase)
    → Runs s e
    → e.phase ≡ p
    → (e.phase ≡ p) × (Owned p s) × (Wired p e.turn_done e.operation_done)
at_phase s e p h eq = (
  eq,
  subst (λ p. Owned p s) eq h.owned,
  subst (λ p. Wired p e.turn_done e.operation_done) eq h.wired,
)

pub paused_of : (p : ExecutionPhase) → is_paused p ≡ true → p ≡ paused
paused_of starting h = absurd (ground arith)
paused_of preparing h = absurd (ground arith)
paused_of executing h = absurd (ground arith)
paused_of callback h = absurd (ground arith)
paused_of paused h = refl
paused_of control h = absurd (ground arith)
paused_of aborting h = absurd (ground arith)
paused_of finished h = absurd (ground arith)

-- The same goroutines have the execution in hand.
pub record SameHands (s t : System) : Type 0 where
  pub same_starters : t.starters ≡ s.starters
  pub same_preparers : t.preparers ≡ s.preparers
  pub same_drivers : t.drivers ≡ s.drivers
  pub same_callers : t.callers ≡ s.callers
  pub same_controllers : t.controllers ≡ s.controllers
  pub same_closers : t.closers ≡ s.closers
  pub same_aborters : t.aborters ≡ s.aborters
  pub same_enders : t.enders ≡ s.enders

pub Owned-same : (p : ExecutionPhase) (s t : System) → SameHands s t → Owned p s → Owned p t
Owned-same starting s t e h = ground arith
Owned-same preparing s t e h = ground arith
Owned-same executing s t e h = ground arith
Owned-same callback s t e h = ground arith
Owned-same paused s t e h = ground arith
Owned-same control s t e h = ground arith
Owned-same aborting s t e h = ground arith
Owned-same finished s t e h = h

pub leave-Runs : (s : System) (e : Execution) → Runs s e → Runs (leaves s false e) e
leave-Runs s e h =
    let owned = Owned-same e.phase s (leaves s false e) (ground arith) h.owned in ground arith

-- Only a paused execution has no operation under way.
pub operation_paused :
    (s : System) (p : ExecutionPhase) (turn operation : Channel)
    → Wired p turn operation
    → Owned p s
    → is_nil operation ≡ true
    → p ≡ paused
operation_paused s starting turn operation w o h = absurd (ground arith)
operation_paused s preparing turn operation w o h = absurd (ground arith)
operation_paused s executing turn operation w o h = absurd (ground arith)
operation_paused s callback turn operation w o h = absurd (ground arith)
operation_paused s paused turn operation w o h = refl
operation_paused s control turn operation w o h = absurd (ground arith)
operation_paused s aborting turn operation w o h = absurd (ground arith)
operation_paused s finished turn operation w o h = absurd o
