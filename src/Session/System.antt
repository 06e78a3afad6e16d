-- ===== src/Session/System.antt =====
-- A session with the goroutines that work on it, and what the sections leave of it.
use montygo.Prelude.{Bool, List, Option, [], false, none, some, true, ℕ, ◌+◌}
use montygo.Session.{Error, Execution, Life, missing, opened}
use montygo.Session.Control.{AfterControl, CloseAttempt, must_abort, must_finish}
use montygo.Session.Stop.{Forced, kills}

pub record System : Type 0 where
  pub life : Life
  -- The execution that the session has not finished, and the finished ones.
  pub exec : Option Execution
  pub past : List Execution
  -- The goroutines that have the execution in hand: before beginExecution; before beginSend; driving
  -- the feed; in a host callback; in a control operation; in closeOwned; in abortExecution; and
  -- before finishExecution.
  pub starters : ℕ
  pub preparers : ℕ
  pub drivers : ℕ
  pub callers : ℕ
  pub controllers : ℕ
  pub closers : ℕ
  pub aborters : ℕ
  pub enders : ℕ
  -- Control operations of a session without an execution, and goroutines between the two sections
  -- of forceExecution.
  pub holders : ℕ
  -- The attempts of Close, newest first, and the goroutines that are to settle one.
  pub attempts_made : List CloseAttempt
  pub attempters : List ℕ
  pub forcers : ℕ

abbrev pub count : Bool → ℕ
count true = 1
count false = 0

-- The section leaves the execution so, and starts abortPaused or not.
abbrev pub leaves : System → Bool → Execution → System
leaves s false e = record s { exec = some e }
leaves s true e = record s { exec = some e; aborters = s.aborters + 1 }

abbrev pub must_end : AfterControl → ℕ
must_end must_finish = 1
must_end _ = 0

abbrev pub must_stop : AfterControl → ℕ
must_stop must_abort = 1
must_stop _ = 0

-- A section of the goroutine that starts the execution: it goes on, or is about to finish it.
abbrev pub went : System → (System → System) → Option Error × Bool × Execution → System
went s go (none, spawned, e) = go (leaves s spawned e)
went s go (some err, spawned, e) = record (leaves s spawned e) { enders = s.enders + 1 }

-- abortExecution goes on with the turn, or returns.
abbrev pub aborting_by : System → Option Error × Execution → System
aborting_by s (none, e) = record s { exec = some e; aborters = s.aborters + 1 }
aborting_by s (some err, e) = record s { exec = some e; enders = s.enders + 1 }

abbrev pub forcing : System → Forced × Life × Execution → System
forcing s (kills, life, e) = record s { life = life; exec = some e; forcers = s.forcers + 1 }
forcing s (_, life, e) = record s { life = life; exec = some e }

-- A session that newSession returns.
abbrev pub new_session : System
new_session = record {
  life = record {
    next_id = 0;
    current = none;
    control_done = missing;
    close_attempt = none;
    terminal = none;
    session_done = opened;
    closing_panics = 0;
    replaced = 0;
  };
  exec = none;
  past = [];
  starters = 0;
  preparers = 0;
  drivers = 0;
  callers = 0;
  controllers = 0;
  closers = 0;
  aborters = 0;
  enders = 0;
  holders = 0;
  attempts_made = [];
  attempters = [];
  forcers = 0;
}
