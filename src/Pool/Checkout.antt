-- ===== src/Pool/Checkout.antt =====
-- internal/pool/checkout.go: one worker dedicated to one session, and a turn of its protocol.
-- The session's mutex makes each operation one step; only Terminate comes between. What the worker,
-- the encoder, the context and the observer do in a turn is the argument of type Io. A mount
-- table is a number.
pub mod Turn
pub mod Operations
pub mod Control
pub mod Claims
pub mod Session
pub mod Once
pub mod Returned
pub mod Suspensions
pub mod Sending
pub mod Requests
pub mod Refusals
mod Examples
use montygo.Prelude.{
  Bool, Bytes, List, Option, codes, false, if◌then◌else◌, none, not, some, true, ℕ, ◌==◌, ◌||◌, ◌∷◌,
}
use montygo.Pool.{Slot}
use montygo.Pool.Lease
use montygo.Pool.Lease.{CheckoutLease, active}
use montygo.Pool.Protocol.{
  Event, Payload, Pending, PoolError, Request, cancelled, complete, crashed, disconnected,
  dump_result, error, failure, fatal_error, finished, function_call, lost, name_lookup, ok, os_call,
  pending_function, pending_futures, pending_lookup, pending_none, pending_os, print,
  protocol_error, resolve_futures, runtime, shutdown, shutdown_dump, timeout, typing, typing_error,
  unknown,
}
use montygo.Pool.Budget.{SessionBudget}

pub record Retired : Type 0 where
  pub worker : ℕ
  pub reason : Bytes
  pub killed : Bool

pub record Checkout : Type 0 where
  pub lease : CheckoutLease
  pub pending : Pending
  pub feed_mounts : Option ℕ
  pub budget : SessionBudget
  pub in_flight : Bool
  pub is_cancelled : Bool
  pub cwd_set : Bool
  pub abort_flight : Bool
  pub sent : Bool
  pub websocket : Bool
  -- What metricsOnce has reported, the calls of the pool's retireLease and release, and the
  -- requests that reached the wire, the newest first.
  pub outcome : Option Bytes
  pub retired : List Retired
  pub released : List Slot
  pub requests : List Request

abbrev first_outcome : Option Bytes → Bytes → Option Bytes
first_outcome none reason = some reason
first_outcome (some reported) reason = some reported

-- Checkout.finishMetrics.
abbrev pub finish_metrics : Bytes → Checkout → Checkout
finish_metrics reason c = record c { outcome = first_outcome c.outcome reason }

abbrev retire_won : Bytes → Bool → Checkout → Option ℕ × CheckoutLease → Bool × Checkout
retire_won reason force c (none, l) = (false, record c { lease = l })
retire_won reason force c (some w, l) = (
  true,
  finish_metrics reason (record c {
    lease = l;
    retired = record { worker = w; reason = reason; killed = force || not c.websocket } ∷ c.retired;
  }),
)

-- Checkout.terminate: whether it won the lease. The sections of lease.terminate, retireLease and
-- finishMetrics, which follow one another in the source, are one step here.
pub terminate : Option ℕ → Bytes → Bool → Checkout → Bool × Checkout
terminate cause reason force c = retire_won reason force c (Lease.terminate cause c.lease)

-- Checkout.discard, and drop.
pub discard : Bytes → Checkout → Checkout
unfolding terminate
discard reason c =
    (terminate none reason false
      (record c { pending = pending_none; feed_mounts = none; in_flight = false })).1

-- Checkout.ensureReady: an error, or none.
pub ensure_ready : Checkout → Option PoolError × Checkout
unfolding discard
ensure_ready c =
    if c.is_cancelled
    then (some (failure cancelled), record c { is_cancelled = false })
    else if not (active c.lease)
    then (some (failure finished), c)
    else if c.in_flight
    then (some (failure cancelled), discard (codes "discarded") c)
    else (none, c)

-- How sending or receiving fails: the caller's context is done, the deadline of the turn has passed,
-- the frame is too large, or the connection is gone; then a process may have exited with status 65.
pub data IoFailure : Type 0 where
  context_done deadline_passed frame_too_large : IoFailure
  broken : Bool → IoFailure

pub data Turned : Type 0 where
  returns : Event → Turned
  fails : PoolError → Turned

-- Checkout.poison and ioFailure with poisonTimeout.
poison : Bool → Checkout → Turned × Checkout
unfolding discard
poison out_of_memory c =
    if c.websocket
    then (fails (lost disconnected), discard (codes "disconnected") c)
    else if out_of_memory
    then (fails (lost runtime), discard (codes "oom") c)
    else (fails (lost crashed), discard (codes "crash") c)

pub io_failure : IoFailure → Checkout → Turned × Checkout
unfolding discard poison
io_failure context_done c =
    (fails (failure cancelled), record (discard (codes "abandoned") c) { is_cancelled = true })
io_failure deadline_passed c = (fails (lost timeout), discard (codes "turn_timeout") c)
io_failure frame_too_large c = (fails protocol_error, discard (codes "discarded") c)
io_failure (broken out_of_memory) c = poison out_of_memory c

abbrev discarded : Checkout → Turned × Checkout
unfolding discard
discarded c = (fails protocol_error, discard (codes "discarded") c)

abbrev suspended : Event → Pending → Checkout → Turned × Checkout
suspended ev p c = (returns ev, record c { pending = p })

abbrev idle : Checkout → Checkout
idle c = record c { pending = pending_none; feed_mounts = none }

-- Checkout.dispatch; the Boolean says that the request was Dump.
pub dispatch_payload : Payload → Event → Bool → Checkout → Turned × Checkout
unfolding discard
dispatch_payload (function_call id name eager) ev dumping c =
    suspended ev (pending_function id name eager) c
dispatch_payload (os_call id op name bad) ev dumping c =
    if op == 0
    then discarded c
    else if bad
    then discarded c
    else suspended ev (pending_os id name) c
dispatch_payload (name_lookup name) ev dumping c = suspended ev pending_lookup c
dispatch_payload resolve_futures ev dumping c = suspended ev pending_futures c
dispatch_payload (complete has_value) ev dumping c =
    if not has_value then discarded (idle c) else (returns ev, idle c)
dispatch_payload (error has_exception) ev dumping c =
    let d = if not dumping then idle c else c in
    if not has_exception then discarded d else (fails (failure runtime), d)
dispatch_payload typing_error ev dumping c = (fails (failure typing), idle c)
dispatch_payload ok ev dumping c = (returns ev, c)
dispatch_payload dump_result ev dumping c = (returns ev, c)
dispatch_payload fatal_error ev dumping c = (fails (lost crashed), discard (codes "fatal") c)
dispatch_payload shutdown_dump ev dumping c =
    if not c.websocket
    then discarded c
    else (fails (lost shutdown), discard (codes "disconnected") c)
dispatch_payload print ev dumping c = discarded c
dispatch_payload unknown ev dumping c = discarded c

pub dispatch : Event → Bool → Checkout → Turned × Checkout
unfolding dispatch_payload
dispatch ev dumping c = dispatch_payload ev.payload ev dumping c
