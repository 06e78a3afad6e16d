-- ===== src/Pool/Checkout/Control.antt =====
-- internal/pool/checkout.go: the operations that control a session, each under its mutex.
use montygo.Prelude.{
  Bool, Bytes, List, Option, [], bytes_eq, codes, false, has_prefix, if◌then◌else◌, ltb, none, not,
  some, true, ℕ, ◌%◌, ◌*◌, ◌+◌, ◌||◌, ◌∷◌,
}
use montygo.Pool.Lease
use montygo.Pool.{Slot}
use montygo.Pool.Protocol.{
  Payload, PoolError, abort_feed, configure, dump, dump_result, failure, finished, install,
  is_suspension, load, ok, pending_none, protocol_error, reset, runtime_error,
}
use montygo.Pool.Checkout.{
  Checkout, Turned, discard, ensure_ready, fails, finish_metrics, returns, terminate,
}
use montygo.Pool.Checkout.Turn.{Io, Run, ends, if_ready, is_idle, turn, ◌then◌}
use montygo.Pool.Budget.{SessionBudget, default_max_suspensions}
use montygo.Pool.Lease.{CheckoutLease}

abbrev pub is_dump_result : Payload → Bool
is_dump_result dump_result = true
is_dump_result _ = false

abbrev pub is_ok : Payload → Bool
is_ok ok = true
is_ok _ = false

-- What the callers of a control turn do with an event: one that they do not expect costs the worker.
unfoldable pub expecting : (Payload → Bool) → Turned → Checkout → Run Turned
expecting expected (fails e) c = ends (fails e) c
expecting expected (returns ev) c =
    if expected ev.payload
    then ends (returns ev) c
    else ends (fails protocol_error) (discard (codes "discarded") c)

-- Checkout.Dump.
unfoldable pub dump_session : Io → Checkout → Run Turned
unfolding expecting
dump_session io c = turn dump io c then expecting is_dump_result

abbrev pub reset_usage : SessionBudget → SessionBudget
reset_usage b = record b { duration_budget = none; reported_exec = 0; suspensions_seen = 0 }

-- The budget of before a Load that the worker has survived, with the lower limit.
unfoldable pub restored_budget : PoolError → SessionBudget → SessionBudget → SessionBudget
restored_budget e saved b =
    if e.worker_lost
    then b
    else if ltb b.suspension_limit saved.suspension_limit
    then record saved { suspension_limit = b.suspension_limit }
    else saved

unfoldable pub after_load : SessionBudget → Turned → Checkout → Run Turned
unfolding restored_budget
after_load saved (fails e) c =
    ends (fails e) (record c { budget = restored_budget e saved c.budget })
after_load saved (returns ev) c =
    let d = record c { cwd_set = true } in
    if is_ok ev.payload || is_suspension ev.payload
    then ends (returns ev) d
    else ends (fails protocol_error) (discard (codes "discarded") d)

-- Checkout.Restore; an event Ok stands for a dump that was idle.
unfoldable pub restore : Option ℕ → Io → Checkout → Run Turned
unfolding after_load
restore mounts io c = if_ready fails (ensure_ready c) (λ d.
    turn load io
      (record d { pending = pending_none; feed_mounts = mounts; budget = reset_usage d.budget })
    then after_load d.budget)

-- Checkout.InstallDependencies, on the requirements as TrimSpace leaves them. It returns Ok, or
-- nothing when there is nothing to install.
unfoldable pub valid_requirements : List Bytes → Bool
valid_requirements [] = true
valid_requirements (r ∷ rs) =
    if bytes_eq r []
    then false
    else if has_prefix r (b'-' ∷ [])
    then false
    else valid_requirements rs

abbrev pub no_requirement : List Bytes → Bool
no_requirement [] = true
no_requirement (r ∷ rs) = false

unfoldable pub install_dependencies : List Bytes → Io → Checkout → Run (Option Turned)
unfolding valid_requirements expecting
install_dependencies rs io c =
    if_ready (λ e. some (fails e)) (ensure_ready c)
      (λ d.
        if not (is_idle d.pending)
        then ends (some (fails protocol_error)) d
        else if no_requirement rs
        then ends none d
        else if not (valid_requirements rs)
        then ends (some (fails runtime_error)) d
        else turn install io d then (λ r e. expecting is_ok r e then (λ q f. ends (some q) f)))

-- The slot that the lease gave up is released to the pool.
abbrev pub release_slot : Bool → Option Slot × CheckoutLease → Checkout → Checkout
release_slot served (none, l) c = record c { lease = l }
release_slot served (some s, l) c =
    let s' : Slot = if served then record s { served = s.served + 1 } else s in
    finish_metrics (codes "ok") (record c { lease = l; released = s' ∷ c.released })

unfoldable pub after_reset : Turned → Checkout → Run (Option PoolError)
after_reset (fails e) c =
    ends (some e) (finish_metrics (codes "error") (discard (codes "discarded") c))
after_reset (returns ev) c =
    if not (is_ok ev.payload)
    then ends (some protocol_error) (finish_metrics (codes "error") (discard (codes "discarded") c))
    else ends none (
        release_slot true (Lease.finish c.lease)
          (record c { pending = pending_none; feed_mounts = none }))

-- Checkout.Finish.
unfoldable pub finish : Io → Checkout → Run (Option PoolError)
unfolding after_reset
finish io c =
    if not (Lease.active c.lease)
    then ends none (finish_metrics (codes "error") (record c { is_cancelled = false }))
    else if c.in_flight
    then ends none (discard (codes "abandoned") c)
    else if c.websocket
    then ends none (release_slot false (Lease.finish c.lease) c)
    else turn reset io c then after_reset

unfoldable pub after_abort : Turned → Checkout → Run PoolError
after_abort (fails e) c = ends e c
after_abort (returns ev) c = ends protocol_error (discard (codes "discarded") c)

-- Checkout.Abort, which always returns an error: Runtime when the worker has ended the suspension.
unfoldable pub abort : Io → Checkout → Run PoolError
unfolding after_abort
abort io c =
    if_ready (λ e. e) (ensure_ready c)
      (λ d.
        if is_idle d.pending
        then ends protocol_error d
        else turn abort_feed io (record d { pending = pending_none; abort_flight = true })
          then after_abort)

-- Checkout.Terminate, and Abandon.
unfoldable pub terminate_session : Option ℕ → Bytes → Checkout → Bool × Checkout
terminate_session cause reason c = terminate cause reason true c

unfoldable pub abandon : Checkout → Checkout
abandon c = (terminate none (codes "abandoned") false c).1

abbrev pub hand_over : Option Slot × CheckoutLease → Checkout → Run (Option PoolError)
hand_over (none, l) c = ends (some (failure finished)) (record c { lease = l })
hand_over (some s, l) c = ends none (
    finish_metrics (codes "ok") (record c {
      lease = l;
      pending = pending_none;
      feed_mounts = none;
      retired =
          record { worker = s.worker; reason = codes "single_use"; killed = false } ∷ c.retired;
    }))

-- Checkout.Handoff of reservation.go; the pool's part is `handoff` of Pool.
unfoldable pub hand_off : Checkout → Run (Option PoolError)
hand_off c = if_ready some (ensure_ready c) (λ d.
    if not (is_idle d.pending)
    then ends (some protocol_error) d
    else if not d.websocket
    then ends (some protocol_error) d
    else hand_over (Lease.finish d.lease) d)

-- newCheckout and applyLimits: the session of a slot, with the limits of its configuration.
unfoldable pub new_checkout : Slot → Bool → Option ℕ → Option ℕ → Checkout
new_checkout s websocket max_duration_micros max_suspensions = record {
  lease = record { slot = some s; worker = s.worker; cause = none };
  pending = pending_none;
  feed_mounts = none;
  budget = record {
    duration_budget = elim max_duration_micros [
      | none ↦ none
      | some d ↦ some (d * 1000 % 18446744073709551616)
    ];
    reported_exec = 0;
    suspension_limit = elim max_suspensions [ none ↦ default_max_suspensions | some n ↦ n ];
    suspensions_seen = 0;
  };
  in_flight = false;
  is_cancelled = false;
  cwd_set = false;
  abort_flight = false;
  sent = false;
  websocket = websocket;
  outcome = none;
  retired = [];
  released = [];
  requests = [];
}

-- Pool.Checkout behind acquire: a failed Configure costs the worker.
unfoldable pub after_configure : Turned → Checkout → Run (Option PoolError)
after_configure (fails e) c = ends (some e) (discard (codes "discarded") c)
after_configure (returns ev) c =
    if not (is_ok ev.payload)
    then ends (some protocol_error) (discard (codes "discarded") c)
    else ends none c

unfoldable pub configure_session : Io → Checkout → Run (Option PoolError)
unfolding after_configure
configure_session io c = turn configure io c then after_configure
