-- ===== src/Pool/Checkout/Suspensions.antt =====
-- What a turn leaves behind when it ends: the pending suspension, the suspension limit, and the
-- worker that an error has cost.
use montygo.Prelude.{
  Bool, List, Option, [], ap, arith, false, if-either, ltb, none, not, refl, some, subst, true,
  ◌&&◌, ◌==◌, ◌∙◌, ◌∷◌, ◌≡◌, ◌≤◌,
}
use montygo.Wire.Frame
use montygo.Pool.Lease
use montygo.Pool.Protocol.{
  Event, Payload, Pending, PoolError, Request, complete, dump_result, error, fatal_error,
  function_call, is_dump, is_suspension, name_lookup, ok, os_call, pending_function,
  pending_futures, pending_lookup, pending_none, pending_os, print, resolve_futures, shutdown_dump,
  typing_error, unknown, usage_of,
}
use montygo.Pool.Checkout.{
  Checkout, IoFailure, Turned, broken, context_done, deadline_passed, discard, discarded, dispatch,
  dispatch_payload, ensure_ready, fails, frame_too_large, io_failure, poison, returns, terminate,
}
use montygo.Pool.Checkout.Turn.{
  Io, Prepared, Reply, Round, Run, abort_sent, await, blocked, continues, ends, ends_abort, frame,
  if_ready, is_malformed, is_print, onward, over_limit, react, receives, recv_fails, round, start,
  start_prepared, start_sent, stops, terminated, too_deep, turn, unconvertible, undecodable,
}
use montygo.Pool.Budget.{observe}

-- The suspension that an event leaves pending.
abbrev pub pending_of : Payload → Pending
pending_of (function_call id name eager) = pending_function id name eager
pending_of (os_call id op name bad) = pending_os id name
pending_of (name_lookup name) = pending_lookup
pending_of resolve_futures = pending_futures
pending_of _ = pending_none

abbrev pub IsSettled : Turned → Checkout → Type 0
IsSettled (returns ev) c =
    (c.in_flight ≡ false)
    × (is_suspension ev.payload ≡ true
        → (c.budget.suspensions_seen ≤ c.budget.suspension_limit)
          × (c.pending ≡ pending_of ev.payload)
          × (is_malformed ev.payload ≡ false))
IsSettled (fails e) c =
    (c.in_flight ≡ false) × (e.worker_lost ≡ true → Lease.active c.lease ≡ false)

abbrev Leaves : Turned × Checkout → Type 0
Leaves p = IsSettled p.0 p.1

io_failure-IsSettled :
    (f : IoFailure) (c : Checkout) → IsSettled (io_failure f c).0 (io_failure f c).1
unfolding io_failure poison discard terminate Lease.terminate Lease.active
io_failure-IsSettled context_done c = ground arith
io_failure-IsSettled deadline_passed c = ground arith
io_failure-IsSettled frame_too_large c = ground arith
io_failure-IsSettled (broken oom) c =
    if-either Leaves c.websocket (λ _. ground arith)
      (λ _. if-either Leaves oom (λ _. ground arith) (λ _. ground arith))

-- What the loop has checked before it dispatches.
abbrev IsAllowed : Payload → Checkout → Type 0
IsAllowed p c =
    (is_malformed p ≡ false
      → (c.in_flight ≡ false)
        × (is_suspension p ≡ true → c.budget.suspensions_seen ≤ c.budget.suspension_limit))

dispatch_payload-IsSettled :
    (ev : Event) (p : Payload) (dumping : Bool) (c : Checkout)
    → ev.payload ≡ p
    → IsAllowed p c
    → IsSettled (dispatch_payload p ev dumping c).0 (dispatch_payload p ev dumping c).1
unfolding dispatch_payload discard terminate Lease.terminate Lease.active
dispatch_payload-IsSettled ev (function_call id name eager) dumping c e h = ground arith
dispatch_payload-IsSettled ev (os_call id op name bad) dumping c e h =
    if-either Leaves (op == 0) (λ _. ground arith)
      (λ f. if-either Leaves bad (λ _. ground arith) (λ g. ground arith))
dispatch_payload-IsSettled ev (name_lookup name) dumping c e h = ground arith
dispatch_payload-IsSettled ev resolve_futures dumping c e h = ground arith
dispatch_payload-IsSettled ev (complete has_value) dumping c e h =
    if-either Leaves (not has_value) (λ _. ground arith) (λ _. ground arith)
dispatch_payload-IsSettled ev (error has_exception) dumping c e h =
    if-either Leaves (not has_exception)
      (λ _.
        if-either (λ d. Leaves (discarded d)) (not dumping) (λ _. ground arith) (λ _. ground arith))
      (λ _. ground arith)
dispatch_payload-IsSettled ev typing_error dumping c e h = ground arith
dispatch_payload-IsSettled ev ok dumping c e h = ground arith
dispatch_payload-IsSettled ev dump_result dumping c e h = ground arith
dispatch_payload-IsSettled ev fatal_error dumping c e h = ground arith
dispatch_payload-IsSettled ev shutdown_dump dumping c e h =
    if-either Leaves (not c.websocket) (λ _. ground arith) (λ _. ground arith)
dispatch_payload-IsSettled ev print dumping c e h = ground arith
dispatch_payload-IsSettled ev unknown dumping c e h = ground arith

dispatch-IsSettled :
    (ev : Event) (dumping : Bool) (c : Checkout)
    → IsAllowed ev.payload c
    → Leaves (dispatch ev dumping c)
unfolding dispatch
dispatch-IsSettled ev dumping c h = dispatch_payload-IsSettled ev ev.payload dumping c refl h

abbrev Stops : Round → Type 0
Stops (stops r c) = IsSettled r c
Stops (continues c) = Unit

over_limit-Stops :
    (aborting : Option IoFailure) (ev : Event) (dumping : Bool) (c : Checkout)
    → Stops (over_limit aborting ev dumping c)
unfolding over_limit
over_limit-Stops aborting ev dumping c =
    if-either Stops (is_malformed ev.payload) (λ e. dispatch-IsSettled ev dumping c (ground arith))
      (λ e. aborted aborting)
  where
    aborted : (a : Option IoFailure) → Stops (abort_sent a c)
    aborted none = tt
    aborted (some f) = io_failure-IsSettled f c

ends_abort-suspension : (p : Payload) → ends_abort p ≡ true → is_suspension p ≡ false
ends_abort-suspension p h = ground arith

react-Stops :
    (aborting : Option IoFailure) (ev : Event) (dumping : Bool) (c : Checkout)
    → Stops (react aborting ev dumping c)
unfolding react
react-Stops aborting ev dumping c =
    let d = record c { budget = observe (usage_of ev) c.budget } in
    let e = record d { abort_flight = false } in
    if-either Stops d.abort_flight
      (λ h.
        if-either Stops (not (ends_abort ev.payload))
          (λ g. unfold discard terminate Lease.terminate in ground arith)
          (λ g.
            let over = ends_abort-suspension ev.payload (ground arith) in
            dispatch-IsSettled ev dumping (record e { in_flight = false }) (λ _. (refl, λ s. cc))))
      (λ h.
        if-either Stops
          (is_suspension ev.payload && ltb d.budget.suspension_limit d.budget.suspensions_seen)
          (λ g. over_limit-Stops aborting ev dumping d)
          (λ g.
            dispatch-IsSettled ev dumping (record d { in_flight = false })
              (λ _. (refl, λ s. ground arith))))

abbrev Ends : Run Turned → Type 0
Ends (blocked c) = Unit
Ends (ends r c) = IsSettled r c

round-Stops :
    (aborting : Option IoFailure) (dumping : Bool) (reply : Reply) (c : Checkout)
    → Stops (round aborting dumping reply c)
unfolding round discard terminate Lease.terminate
round-Stops aborting dumping (terminated cause reason) c = tt
round-Stops aborting dumping (recv_fails f) c = io_failure-IsSettled f c
round-Stops aborting dumping undecodable c = ground arith
round-Stops aborting dumping (receives ev) c =
    if-either Stops (is_print ev.payload) (λ e. tt) (λ e. react-Stops aborting ev dumping c)

onward-Ends :
    (r : Round) (go : Checkout → Run Turned)
    → Stops r
    → ((d : Checkout) → Ends (go d))
    → Ends (onward r go)
onward-Ends (stops r d) go h g = h
onward-Ends (continues d) go h g = g d

await-Ends :
    (aborting : Option IoFailure) (dumping : Bool) (replies : List Reply) (c : Checkout)
    → Ends (await aborting dumping replies c)
unfolding await
await-Ends aborting dumping [] c = tt
await-Ends aborting dumping (reply ∷ replies) c =
    onward-Ends (round aborting dumping reply c) (await aborting dumping replies)
      (round-Stops aborting dumping reply c) (await-Ends aborting dumping replies)

start_sent-Ends :
    (sending : Option IoFailure) (req : Request) (io : Io) (c : Checkout)
    → Ends (start_sent sending req io c)
unfolding start_sent
start_sent-Ends (some f) req io c =
    io_failure-IsSettled f (record c { in_flight = true; sent = false })
start_sent-Ends none req io c = await-Ends io.aborting (is_dump req) io.replies _

start-Ends : (req : Request) (io : Io) (c : Checkout) → c.in_flight ≡ false → Ends (start req io c)
unfolding start start_prepared
start-Ends req io c h =
    if-either Ends (not io.observer_open) (λ _. ground arith) (λ _. prepared io.prepared)
  where
    prepared : (p : Prepared) → Ends (start_prepared p req io c)
    prepared too_deep = ground arith
    prepared unconvertible = ground arith
    prepared (frame n) =
        if-either Ends (ltb Frame.max_frame_len n) (λ _. ground arith)
          (λ _. start_sent-Ends io.sending req io c)

-- What ensureReady leaves: an error that did not cost the worker, or the session as it was.
abbrev IsReady : Checkout → Option PoolError × Checkout → Type 0
IsReady c (some e, d) = IsSettled (fails e) d
IsReady c (none, d) = d ≡ c

ensure_ready-IsReady : (c : Checkout) → c.in_flight ≡ false → IsReady c (ensure_ready c)
unfolding ensure_ready
ensure_ready-IsReady c h =
    if-either (IsReady c) c.is_cancelled (λ _. ground arith)
      (λ _.
        if-either (IsReady c) (not (Lease.active c.lease)) (λ _. ground arith)
          (λ _. if-either (IsReady c) c.in_flight (λ flying. absurd (ground arith)) (λ _. refl)))

-- When a turn that starts with no request in flight ends, no request is in flight. If it returns an
-- event that suspends the sandbox, then the suspensions seen are within the limit, that suspension is
-- the pending one, and an OS call is well-formed. If it fails with an error that says that the worker
-- is lost, then the lease is not active any more.
pub turn-IsSettled :
    (req : Request) (io : Io) (c d : Checkout) (r : Turned)
    → c.in_flight ≡ false
    → turn req io c ≡ ends r d
    → IsSettled r d
unfolding turn
turn-IsSettled req io c d r h e = subst Ends e (ready (ensure_ready c) (ensure_ready-IsReady c h))
  where
    ready : (p : Option PoolError × Checkout) → IsReady c p → Ends (if_ready fails p (start req io))
    ready (some e, d) k = k
    ready (none, d) k = start-Ends req io d (ap (λ (x : Checkout). x.in_flight) k ∙ h)
