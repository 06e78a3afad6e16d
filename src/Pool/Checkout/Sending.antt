-- ===== src/Pool/Checkout/Sending.antt =====
-- What a turn sends: its request, and at most one AbortFeed behind it.
use montygo.Prelude.{
  Bool, Bytes, List, Option, [], ap, arith, codes, false, if-either, inl, inr, ltb, none, not, refl,
  some, sym, true, ℕ, ◌&&◌, ◌∙◌, ◌∷◌, ◌≡◌, ◌⊎◌,
}
use montygo.Pool.Lease
use montygo.Pool.Protocol.{
  Event, Payload, abort_feed, complete, dump_result, error, fatal_error, function_call,
  is_suspension, name_lookup, ok, os_call, pending_none, print, resolve_futures, shutdown_dump,
  typing_error, unknown, usage_of,
}
use montygo.Pool.Checkout.{
  Checkout, IoFailure, Turned, broken, context_done, deadline_passed, discard, dispatch,
  dispatch_payload, frame_too_large, io_failure, poison, terminate,
}
use montygo.Pool.Checkout.Turn.{
  Reply, Round, Run, abort_sent, await, continues, ends_abort, is_malformed, is_print, onward,
  over_limit, react, receives, recv_fails, round, stops, terminated, undecodable,
}
use montygo.Pool.Budget.{observe}
use montygo.Pool.Checkout.Claims.{state}

-- The requests and the abort in flight are those of before.
abbrev pub Quiet : Checkout → Checkout → Type 0
Quiet c d = (d.requests ≡ c.requests) × (d.abort_flight ≡ c.abort_flight)

terminate-Quiet :
    (cause : Option ℕ) (reason : Bytes) (force : Bool) (c : Checkout)
    → Quiet c (terminate cause reason force c).1
unfolding terminate Lease.terminate
terminate-Quiet cause reason force c = ground arith

pub discard-Quiet : (reason : Bytes) (c : Checkout) → Quiet c (discard reason c)
unfolding discard
discard-Quiet reason c =
    let d = record c { pending = pending_none; feed_mounts = none; in_flight = false } in
    let (a, b) = terminate-Quiet none reason false d in (a, b)

pub io_failure-Quiet : (f : IoFailure) (c : Checkout) → Quiet c (io_failure f c).1
unfolding io_failure poison
io_failure-Quiet context_done c = discard-Quiet (codes "abandoned") c
io_failure-Quiet deadline_passed c = discard-Quiet (codes "turn_timeout") c
io_failure-Quiet frame_too_large c = discard-Quiet (codes "discarded") c
io_failure-Quiet (broken oom) c =
    if-either (λ (p : Turned × Checkout). Quiet c p.1) c.websocket
      (λ _. discard-Quiet (codes "disconnected") c)
      (λ _.
        if-either (λ (p : Turned × Checkout). Quiet c p.1) oom (λ _. discard-Quiet (codes "oom") c)
          (λ _. discard-Quiet (codes "crash") c))

dispatch_payload-Quiet :
    (p : Payload) (ev : Event) (dumping : Bool) (c : Checkout)
    → Quiet c (dispatch_payload p ev dumping c).1
unfolding dispatch_payload discard terminate Lease.terminate
dispatch_payload-Quiet (function_call id name eager) ev dumping c = ground arith
dispatch_payload-Quiet (os_call id op name bad) ev dumping c = ground arith
dispatch_payload-Quiet (name_lookup name) ev dumping c = ground arith
dispatch_payload-Quiet resolve_futures ev dumping c = ground arith
dispatch_payload-Quiet (complete has_value) ev dumping c = ground arith
dispatch_payload-Quiet (error has_exception) ev dumping c = ground arith
dispatch_payload-Quiet typing_error ev dumping c = ground arith
dispatch_payload-Quiet ok ev dumping c = ground arith
dispatch_payload-Quiet dump_result ev dumping c = ground arith
dispatch_payload-Quiet fatal_error ev dumping c = ground arith
dispatch_payload-Quiet shutdown_dump ev dumping c = ground arith
dispatch_payload-Quiet print ev dumping c = ground arith
dispatch_payload-Quiet unknown ev dumping c = ground arith

dispatch-Quiet : (ev : Event) (dumping : Bool) (c : Checkout) → Quiet c (dispatch ev dumping c).1
unfolding dispatch
dispatch-Quiet ev dumping c = dispatch_payload-Quiet ev.payload ev dumping c

-- A round that stops sends nothing; one that continues may have sent the AbortFeed.
abbrev Rounds : Checkout → Round → Type 0
Rounds c (stops r d) = d.requests ≡ c.requests
Rounds c (continues d) =
    Quiet c d
    ⊎ ((c.abort_flight ≡ false) × (d.abort_flight ≡ true) × (d.requests ≡ abort_feed ∷ c.requests))

over_limit-Rounds :
    (aborting : Option IoFailure) (ev : Event) (dumping : Bool) (c : Checkout)
    → c.abort_flight ≡ false
    → Rounds c (over_limit aborting ev dumping c)
unfolding over_limit
over_limit-Rounds aborting ev dumping c h =
    if-either (Rounds c) (is_malformed ev.payload) (λ _. (dispatch-Quiet ev dumping c).0)
      (λ _. aborted aborting)
  where
    aborted : (a : Option IoFailure) → Rounds c (abort_sent a c)
    aborted none = inr (h, refl, refl)
    aborted (some f) = (io_failure-Quiet f c).0

react-Rounds :
    (aborting : Option IoFailure) (ev : Event) (dumping : Bool) (c : Checkout)
    → Rounds c (react aborting ev dumping c)
unfolding react
react-Rounds aborting ev dumping c =
    let d = record c { budget = observe (usage_of ev) c.budget } in
    let e = record d { abort_flight = false } in
    if-either (Rounds c) d.abort_flight
      (λ h.
        if-either (Rounds c) (not (ends_abort ev.payload))
          (λ _. (discard-Quiet (codes "discarded") e).0)
          (λ _. (dispatch-Quiet ev dumping (record e { in_flight = false })).0))
      (λ h.
        if-either (Rounds c)
          (is_suspension ev.payload && ltb d.budget.suspension_limit d.budget.suspensions_seen)
          (λ _. over_limit-Rounds aborting ev dumping d h)
          (λ _. (dispatch-Quiet ev dumping (record d { in_flight = false })).0))

round-Rounds :
    (aborting : Option IoFailure) (dumping : Bool) (reply : Reply) (c : Checkout)
    → Rounds c (round aborting dumping reply c)
unfolding round
round-Rounds aborting dumping (terminated cause reason) c =
    inl (terminate-Quiet cause reason true c)
round-Rounds aborting dumping (recv_fails f) c = (io_failure-Quiet f c).0
round-Rounds aborting dumping undecodable c = (discard-Quiet (codes "discarded") c).0
round-Rounds aborting dumping (receives ev) c =
    if-either (Rounds c) (is_print ev.payload) (λ _. inl (refl, refl))
      (λ _. react-Rounds aborting ev dumping c)

-- No abort, or one where none was in flight.
abbrev pub Aborts : Checkout → Checkout → Type 0
Aborts c d =
    (d.requests ≡ c.requests) ⊎ ((c.abort_flight ≡ false) × (d.requests ≡ abort_feed ∷ c.requests))

onward-Aborts :
    (c : Checkout) (r : Round) (go : Checkout → Run Turned)
    → Rounds c r
    → ((d : Checkout) → Aborts d (state (go d)))
    → Aborts c (state (onward r go))
onward-Aborts c (stops r d) go h g = inl h
onward-Aborts c (continues d) go h g = joined h (g d)
  where
    joined : Rounds c (continues d) → Aborts d (state (go d)) → Aborts c (state (go d))
    joined (inl (same, flight)) (inl k) = inl (k ∙ same)
    joined (inl (same, flight)) (inr (f, k)) = inr (sym flight ∙ f, k ∙ ap (◌∷◌ abort_feed) same)
    joined (inr (f, flying, s)) (inl k) = inr (f, k ∙ s)
    joined (inr (f, flying, s)) (inr (g, k)) = absurd (ground arith)

pub await-Aborts :
    (aborting : Option IoFailure) (dumping : Bool) (replies : List Reply) (c : Checkout)
    → Aborts c (state (await aborting dumping replies c))
unfolding await
await-Aborts aborting dumping [] c = inl refl
await-Aborts aborting dumping (reply ∷ replies) c =
    onward-Aborts c (round aborting dumping reply c) (await aborting dumping replies)
      (round-Rounds aborting dumping reply c) (await-Aborts aborting dumping replies)
