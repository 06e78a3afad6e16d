-- ===== src/Pool/Checkout/Claims.antt =====
-- A session gives its worker back exactly once: to the reaper or to the idle workers.
use montygo.Prelude.{
  Bool, Bytes, List, Option, [], arith, codes, false, if-either, if◌then◌else◌, length, ltb, none,
  not, some, true, ℕ, ◌&&◌, ◌+◌, ◌∙◌, ◌∷◌, ◌≡◌,
}
use montygo.Pool.Lease
use montygo.Wire.Frame
use montygo.Pool.Checkout.{
  Checkout, IoFailure, Turned, broken, context_done, deadline_passed, discard, dispatch,
  dispatch_payload, ensure_ready, fails, frame_too_large, io_failure, poison, terminate,
}
use montygo.Pool.Checkout.Turn.{
  Io, Prepared, Reply, Round, Run, abort_sent, await, blocked, continues, ends, ends_abort, frame,
  if_ready, is_malformed, is_print, onward, over_limit, react, receives, recv_fails, round, start,
  start_prepared, start_sent, stops, terminated, too_deep, turn, unconvertible, undecodable, ◌then◌,
}
use montygo.Pool.Protocol.{
  Event, Payload, PoolError, Request, complete, dump_result, error, fatal_error, function_call,
  is_dump, is_suspension, name_lookup, ok, os_call, print, resolve_futures, shutdown_dump,
  typing_error, unknown, usage_of,
}
use montygo.Pool.Budget.{observe}

-- How often the worker was given back, and whether it is still held.
abbrev pub claims : Checkout → ℕ
claims c = length c.retired + length c.released + (if Lease.active c.lease then 1 else 0)

abbrev pub is_reported : Checkout → Bool
is_reported c = elim c.outcome [ none ↦ false | some reason ↦ true ]

pub record Kept (c d : Checkout) : Type 0 where
  pub conserved : claims d ≡ claims c
  pub gone : Lease.active c.lease ≡ false → Lease.active d.lease ≡ false
  pub reported :
      (Lease.active c.lease ≡ false → is_reported c ≡ true)
      → Lease.active d.lease ≡ false
      → is_reported d ≡ true
  pub same_kind : d.websocket ≡ c.websocket

pub Kept-refl : (c : Checkout) → Kept c c
Kept-refl c = ground arith

pub Kept-trans : {c d e : Checkout} → Kept c d → Kept d e → Kept c e
Kept-trans f g = record {
  conserved = g.conserved ∙ f.conserved;
  gone = λ h. g.gone (f.gone h);
  reported = λ h. g.reported (f.reported h);
  same_kind = g.same_kind ∙ f.same_kind;
}

pub terminate-Kept :
    (cause : Option ℕ) (reason : Bytes) (force : Bool) (c : Checkout)
    → Kept c (terminate cause reason force c).1
unfolding terminate Lease.terminate Lease.active
terminate-Kept cause reason force c = ground arith

pub discard-Kept : (reason : Bytes) (c : Checkout) → Kept c (discard reason c)
unfolding discard terminate Lease.terminate Lease.active
discard-Kept reason c = ground arith

pub ensure_ready-Kept : (c : Checkout) → Kept c (ensure_ready c).1
unfolding ensure_ready discard terminate Lease.terminate Lease.active
ensure_ready-Kept c = ground arith

pub io_failure-Kept : (f : IoFailure) (c : Checkout) → Kept c (io_failure f c).1
unfolding io_failure poison discard terminate Lease.terminate Lease.active
io_failure-Kept context_done c = ground arith
io_failure-Kept deadline_passed c = ground arith
io_failure-Kept frame_too_large c = ground arith
io_failure-Kept (broken oom) c = ground arith

dispatch_payload-Kept :
    (p : Payload) (ev : Event) (dumping : Bool) (c : Checkout)
    → Kept c (dispatch_payload p ev dumping c).1
unfolding dispatch_payload discard terminate Lease.terminate Lease.active
dispatch_payload-Kept (function_call id name eager) ev dumping c = ground arith
dispatch_payload-Kept (os_call id op name bad) ev dumping c = ground arith
dispatch_payload-Kept (name_lookup name) ev dumping c = ground arith
dispatch_payload-Kept resolve_futures ev dumping c = ground arith
dispatch_payload-Kept (complete has_value) ev dumping c = ground arith
dispatch_payload-Kept (error has_exception) ev dumping c = ground arith
dispatch_payload-Kept typing_error ev dumping c = ground arith
dispatch_payload-Kept ok ev dumping c = ground arith
dispatch_payload-Kept dump_result ev dumping c = ground arith
dispatch_payload-Kept fatal_error ev dumping c = ground arith
dispatch_payload-Kept shutdown_dump ev dumping c = ground arith
dispatch_payload-Kept print ev dumping c = ground arith
dispatch_payload-Kept unknown ev dumping c = ground arith

pub dispatch-Kept : (ev : Event) (dumping : Bool) (c : Checkout) → Kept c (dispatch ev dumping c).1
unfolding dispatch
dispatch-Kept ev dumping c = dispatch_payload-Kept ev.payload ev dumping c

-- The state that a round leaves.
abbrev pub after : Round → Checkout
after (stops r d) = d
after (continues d) = d

abort_sent-Kept :
    (aborting : Option IoFailure) (c : Checkout) → Kept c (after (abort_sent aborting c))
abort_sent-Kept none c = ground arith
abort_sent-Kept (some f) c = io_failure-Kept f c

over_limit-Kept :
    (aborting : Option IoFailure) (ev : Event) (dumping : Bool) (c : Checkout)
    → Kept c (after (over_limit aborting ev dumping c))
unfolding over_limit
over_limit-Kept aborting ev dumping c =
    if-either (λ r. Kept c (after r)) (is_malformed ev.payload) (λ e. dispatch-Kept ev dumping c)
      (λ e. abort_sent-Kept aborting c)

react-Kept :
    (aborting : Option IoFailure) (ev : Event) (dumping : Bool) (c : Checkout)
    → Kept c (after (react aborting ev dumping c))
unfolding react
react-Kept aborting ev dumping c =
    let d = record c { budget = observe (usage_of ev) c.budget } in
    let e = record d { abort_flight = false } in
    if-either (λ r. Kept c (after r)) d.abort_flight
      (λ h.
        if-either (λ r. Kept c (after r)) (not (ends_abort ev.payload))
          (λ g. Kept-trans {c = c} {d = e} (ground arith) (discard-Kept (codes "discarded") e))
          (λ g.
            Kept-trans {c = c} {d = record e { in_flight = false }} (ground arith)
              (dispatch-Kept ev dumping (record e { in_flight = false }))))
      (λ h.
        if-either (λ r. Kept c (after r))
          (is_suspension ev.payload && ltb d.budget.suspension_limit d.budget.suspensions_seen)
          (λ g. Kept-trans {c = c} {d = d} (ground arith) (over_limit-Kept aborting ev dumping d))
          (λ g.
            Kept-trans {c = c} {d = record d { in_flight = false }} (ground arith)
              (dispatch-Kept ev dumping (record d { in_flight = false }))))

round-Kept :
    (aborting : Option IoFailure) (dumping : Bool) (reply : Reply) (c : Checkout)
    → Kept c (after (round aborting dumping reply c))
unfolding round
round-Kept aborting dumping (terminated cause reason) c = terminate-Kept cause reason true c
round-Kept aborting dumping (recv_fails f) c = io_failure-Kept f c
round-Kept aborting dumping undecodable c = discard-Kept (codes "discarded") c
round-Kept aborting dumping (receives ev) c =
    if-either (λ r. Kept c (after r)) (is_print ev.payload) (λ e. Kept-refl c)
      (λ e. react-Kept aborting ev dumping c)

-- The state of a run, finished or waiting.
abbrev pub state {ℓ} : {A : Type ℓ} → Run A → Checkout
state (blocked c) = c
state (ends a c) = c

onward-Kept :
    (c : Checkout) (r : Round) (go : Checkout → Run Turned)
    → Kept c (after r)
    → ((d : Checkout) → Kept d (state (go d)))
    → Kept c (state (onward r go))
onward-Kept c (stops r d) go h g = h
onward-Kept c (continues d) go h g = Kept-trans h (g d)

await-Kept :
    (aborting : Option IoFailure) (dumping : Bool) (replies : List Reply) (c : Checkout)
    → Kept c (state (await aborting dumping replies c))
unfolding await
await-Kept aborting dumping [] c = Kept-refl c
await-Kept aborting dumping (reply ∷ replies) c =
    onward-Kept c (round aborting dumping reply c) (await aborting dumping replies)
      (round-Kept aborting dumping reply c) (await-Kept aborting dumping replies)

start_sent-Kept :
    (sending : Option IoFailure) (req : Request) (io : Io) (c : Checkout)
    → Kept c (state (start_sent sending req io c))
unfolding start_sent
start_sent-Kept (some f) req io c =
    let d = record c { in_flight = true; sent = false } in
    Kept-trans {c = c} {d = d} (ground arith) (io_failure-Kept f d)
start_sent-Kept none req io c =
    let d = record c { in_flight = true; sent = true; requests = req ∷ c.requests } in
    Kept-trans {c = c} {d = d} (ground arith) (await-Kept io.aborting (is_dump req) io.replies d)

start_prepared-Kept :
    (prepared : Prepared) (req : Request) (io : Io) (c : Checkout)
    → Kept c (state (start_prepared prepared req io c))
unfolding start_prepared
start_prepared-Kept too_deep req io c = Kept-refl c
start_prepared-Kept unconvertible req io c = Kept-refl c
start_prepared-Kept (frame n) req io c =
    if-either {A = Run Turned} (λ r. Kept c (state r)) (ltb Frame.max_frame_len n)
      (λ g. Kept-refl c) (λ g. start_sent-Kept io.sending req io c)

start-Kept : (req : Request) (io : Io) (c : Checkout) → Kept c (state (start req io c))
unfolding start
start-Kept req io c =
    if-either {A = Run Turned} (λ r. Kept c (state r)) (not io.observer_open) (λ h. Kept-refl c)
      (λ h. start_prepared-Kept io.prepared req io c)

pub if_ready-Kept {ℓ} :
    {A : Type ℓ} (fail : PoolError → A) (go : Checkout → Run A) (c : Checkout)
    → ((d : Checkout) → Kept d (state (go d)))
    → Kept c (state (if_ready fail (ensure_ready c) go))
if_ready-Kept fail go c h = ready (ensure_ready c) (ensure_ready-Kept c)
  where
    ready : (p : Option PoolError × Checkout) → Kept c p.1 → Kept c (state (if_ready fail p go))
    ready (some e, d) k = k
    ready (none, d) k = Kept-trans k (h d)

pub turn-Kept : (req : Request) (io : Io) (c : Checkout) → Kept c (state (turn req io c))
unfolding turn
turn-Kept req io c = if_ready-Kept fails (start req io) c (start-Kept req io)

pub then-Kept {ℓ κ} :
    {A : Type ℓ} {B : Type κ} (c : Checkout) (m : Run A) (go : A → Checkout → Run B)
    → Kept c (state m)
    → ((a : A) (d : Checkout) → Kept d (state (go a d)))
    → Kept c (state (m then go))
then-Kept c (blocked d) go h g = h
then-Kept c (ends a d) go h g = Kept-trans h (g a d)
