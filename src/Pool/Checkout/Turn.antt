-- ===== src/Pool/Checkout/Turn.antt =====
-- internal/pool/checkout.go: a turn, from the request to the event that ends it.
use montygo.Prelude.{
  Bool, Bytes, List, Option, [], codes, false, if◌then◌else◌, ltb, none, not, some, true, ℕ, ◌&&◌,
  ◌==◌, ◌||◌, ◌∷◌,
}
use montygo.Wire.Frame
use montygo.Pool.Protocol.{
  Event, Payload, Pending, PoolError, Request, abort_feed, error, failure, fatal_error, finished,
  is_dump, is_suspension, os_call, pending_none, print, protocol_error, runtime_error,
  shutdown_dump, usage_of,
}
use montygo.Pool.Checkout.{
  Checkout, IoFailure, Turned, discard, dispatch, ensure_ready, fails, io_failure, terminate,
}
use montygo.Pool.Budget.{observe}

-- How a request encodes: its values nest too deeply, or do not convert, or it is a frame.
pub data Prepared : Type 0 where
  too_deep unconvertible : Prepared
  frame : ℕ → Prepared

-- What the turn meets next while it blocked: a frame that decodes to an event or does not, a failure to
-- receive, or a call of Terminate from outside.
pub data Reply : Type 0 where
  receives : Event → Reply
  undecodable : Reply
  recv_fails : IoFailure → Reply
  terminated : Option ℕ → Bytes → Reply

pub record Io : Type 0 where
  pub observer_open : Bool
  pub prepared : Prepared
  pub sending : Option IoFailure
  pub replies : List Reply
  pub aborting : Option IoFailure

-- The result of an operation: still waiting for its worker, or done.
pub data Run {ℓ} (A : Type ℓ) : Type ℓ where
  blocked : Checkout → Run A
  ends : A → Checkout → Run A

abbrev pub ended : Turned × Checkout → Run Turned
ended (r, c) = ends r c

-- One round of the loop of Checkout.turn: it returns, or continues.
pub data Round : Type 0 where
  stops : Turned → Checkout → Round
  continues : Checkout → Round

abbrev pub stopped : Turned × Checkout → Round
stopped (r, c) = stops r c

abbrev pub is_malformed : Payload → Bool
is_malformed (os_call id op name bad) = op == 0 || bad
is_malformed _ = false

abbrev pub ends_abort : Payload → Bool
ends_abort (error has_exception) = true
ends_abort fatal_error = true
ends_abort shutdown_dump = true
ends_abort _ = false

abbrev pub settled : Event → Bool → Checkout → Round
settled ev dumping c = stopped (dispatch ev dumping (record c { in_flight = false }))

abbrev pub abort_sent : Option IoFailure → Checkout → Round
abort_sent (some f) c = stopped (io_failure f c)
abort_sent none c = continues (record c { abort_flight = true; requests = abort_feed ∷ c.requests })

-- The AbortFeed that answers a suspension over the limit.
unfoldable pub over_limit : Option IoFailure → Event → Bool → Checkout → Round
over_limit aborting ev dumping c =
    if is_malformed ev.payload then stopped (dispatch ev dumping c) else abort_sent aborting c

-- What the loop does with an event that is not a print, once the budget has observed it.
unfoldable pub react : Option IoFailure → Event → Bool → Checkout → Round
unfolding over_limit
react aborting ev dumping c =
    let d = record c { budget = observe (usage_of ev) c.budget } in
    if d.abort_flight
    then (if not (ends_abort ev.payload)
        then stops (fails protocol_error)
            (discard (codes "discarded") (record d { abort_flight = false }))
        else settled ev dumping (record d { abort_flight = false }))
    else if is_suspension ev.payload && ltb d.budget.suspension_limit d.budget.suspensions_seen
    then over_limit aborting ev dumping d
    else settled ev dumping d

abbrev pub is_print : Payload → Bool
is_print print = true
is_print _ = false

unfoldable pub round : Option IoFailure → Bool → Reply → Checkout → Round
round aborting dumping (terminated cause reason) c = continues (terminate cause reason true c).1
round aborting dumping (recv_fails f) c = stopped (io_failure f c)
round aborting dumping undecodable c = stops (fails protocol_error) (discard (codes "discarded") c)
round aborting dumping (receives ev) c =
    if is_print ev.payload then continues c else react aborting ev dumping c

abbrev pub onward : Round → (Checkout → Run Turned) → Run Turned
onward (stops r d) go = ends r d
onward (continues d) go = go d

unfoldable pub await : Option IoFailure → Bool → List Reply → Checkout → Run Turned
unfolding round
await aborting dumping [] c = blocked c
await aborting dumping (reply ∷ replies) c =
    onward (round aborting dumping reply c) (await aborting dumping replies)

unfoldable pub start_sent : Option IoFailure → Request → Io → Checkout → Run Turned
start_sent (some f) req io c = ended (io_failure f (record c { in_flight = true; sent = false }))
start_sent none req io c =
    await io.aborting (is_dump req) io.replies
      (record c { in_flight = true; sent = true; requests = req ∷ c.requests })

unfoldable pub start_prepared : Prepared → Request → Io → Checkout → Run Turned
start_prepared too_deep req io c = ends (fails runtime_error) c
start_prepared unconvertible req io c = ends (fails runtime_error) c
start_prepared (frame n) req io c =
    if ltb Frame.max_frame_len n
    then ends (fails runtime_error) c
    else start_sent io.sending req io c

-- Checkout.turn behind ensureReady.
unfoldable pub start : Request → Io → Checkout → Run Turned
start req io c =
    if not io.observer_open
    then ends (fails (failure finished)) c
    else start_prepared io.prepared req io c

abbrev pub if_ready {ℓ} :
    {A : Type ℓ} → (PoolError → A) → Option PoolError × Checkout → (Checkout → Run A) → Run A
if_ready fail (some e, c) go = ends (fail e) c
if_ready fail (none, c) go = go c

unfoldable pub turn : Request → Io → Checkout → Run Turned
unfolding start
turn req io c = if_ready fails (ensure_ready c) (start req io)

-- What follows a turn.
infixl 5 ◌then◌
abbrev pub ◌then◌ {ℓ κ} : {A : Type ℓ} {B : Type κ} → Run A → (A → Checkout → Run B) → Run B
(blocked c) then go = blocked c
(ends a c) then go = go a c

abbrev pub is_idle : Pending → Bool
is_idle pending_none = true
is_idle _ = false
