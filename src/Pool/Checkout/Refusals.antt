-- ===== src/Pool/Checkout/Refusals.antt =====
-- What a session keeps when a turn is refused before its request is sent.
use montygo.Prelude.{
  Bool, Bytes, List, Option, [], ap, arith, bytes_eq, codes, false, if-either, ltb, none, not, refl,
  some, true, ℕ, ◌∙◌, ◌∷◌, ◌≡◌,
}
use montygo.Wire.Frame
use montygo.Pool.Lease
use montygo.Pool.Protocol.{
  Event, PoolError, Request, abort_feed, feed, is_dump, pending_none, protocol_error, runtime_error,
}
use montygo.Pool.Checkout.{Checkout, IoFailure, Turned, discard, ensure_ready, fails, terminate}
use montygo.Pool.Checkout.Turn.{
  Io, Prepared, Reply, Round, Run, await, ends, ends_abort, frame, if_ready, is_idle, is_print,
  react, receives, round, start, start_prepared, start_sent, stops, too_deep, turn, unconvertible,
}
use montygo.Pool.Checkout.Control.{abort, after_abort}
use montygo.Pool.Checkout.Operations.{feed_dir, feed_snippet, note_cwd}
use montygo.Pool.Checkout.Claims.{state}
use montygo.Value.Vpath.{root}

-- The session is as ensureReady lets it pass.
abbrev pub IsReady : Checkout → Type 0
IsReady c = (c.is_cancelled ≡ false) × (Lease.active c.lease ≡ true) × (c.in_flight ≡ false)

-- The request does not encode, or to more than a frame.
abbrev pub is_refused : Prepared → Bool
is_refused too_deep = true
is_refused unconvertible = true
is_refused (frame n) = ltb Frame.max_frame_len n

ensure_ready-IsReady : (c : Checkout) → IsReady c → ensure_ready c ≡ (none, c)
unfolding ensure_ready
ensure_ready-IsReady c h =
    if-either (λ (p : Option PoolError × Checkout). p ≡ (none, c)) c.is_cancelled
      (λ e. absurd (ground arith))
      (λ _.
        if-either (λ (p : Option PoolError × Checkout). p ≡ (none, c)) (not (Lease.active c.lease))
          (λ e. absurd (ground arith))
          (λ _.
            if-either (λ (p : Option PoolError × Checkout). p ≡ (none, c)) c.in_flight
              (λ e. absurd (ground arith)) (λ _. refl)))

start_prepared-refused :
    (p : Prepared) (req : Request) (io : Io) (c : Checkout)
    → is_refused p ≡ true
    → start_prepared p req io c ≡ ends (fails runtime_error) c
unfolding start_prepared
start_prepared-refused too_deep req io c h = refl
start_prepared-refused unconvertible req io c h = refl
start_prepared-refused (frame n) req io c h =
    if-either {A = Run Turned} (λ r. r ≡ ends (fails runtime_error) c) (ltb Frame.max_frame_len n)
      (λ _. refl) (λ e. absurd (ground arith))

turn_ready : (req : Request) (io : Io) (c : Checkout) → IsReady c → turn req io c ≡ start req io c
unfolding turn
turn_ready req io c h = ap (λ p. if_ready fails p (start req io)) (ensure_ready-IsReady c h)

turn_refused :
    (req : Request) (io : Io) (c : Checkout)
    → IsReady c
    → io.observer_open ≡ true
    → is_refused io.prepared ≡ true
    → turn req io c ≡ ends (fails runtime_error) c
unfolding start
turn_refused req io c ready opened refused =
    turn_ready req io c ready
    ∙ if-either {A = Run Turned} (λ r. r ≡ ends (fails runtime_error) c) (not io.observer_open)
        (λ e. absurd (ground arith)) (λ _. start_prepared-refused io.prepared req io c refused)

feed_dir_first :
    (first_mount : Bytes) → (dir : Bytes) × (feed_dir none first_mount false ≡ some dir)
unfolding feed_dir
feed_dir_first first_mount =
    if-either {A = Option Bytes} (λ o. (dir : Bytes) × (o ≡ some dir))
      (not (bytes_eq first_mount [])) (λ _. (first_mount, refl)) (λ _. (root, refl))

feed_refused :
    (mounts : Option ℕ) (first_mount : Bytes) (io : Io) (c : Checkout)
    → IsReady c
    → is_idle c.pending ≡ true
    → c.cwd_set ≡ false
    → io.observer_open ≡ true
    → is_refused io.prepared ≡ true
    → feed_snippet none mounts first_mount io c
      ≡ note_cwd (fails runtime_error) (record c { feed_mounts = mounts })
unfolding feed_snippet
feed_refused mounts first_mount io c ready at_rest unset opened refused =
    let (dir, e) = feed_dir_first first_mount in
    let here : feed_dir none first_mount c.cwd_set ≡ some dir = rw unset e in
    let d = record c { feed_mounts = mounts } in
    rw
      (
        ensure_ready-IsReady c ready,
        at_rest,
        here,
        turn_refused (feed dir) io d ready opened refused,
      )
      refl

-- A first Feed that names no directory and is refused before it is sent, in a session whose last turn
-- sent its request: nothing is sent, yet the session keeps that a directory was set, so that the
-- directory of a later Feed that names none is the empty one, whatever its first mount.
pub refused_feed-dir :
    (mounts : Option ℕ) (first_mount again : Bytes) (io : Io) (c : Checkout)
    → IsReady c
    → is_idle c.pending ≡ true
    → c.cwd_set ≡ false
    → c.sent ≡ true
    → io.observer_open ≡ true
    → is_refused io.prepared ≡ true
    → let d = state (feed_snippet none mounts first_mount io c) in
      (d.requests ≡ c.requests) × (feed_dir none again d.cwd_set ≡ some [])
unfolding feed_dir
refused_feed-dir mounts first_mount again io c ready at_rest unset sent opened refused =
    rw (feed_refused mounts first_mount io c ready at_rest unset opened refused)
      (unfold note_cwd in rw sent (refl, refl))

abort_refused :
    (io : Io) (c : Checkout)
    → IsReady c
    → is_idle c.pending ≡ false
    → io.observer_open ≡ true
    → is_refused io.prepared ≡ true
    → abort io c ≡ ends runtime_error (record c { pending = pending_none; abort_flight = true })
unfolding abort after_abort
abort_refused io c ready waiting opened refused =
    let d = record c { pending = pending_none; abort_flight = true } in
    rw (ensure_ready-IsReady c ready, waiting, turn_refused abort_feed io d ready opened refused)
      refl

discard_retires : (reason : Bytes) (c : Checkout) → Lease.active (discard reason c).lease ≡ false
unfolding discard terminate Lease.terminate Lease.active
discard_retires reason c = ground arith

-- An event that does not end an abort (an error, a fatal error and a shutdown dump do), while an abort
-- is in flight.
react_mistaken :
    (aborting : Option IoFailure) (ev : Event) (dumping : Bool) (c : Checkout)
    → c.abort_flight ≡ true
    → ends_abort ev.payload ≡ false
    → (e : Checkout) × (react aborting ev dumping c
        ≡ stops (fails protocol_error) (discard (codes "discarded") e))
unfolding react
react_mistaken aborting ev dumping c flying not_error =
    if-either (Mistaken) c.abort_flight
      (λ _.
        if-either (Mistaken) (not (ends_abort ev.payload)) (λ _. (_, refl))
          (λ k. absurd (ground arith)))
      (λ k. absurd (ground arith))
  where
    Mistaken : Round → Type 0
    Mistaken r = (e : Checkout) × (r ≡ stops (fails protocol_error) (discard (codes "discarded") e))

await_mistaken :
    (aborting : Option IoFailure) (dumping : Bool) (ev : Event) (replies : List Reply)
    (c : Checkout)
    → c.abort_flight ≡ true
    → is_print ev.payload ≡ false
    → ends_abort ev.payload ≡ false
    → Lease.active (state (await aborting dumping (receives ev ∷ replies) c)).lease ≡ false
unfolding await round
await_mistaken aborting dumping ev replies c flying not_print not_error =
    let (e, k) = react_mistaken aborting ev dumping c flying not_error in
    rw (not_print, k) (discard_retires (codes "discarded") e)

-- Abort refused before its request is sent: the session is active and nothing is pending, but the
-- next turn that is sent ends the session, unless its first event is a print, an error, a fatal error
-- or a shutdown dump.
pub refused_abort-turn :
    (io next : Io) (c : Checkout) (req : Request) (n : ℕ) (ev : Event) (replies : List Reply)
    → IsReady c
    → is_idle c.pending ≡ false
    → io.observer_open ≡ true
    → is_refused io.prepared ≡ true
    → next.observer_open ≡ true
    → next.prepared ≡ frame n
    → ltb Frame.max_frame_len n ≡ false
    → next.sending ≡ none
    → next.replies ≡ receives ev ∷ replies
    → is_print ev.payload ≡ false
    → ends_abort ev.payload ≡ false
    → let d = state (abort io c) in
      (Lease.active d.lease ≡ true)
      × (d.pending ≡ pending_none)
      × (Lease.active (state (turn req next d)).lease ≡ false)
refused_abort-turn io next c req n ev replies ready waiting opened refused opened2 fits small sent
      replied not_print not_error =
    let d = record c { pending = pending_none; abort_flight = true } in
    rw (abort_refused io c ready waiting opened refused) (
      ready.1,
      refl,
      rw (turn_ready req next d ready) (
          unfold start start_prepared start_sent in
          rw (opened2, fits, small, sent, replied)
            (await_mistaken next.aborting (is_dump req) ev replies _ refl not_print not_error)),
    )
