-- ===== src/Pool/Checkout/Examples.antt =====
-- Runs of a session on a local worker, and the theorems at these sessions.
use montygo.Prelude.{
  List, [], bytes_eq, codes, false, if◌then◌else◌, length, none, refl, some, true, ℕ, ◌+◌, ◌∷◌, ◌≡◌,
  ◌⊎◌,
}
use montygo.Wire.Frame
use montygo.Pool.{Slot}
use montygo.Pool.Lease
use montygo.Pool.Protocol.{
  Event, ExtResult, Payload, complete, ext_not_handled, feed, ok, os_call, pending_none, pending_os,
  plain_result, resume_call,
}
use montygo.Pool.Checkout.{Checkout, dispatch, dispatch_payload, ensure_ready, returns}
use montygo.Pool.Checkout.Turn.{
  Io, Reply, await, ends, frame, is_idle, over_limit, react, receives, round, start, start_prepared,
  start_sent, turn, ◌then◌,
}
use montygo.Pool.Checkout.Operations.{feed_dir, feed_snippet, note_cwd, pending_name, resume}
use montygo.Pool.Checkout.Control.{abort, after_configure, configure_session, new_checkout}
use montygo.Pool.Checkout.Session.{abandons, configures, feeds, finishes, perform_all}
use montygo.Pool.Checkout.Claims.{is_reported, state}
use montygo.Pool.Checkout.Returned.{returned_once}
use montygo.Value.Vpath.{root}
use montygo.Pool.Budget.{observe}
use montygo.Pool.Checkout.Requests.{IsFilled, Sends, call_id, is_function, resume-Sends}
use montygo.Pool.Checkout.Suspensions.{IsSettled, turn-IsSettled}
use montygo.Pool.Checkout.Refusals.{IsReady, refused_abort-turn, refused_feed-dir}

abbrev some_slot : Slot
some_slot = record { worker = 7; served = 0 }

abbrev event : Payload → Event
event p = record {
  payload = p;
  total_execution_micros = 5;
  max_duration_micros = none;
  max_suspensions = none;
}

abbrev answering : List Reply → Io
answering replies = record {
  observer_open = true;
  prepared = frame 10;
  sending = none;
  replies = replies;
  aborting = none;
}

abbrev too_long : Io
too_long = record (answering []) { prepared = frame (Frame.max_frame_len + 1) }

abbrev fresh : Checkout
fresh = state (
    configure_session (answering (receives (event ok) ∷ []))
      (new_checkout some_slot false none (some 1)))

abbrev calling : Checkout
calling = state (
    feed_snippet none none []
      (answering (receives (event (os_call 3 2 (codes "Path.exists") false)) ∷ [])) fresh)

abbrev asks : Event
asks = event (os_call 3 2 (codes "Path.exists") false)

calling_waits : (calling.pending ≡ pending_os 3 (codes "Path.exists")) × (calling.cwd_set ≡ true)
unfolding configure_session new_checkout turn ensure_ready start start_prepared start_sent await
    round react over_limit dispatch dispatch_payload after_configure feed_snippet feed_dir note_cwd
    bytes_eq Lease.active observe
calling_waits = (refl, refl)

fresh-IsReady :
    IsReady fresh × (is_idle fresh.pending ≡ true) × (fresh.cwd_set ≡ false) × (fresh.sent ≡ true)
unfolding configure_session new_checkout turn ensure_ready start start_prepared start_sent await
    round react over_limit dispatch dispatch_payload after_configure Lease.active observe
fresh-IsReady = ((refl, refl, refl), refl, refl, refl)

calling-IsReady : IsReady calling × (is_idle calling.pending ≡ false)
unfolding configure_session new_checkout turn ensure_ready start start_prepared start_sent await
    round react over_limit dispatch dispatch_payload after_configure feed_snippet feed_dir note_cwd
    bytes_eq Lease.active observe
calling-IsReady = ((refl, refl, refl), refl)

asked :
    turn (feed root) (answering (receives asks ∷ [])) fresh
    ≡ ends (returns asks) (state (turn (feed root) (answering (receives asks ∷ [])) fresh))
unfolding configure_session new_checkout turn ensure_ready start start_prepared start_sent await
    round react over_limit dispatch dispatch_payload after_configure Lease.active observe
asked = refl

turn-IsSettled_example :
    IsSettled (returns asks) (state (turn (feed root) (answering (receives asks ∷ [])) fresh))
turn-IsSettled_example =
    turn-IsSettled (feed root) (answering (receives asks ∷ [])) fresh
      (state (turn (feed root) (answering (receives asks ∷ [])) fresh)) (returns asks)
      fresh-IsReady.0.2 asked

resume-Sends_example :
    let r = plain_result ext_not_handled in
    let d = state (resume r (answering (receives (event (complete true)) ∷ [])) calling) in
    (d.requests ≡ calling.requests)
    ⊎ ((id : ℕ) × (sent : ExtResult) × (call_id calling.pending ≡ some id)
        × (r.result_kind ≡ ext_not_handled → is_function calling.pending ≡ false)
        × IsFilled id (pending_name calling.pending) r sent
        × Sends (resume_call id sent) calling d)
resume-Sends_example =
    resume-Sends (plain_result ext_not_handled) (answering (receives (event (complete true)) ∷ []))
      calling

refused_feed-dir_example :
    let d = state (feed_snippet none none [] too_long fresh) in
    (d.requests ≡ fresh.requests) × (feed_dir none (codes "/data") d.cwd_set ≡ some [])
refused_feed-dir_example =
    refused_feed-dir none [] (codes "/data") too_long fresh fresh-IsReady.0 fresh-IsReady.1
      fresh-IsReady.2 fresh-IsReady.3 refl refl

refused_abort-turn_example :
    let d = state (abort too_long calling) in
    (Lease.active d.lease ≡ true)
    × (d.pending ≡ pending_none)
    × (Lease.active
          (state (turn (feed root) (answering (receives (event (complete true)) ∷ [])) d)).lease
        ≡ false)
refused_abort-turn_example =
    refused_abort-turn too_long (answering (receives (event (complete true)) ∷ [])) calling
      (feed root) 10 (event (complete true)) [] calling-IsReady.0 calling-IsReady.1 refl refl refl
      refl refl refl refl refl refl

returned_once_example :
    let c = state (
      perform_all
        (configures (answering (receives (event ok) ∷ []))
          ∷ feeds none none [] (answering (receives (event (complete true)) ∷ []))
          ∷ finishes (answering (receives (event ok) ∷ []))
          ∷ abandons
          ∷ [])
        (new_checkout some_slot false none (some 1))) in
    (length c.retired + length c.released + (if Lease.active c.lease then 1 else 0) ≡ 1)
    × (Lease.active c.lease ≡ false → is_reported c ≡ true)
returned_once_example = returned_once some_slot false none (some 1) (
    configures (answering (receives (event ok) ∷ []))
    ∷ feeds none none [] (answering (receives (event (complete true)) ∷ []))
    ∷ finishes (answering (receives (event ok) ∷ []))
    ∷ abandons
    ∷ [])
