-- ===== src/Pool/Checkout/Returned.antt =====
-- Over a whole session the worker is given back at most once, and then its end is reported.
use montygo.Prelude.{
  Bool, List, Option, [], arith, codes, false, if-either, if◌then◌else◌, length, none, not, some,
  true, ℕ, ◌+◌, ◌∷◌, ◌≡◌,
}
use montygo.Pool.{Slot}
use montygo.Pool.Lease
use montygo.Pool.Protocol.{PoolError, abort_feed, configure, pending_none, reset}
use montygo.Pool.Checkout.{Checkout, Turned, discard, fails, finish_metrics, returns}
use montygo.Pool.Checkout.Turn.{Io, Run, is_idle, ◌then◌}
use montygo.Pool.Checkout.Control.{
  abandon, abort, after_abort, after_configure, after_reset, configure_session, dump_session,
  finish, hand_off, hand_over, install_dependencies, is_ok, new_checkout, restore,
  terminate_session,
}
use montygo.Pool.Checkout.Claims.{
  Kept, Kept-refl, Kept-trans, discard-Kept, if_ready-Kept, is_reported, state, terminate-Kept,
  then-Kept,
}
use montygo.Pool.Checkout.Session.{
  Operation, abandons, aborts, configures, dumps, feeds, finishes, forget, hands_off, installs,
  perform, perform_all, restores, resumes, resumes_futures, resumes_lookup, resumes_mounts,
  terminates,
}
use montygo.Pool.Checkout.Once.{
  dump_session-Kept, feed_snippet-Kept, install_dependencies-Kept, release_slot-Kept, restore-Kept,
  resume-Kept, resume_all-Kept, resume_from_mounts-Kept, resume_name_lookup-Kept, turned-Kept,
}
use montygo.Pool.Checkout.Operations.{
  feed_snippet, resume, resume_all, resume_from_mounts, resume_name_lookup,
}

-- A failed control turn costs the worker and is reported.
dropped-Kept :
    (c : Checkout) → Kept c (finish_metrics (codes "error") (discard (codes "discarded") c))
dropped-Kept c =
    let d = discard (codes "discarded") c in
    Kept-trans {c = c} {d = d} (discard-Kept (codes "discarded") c) (ground arith)

after_reset-Kept : (r : Turned) (c : Checkout) → Kept c (state (after_reset r c))
unfolding after_reset
after_reset-Kept (fails e) c = dropped-Kept c
after_reset-Kept (returns ev) c =
    let d = record c { pending = pending_none; feed_mounts = none } in
    if-either {A = Run (Option PoolError)} (λ m. Kept c (state m)) (not (is_ok ev.payload))
      (λ _. dropped-Kept c)
      (λ _. Kept-trans {c = c} {d = d} (ground arith) (release_slot-Kept true d))

finish-Kept : (io : Io) (c : Checkout) → Kept c (state (finish io c))
unfolding finish
finish-Kept io c =
    if-either {A = Run (Option PoolError)} (λ m. Kept c (state m)) (not (Lease.active c.lease))
      (λ _. ground arith)
      (λ _.
        if-either {A = Run (Option PoolError)} (λ m. Kept c (state m)) c.in_flight
          (λ _. discard-Kept (codes "abandoned") c)
          (λ _.
            if-either {A = Run (Option PoolError)} (λ m. Kept c (state m)) c.websocket
              (λ _. release_slot-Kept false c)
              (λ _. turned-Kept c c reset io after_reset (Kept-refl c) after_reset-Kept)))

after_abort-Kept : (r : Turned) (c : Checkout) → Kept c (state (after_abort r c))
unfolding after_abort
after_abort-Kept (fails e) c = Kept-refl c
after_abort-Kept (returns ev) c = discard-Kept (codes "discarded") c

abort-Kept : (io : Io) (c : Checkout) → Kept c (state (abort io c))
unfolding abort
abort-Kept io c = if_ready-Kept _ _ c (λ d.
    if-either {A = Run PoolError} (λ m. Kept d (state m)) (is_idle d.pending) (λ _. Kept-refl d)
      (λ _.
        turned-Kept d (record d { pending = pending_none; abort_flight = true }) abort_feed io
          after_abort (ground arith) after_abort-Kept))

hand_off-Kept : (c : Checkout) → Kept c (state (hand_off c))
unfolding hand_off Lease.finish Lease.active
hand_off-Kept c = if_ready-Kept some _ c (λ d.
    if-either {A = Run (Option PoolError)} (λ m. Kept d (state m)) (not (is_idle d.pending))
      (λ _. Kept-refl d)
      (λ _.
        if-either {A = Run (Option PoolError)} (λ m. Kept d (state m)) (not d.websocket)
          (λ _. Kept-refl d) (λ _. handed d)))
  where
    handed : (d : Checkout) → Kept d (state (hand_over (Lease.finish d.lease) d))
    handed d = ground arith

after_configure-Kept : (r : Turned) (c : Checkout) → Kept c (state (after_configure r c))
unfolding after_configure
after_configure-Kept (fails e) c = discard-Kept (codes "discarded") c
after_configure-Kept (returns ev) c =
    if-either {A = Run (Option PoolError)} (λ m. Kept c (state m)) (not (is_ok ev.payload))
      (λ _. discard-Kept (codes "discarded") c) (λ _. Kept-refl c)

configure_session-Kept : (io : Io) (c : Checkout) → Kept c (state (configure_session io c))
unfolding configure_session
configure_session-Kept io c =
    turned-Kept c c configure io after_configure (Kept-refl c) after_configure-Kept

forgotten-Kept {ℓ} :
    {A : Type ℓ} (c : Checkout) (m : Run A) → Kept c (state m) → Kept c (state (m then forget))
forgotten-Kept c m h = then-Kept c m forget h (λ a d. Kept-refl d)

perform-Kept : (o : Operation) (c : Checkout) → Kept c (state (perform o c))
unfolding perform
perform-Kept (configures io) c =
    forgotten-Kept c (configure_session io c) (configure_session-Kept io c)
perform-Kept (dumps io) c = forgotten-Kept c (dump_session io c) (dump_session-Kept io c)
perform-Kept (finishes io) c = forgotten-Kept c (finish io c) (finish-Kept io c)
perform-Kept (aborts io) c = forgotten-Kept c (abort io c) (abort-Kept io c)
perform-Kept (feeds cwd mounts first_mount io) c =
    forgotten-Kept c (feed_snippet cwd mounts first_mount io c)
      (feed_snippet-Kept cwd mounts first_mount io c)
perform-Kept (resumes k io) c = forgotten-Kept c (resume k io c) (resume-Kept k io c)
perform-Kept (resumes_lookup io) c =
    forgotten-Kept c (resume_name_lookup io c) (resume_name_lookup-Kept io c)
perform-Kept (resumes_futures results io) c =
    forgotten-Kept c (resume_all results io c) (resume_all-Kept results io c)
perform-Kept (resumes_mounts said io again) c =
    forgotten-Kept c (resume_from_mounts said io again c) (resume_from_mounts-Kept said io again c)
perform-Kept (restores mounts io) c =
    forgotten-Kept c (restore mounts io c) (restore-Kept mounts io c)
perform-Kept (installs rs io) c =
    forgotten-Kept c (install_dependencies rs io c) (install_dependencies-Kept rs io c)
perform-Kept hands_off c = forgotten-Kept c (hand_off c) (hand_off-Kept c)
perform-Kept abandons c = unfold abandon in terminate-Kept none (codes "abandoned") false c
perform-Kept (terminates cause reason) c =
    unfold terminate_session in terminate-Kept cause reason true c

perform_all-Kept : (os : List Operation) (c : Checkout) → Kept c (state (perform_all os c))
unfolding perform_all
perform_all-Kept [] c = Kept-refl c
perform_all-Kept (o ∷ os) c =
    then-Kept c (perform o c) _ (perform-Kept o c) (λ _. perform_all-Kept os)

-- Whatever operations a session of a slot performs, and whatever its worker does in them: at each
-- time the worker is either still held, or was given back once, to the reaper or to the pool; and
-- when it is not held any more, the end of the session has been reported.
pub returned_once :
    (s : Slot) (websocket : Bool) (max_duration_micros max_suspensions : Option ℕ)
    (os : List Operation)
    → let c =
        state (perform_all os (new_checkout s websocket max_duration_micros max_suspensions)) in
      (length c.retired + length c.released + (if Lease.active c.lease then 1 else 0) ≡ 1)
      × (Lease.active c.lease ≡ false → is_reported c ≡ true)
returned_once s websocket max_duration_micros max_suspensions os =
    let start = new_checkout s websocket max_duration_micros max_suspensions in
    let kept = perform_all-Kept os start in
    unfold new_checkout Lease.active in (kept.conserved, kept.reported (λ h. ground arith))
