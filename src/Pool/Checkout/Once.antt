-- ===== src/Pool/Checkout/Once.antt =====
-- No operation gives the worker back twice, and a session without its worker has reported its end.
use montygo.Prelude.{
  Bool, Bytes, List, Option, arith, codes, if-either, if◌then◌else◌, none, not, some, true, ℕ, ◌||◌,
}
use montygo.Pool.Lease
use montygo.Pool.Protocol.{
  ExtKind, ExtResult, Payload, Request, dump, ext_error, feed, install, is_suspension, load,
  pending_none, plain_result, protocol_error, resume_call, resume_futures, resume_lookup,
  runtime_error,
}
use montygo.Pool.Checkout.{Checkout, Turned, fails, returns}
use montygo.Pool.Checkout.Turn.{Io, Run, ends, is_idle, turn, ◌then◌}
use montygo.Pool.Checkout.Operations.{
  Answer, Handled, all_settled, answers, feed_dir, feed_snippet, filled, handle_pending_mount,
  is_lookup, is_pre_send, leaves, matches_pending, note_cwd, pending_name, refuses, resume,
  resume_all, resume_from_mounts, resume_name_lookup, resumed,
}
use montygo.Pool.Checkout.Claims.{
  Kept, Kept-refl, Kept-trans, discard-Kept, if_ready-Kept, state, then-Kept, turn-Kept,
}
use montygo.Pool.Checkout.Control.{
  after_load, dump_session, expecting, install_dependencies, is_dump_result, is_ok, no_requirement,
  release_slot, reset_usage, restore, valid_requirements,
}
use montygo.Pool.Budget.{SessionBudget}

pub feed_snippet-Kept :
    (cwd : Option Bytes) (mounts : Option ℕ) (first_mount : Bytes) (io : Io) (c : Checkout)
    → Kept c (state (feed_snippet cwd mounts first_mount io c))
unfolding feed_snippet note_cwd
feed_snippet-Kept cwd mounts first_mount io c = if_ready-Kept fails _ c (λ d.
    if-either {A = Run Turned} (λ r. Kept d (state r)) (not (is_idle d.pending)) (λ _. Kept-refl d)
      (λ _. fed (feed_dir cwd first_mount d.cwd_set) d))
  where
    noted : (r : Turned) (d : Checkout) → Kept d (state (note_cwd r d))
    noted r d = ground arith

    fed :
        (dir : Option Bytes) (d : Checkout)
        → Kept d (
            state (elim dir [
              | none ↦ ends (fails runtime_error) d
              | some dir ↦ turn (feed dir) io (record d { feed_mounts = mounts }) then note_cwd
            ]))
    fed none d = Kept-refl d
    fed (some dir) d =
        let e = record d { feed_mounts = mounts } in
        Kept-trans {c = d} {d = e} (ground arith)
          (then-Kept e (turn (feed dir) io e) note_cwd (turn-Kept (feed dir) io e) noted)

-- A turn from a state that differs from `c` in what gives no worker back, and what follows it.
pub turned-Kept {ℓ} :
    {B : Type ℓ} (c d : Checkout) (req : Request) (io : Io) (go : Turned → Checkout → Run B)
    → Kept c d
    → ((r : Turned) (e : Checkout) → Kept e (state (go r e)))
    → Kept c (state (turn req io d then go))
turned-Kept c d req io go h g = Kept-trans h (then-Kept d (turn req io d) go (turn-Kept req io d) g)

pub resume-Kept : (r : ExtResult) (io : Io) (c : Checkout) → Kept c (state (resume r io c))
unfolding resume
resume-Kept r io c = if_ready-Kept fails _ c (λ d. answered (resumed r.result_kind d.pending) d)
  where
    answered :
        (id : Option ℕ) (d : Checkout)
        → Kept d (
            state (elim id [
              | none ↦ ends (fails protocol_error) d
              | some id ↦
                  turn (resume_call id (filled r.result_kind id (pending_name d.pending) r)) io d
            ]))
    answered none d = Kept-refl d
    answered (some id) d =
        turn-Kept (resume_call id (filled r.result_kind id (pending_name d.pending) r)) io d

pub resume_name_lookup-Kept : (io : Io) (c : Checkout) → Kept c (state (resume_name_lookup io c))
unfolding resume_name_lookup
resume_name_lookup-Kept io c = if_ready-Kept fails _ c (λ d.
    if-either {A = Run Turned} (λ r. Kept d (state r)) (not (is_lookup d.pending))
      (λ _. Kept-refl d) (λ _. turn-Kept resume_lookup io d))

pub resume_all-Kept :
    (results : List (ℕ × ExtKind)) (io : Io) (c : Checkout)
    → Kept c (state (resume_all results io c))
unfolding resume_all
resume_all-Kept results io c = if_ready-Kept fails _ c (λ d.
    if-either {A = Run Turned} (λ r. Kept d (state r)) (not (matches_pending d.pending results))
      (λ _. Kept-refl d)
      (λ _.
        if-either {A = Run Turned} (λ r. Kept d (state r)) (not (all_settled results))
          (λ _. Kept-refl d) (λ _. turn-Kept (resume_futures results) io d)))

pub resume_from_mounts-Kept :
    (said : Handled) (io again : Io) (c : Checkout)
    → Kept c (state (resume_from_mounts said io again c))
unfolding resume_from_mounts handle_pending_mount
resume_from_mounts-Kept said io again c =
    then-Kept c (handle_pending_mount said c) _ (if_ready-Kept refuses _ c (λ d. Kept-refl d))
      answered
  where
    retried :
        (r : Turned) (e : Checkout)
        → Kept e (
            state (
              if is_pre_send r
              then resume (plain_result ext_error) again e
              then (λ r f. ends (some r) f)
              else ends (some r) e))
    retried r e =
        if-either {A = Run (Option Turned)} (λ m. Kept e (state m)) (is_pre_send r)
          (λ _.
            then-Kept e (resume (plain_result ext_error) again e) _
              (resume-Kept (plain_result ext_error) again e) (λ r f. Kept-refl f))
          (λ _. Kept-refl e)

    answered :
        (a : Answer) (d : Checkout)
        → Kept d (
            state (elim a [
              | refuses e ↦ ends (some (fails e)) d
              | leaves ↦ ends none d
              | answers k ↦ resume (plain_result k) io d then (λ r e.
                  if is_pre_send r
                  then resume (plain_result ext_error) again e
                  then (λ r f. ends (some r) f)
                  else ends (some r) e)
            ]))
    answered (refuses e) d = Kept-refl d
    answered leaves d = Kept-refl d
    answered (answers k) d =
        then-Kept d (resume (plain_result k) io d) _ (resume-Kept (plain_result k) io d) retried

pub expecting-Kept :
    (expected : Payload → Bool) (r : Turned) (c : Checkout)
    → Kept c (state (expecting expected r c))
unfolding expecting
expecting-Kept expected (fails e) c = Kept-refl c
expecting-Kept expected (returns ev) c =
    if-either {A = Run Turned} (λ m. Kept c (state m)) (expected ev.payload) (λ _. Kept-refl c)
      (λ _. discard-Kept (codes "discarded") c)

pub dump_session-Kept : (io : Io) (c : Checkout) → Kept c (state (dump_session io c))
unfolding dump_session
dump_session-Kept io c = turned-Kept c c dump io _ (Kept-refl c) (expecting-Kept is_dump_result)

after_load-Kept :
    (saved : SessionBudget) (r : Turned) (c : Checkout) → Kept c (state (after_load saved r c))
unfolding after_load
after_load-Kept saved (fails e) c = ground arith
after_load-Kept saved (returns ev) c =
    let d = record c { cwd_set = true } in
    if-either {A = Run Turned} (λ m. Kept c (state m))
      (is_ok ev.payload || is_suspension ev.payload) (λ _. ground arith)
      (λ _. Kept-trans {c = c} {d = d} (ground arith) (discard-Kept (codes "discarded") d))

pub restore-Kept :
    (mounts : Option ℕ) (io : Io) (c : Checkout) → Kept c (state (restore mounts io c))
unfolding restore
restore-Kept mounts io c = if_ready-Kept fails _ c (λ d.
    turned-Kept d
      (record d { pending = pending_none; feed_mounts = mounts; budget = reset_usage d.budget })
      load io _ (ground arith) (after_load-Kept d.budget))

pub install_dependencies-Kept :
    (rs : List Bytes) (io : Io) (c : Checkout) → Kept c (state (install_dependencies rs io c))
unfolding install_dependencies
install_dependencies-Kept rs io c = if_ready-Kept _ _ c (λ d.
    if-either {A = Run (Option Turned)} (λ m. Kept d (state m)) (not (is_idle d.pending))
      (λ _. Kept-refl d)
      (λ _.
        if-either {A = Run (Option Turned)} (λ m. Kept d (state m)) (no_requirement rs)
          (λ _. Kept-refl d)
          (λ _.
            if-either {A = Run (Option Turned)} (λ m. Kept d (state m))
              (not (valid_requirements rs)) (λ _. Kept-refl d)
              (λ _. turned-Kept d d install io _ (Kept-refl d) (λ r e.
                then-Kept e (expecting is_ok r e) _ (expecting-Kept is_ok r e)
                  (λ q f. Kept-refl f))))))

pub release_slot-Kept :
    (served : Bool) (c : Checkout) → Kept c (release_slot served (Lease.finish c.lease) c)
unfolding Lease.finish Lease.active
release_slot-Kept served c = ground arith
