-- ===== src/Pool/Checkout/Requests.antt =====
-- Which requests an operation sends, and in which state of the session.
use montygo.Prelude.{
  Bool, Bytes, List, Option, arith, codes, false, if-either, inl, inr, ltb, none, not, refl, some,
  subst, sym, true, ℕ, ◌∷◌, ◌≡◌, ◌⊎◌,
}
use montygo.Wire.Frame
use montygo.Pool.Lease
use montygo.Pool.Protocol.{
  ExtKind, ExtResult, Pending, PoolError, Request, abort_feed, ext_error, ext_future, ext_not_found,
  ext_not_handled, ext_return, is_dump, pending_function, pending_os, protocol_error, resume_call,
}
use montygo.Pool.Checkout.{Checkout, IoFailure, Turned, ensure_ready, fails}
use montygo.Pool.Checkout.Turn.{
  Io, Prepared, Run, ends, frame, if_ready, start, start_prepared, start_sent, too_deep, turn,
  unconvertible,
}
use montygo.Pool.Checkout.Operations.{filled, pending_name, resume, resumed}
use montygo.Pool.Checkout.Claims.{state}
use montygo.Pool.Checkout.Sending.{await-Aborts, discard-Quiet, io_failure-Quiet}

-- Nothing is sent, or the request, or the request and behind it AbortFeed.
abbrev pub Sends : Request → Checkout → Checkout → Type 0
Sends req c d =
    (d.requests ≡ c.requests)
    ⊎ (d.requests ≡ req ∷ c.requests)
    ⊎ (d.requests ≡ abort_feed ∷ req ∷ c.requests)

start_sent-Sends :
    (sending : Option IoFailure) (req : Request) (io : Io) (c : Checkout)
    → Sends req c (state (start_sent sending req io c))
unfolding start_sent
start_sent-Sends (some f) req io c =
    inl (io_failure-Quiet f (record c { in_flight = true; sent = false })).0
start_sent-Sends none req io c =
    let d = record c { in_flight = true; sent = true; requests = req ∷ c.requests } in
    elim (await-Aborts io.aborting (is_dump req) io.replies d) [
      | inl same ↦ inr (inl same)
      | inr (_, more) ↦ inr (inr more)
    ]

start-Sends : (req : Request) (io : Io) (c : Checkout) → Sends req c (state (start req io c))
unfolding start start_prepared
start-Sends req io c =
    if-either {A = Run Turned} (λ r. Sends req c (state r)) (not io.observer_open) (λ _. inl refl)
      (λ _. prepared io.prepared)
  where
    prepared : (p : Prepared) → Sends req c (state (start_prepared p req io c))
    prepared too_deep = inl refl
    prepared unconvertible = inl refl
    prepared (frame n) =
        if-either {A = Run Turned} (λ r. Sends req c (state r)) (ltb Frame.max_frame_len n)
          (λ _. inl refl) (λ _. start_sent-Sends io.sending req io c)

ensure_ready-Quiet :
    (c : Checkout)
    → ((ensure_ready c).0 ≡ none → (ensure_ready c).1 ≡ c)
      × ((ensure_ready c).1.requests ≡ c.requests)
unfolding ensure_ready
ensure_ready-Quiet c =
    if-either
      (λ (p : Option PoolError × Checkout). (p.0 ≡ none → p.1 ≡ c) × (p.1.requests ≡ c.requests))
      c.is_cancelled (λ _. ground arith)
      (λ _.
        if-either
          (λ (p : Option PoolError × Checkout).
            (p.0 ≡ none → p.1 ≡ c) × (p.1.requests ≡ c.requests))
          (not (Lease.active c.lease)) (λ _. ground arith)
          (λ _.
            if-either
              (λ (p : Option PoolError × Checkout).
                (p.0 ≡ none → p.1 ≡ c) × (p.1.requests ≡ c.requests))
              c.in_flight (λ _. ((λ h. ground arith), (discard-Quiet (codes "discarded") c).0))
              (λ _. ((λ h. refl), refl))))

-- A property of requests holds behind ensureReady, if nothing sent has it and the operation has it.
pub if_ready-sends {ℓ} :
    {A : Type ℓ} (P : List Request → Type 0) (fail : PoolError → A) (go : Checkout → Run A)
    (c : Checkout)
    → P c.requests
    → P (state (go c)).requests
    → P (state (if_ready fail (ensure_ready c) go)).requests
if_ready-sends P fail go c h g = ready (ensure_ready c) (ensure_ready-Quiet c)
  where
    ready :
        (p : Option PoolError × Checkout)
        → (p.0 ≡ none → p.1 ≡ c) × (p.1.requests ≡ c.requests)
        → P (state (if_ready fail p go)).requests
    ready (some e, d) k = subst P (sym k.1) h
    ready (none, d) k = subst (λ (x : Checkout). P (state (go x)).requests) (sym (k.0 refl)) g

pub turn-Sends : (req : Request) (io : Io) (c : Checkout) → Sends req c (state (turn req io c))
unfolding turn
turn-Sends req io c =
    if_ready-sends
      (λ rs. (rs ≡ c.requests) ⊎ (rs ≡ req ∷ c.requests) ⊎ (rs ≡ abort_feed ∷ req ∷ c.requests))
      fails (start req io) c (inl refl) (start-Sends req io c)

abbrev pub call_id : Pending → Option ℕ
call_id (pending_function id name eager) = some id
call_id (pending_os id name) = some id
call_id _ = none

abbrev pub is_function : Pending → Bool
is_function (pending_function id name eager) = true
is_function _ = false

resumed-call_id :
    (k : ExtKind) (p : Pending) (id : ℕ)
    → resumed k p ≡ some id
    → (call_id p ≡ some id) × (k ≡ ext_not_handled → is_function p ≡ false)
unfolding resumed
resumed-call_id k p id = ground arith

-- A result that is sent, against the caller's: a Future has the id, a NotFound the name.
abbrev pub IsFilled : ℕ → Bytes → ExtResult → ExtResult → Type 0
IsFilled id name r sent =
    (sent.result_kind ≡ r.result_kind)
    × (r.result_kind ≡ ext_future → sent.future_call_id ≡ id)
    × (r.result_kind ≡ ext_not_found → sent.not_found_name ≡ name)
    × ((r.result_kind ≡ ext_future → ⊥) → sent.future_call_id ≡ r.future_call_id)
    × ((r.result_kind ≡ ext_not_found → ⊥) → sent.not_found_name ≡ r.not_found_name)

filled-IsFilled :
    (k : ExtKind) (id : ℕ) (name : Bytes) (r : ExtResult)
    → r.result_kind ≡ k
    → IsFilled id name r (filled k id name r)
filled-IsFilled ext_return id name r e = ground arith
filled-IsFilled ext_error id name r e = ground arith
filled-IsFilled ext_future id name r e = ground arith
filled-IsFilled ext_not_found id name r e = ground arith
filled-IsFilled ext_not_handled id name r e = ground arith

-- Resume sends nothing, or, when a call is pending, ResumeCall with the id of that call and the
-- result, and at most one AbortFeed behind it. The result keeps its kind; a Future in it has the id
-- of the pending call and a NotFound its name, and each other field is the caller's. NotHandled is
-- sent only when the call is an OS call.
pub resume-Sends :
    (r : ExtResult) (io : Io) (c : Checkout)
    → let d = state (resume r io c) in
      (d.requests ≡ c.requests)
      ⊎ ((id : ℕ) × (sent : ExtResult) × (call_id c.pending ≡ some id)
          × (r.result_kind ≡ ext_not_handled → is_function c.pending ≡ false)
          × IsFilled id (pending_name c.pending) r sent
          × Sends (resume_call id sent) c d)
unfolding resume
resume-Sends r io c =
    if_ready-sends
      (λ rs.
        (rs ≡ c.requests)
        ⊎ ((id : ℕ) × (sent : ExtResult) × (call_id c.pending ≡ some id)
            × (r.result_kind ≡ ext_not_handled → is_function c.pending ≡ false)
            × IsFilled id (pending_name c.pending) r sent
            × ((rs ≡ c.requests)
                ⊎ (rs ≡ resume_call id sent ∷ c.requests)
                ⊎ (rs ≡ abort_feed ∷ resume_call id sent ∷ c.requests))))
      fails _ c (inl refl) (answered (resumed r.result_kind c.pending) refl)
  where
    answered :
        (o : Option ℕ)
        → resumed r.result_kind c.pending ≡ o
        → let d = state {A = Turned} (elim o [
          | none ↦ ends (fails protocol_error) c
          | some id ↦
              turn (resume_call id (filled r.result_kind id (pending_name c.pending) r)) io c
        ]) in
          (d.requests ≡ c.requests)
          ⊎ ((id : ℕ) × (sent : ExtResult) × (call_id c.pending ≡ some id)
              × (r.result_kind ≡ ext_not_handled → is_function c.pending ≡ false)
              × IsFilled id (pending_name c.pending) r sent
              × Sends (resume_call id sent) c d)
    answered none e = inl refl
    answered (some id) e =
        let name = pending_name c.pending in
        let (a, b) = resumed-call_id r.result_kind c.pending id e in
        inr (
          id,
          filled r.result_kind id name r,
          a,
          b,
          filled-IsFilled r.result_kind id name r refl,
          turn-Sends (resume_call id (filled r.result_kind id name r)) io c,
        )
