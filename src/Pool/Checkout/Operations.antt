-- ===== src/Pool/Checkout/Operations.antt =====
-- internal/pool/checkout.go: the operations that answer a suspension or start a feed, each under the
-- session's mutex.
use montygo.Prelude.{
  Bool, Bytes, List, Option, [], bytes_eq, false, if◌then◌else◌, none, not, some, true, ℕ, ◌&&◌,
  ◌==◌, ◌∷◌,
}
use montygo.Value.Vpath.{Cwd, root, validate_cwd}
use montygo.Pool.Protocol.{
  ExtKind, ExtResult, Pending, PoolError, ext_error, ext_future, ext_not_found, ext_not_handled,
  ext_return, feed, pending_function, pending_futures, pending_lookup, pending_os, plain_result,
  protocol_error, resume_call, resume_futures, resume_lookup, runtime, runtime_error, typing,
}
use montygo.Pool.Checkout.{Checkout, Turned, ensure_ready, fails, returns}
use montygo.Pool.Checkout.Turn.{Io, Run, ends, if_ready, is_idle, turn, ◌then◌}

-- The working directory that Feed sends; `none` is one that ValidateCwd refuses.
unfoldable pub feed_dir : Option Bytes → Bytes → Bool → Option Bytes
feed_dir (some cwd) first_mount cwd_set = elim (validate_cwd cwd) [
  | Cwd.valid dir ↦ some dir
  | Cwd.invalid e ↦ none
]
feed_dir none first_mount true = some []
feed_dir none first_mount false =
    if not (bytes_eq first_mount []) then some first_mount else some root

abbrev is_typing : Turned → Bool
is_typing (fails e) = elim e.kind [ typing ↦ true | _ ↦ false ]
is_typing (returns ev) = false

unfoldable pub note_cwd : Turned → Checkout → Run Turned
note_cwd r c = ends r (if c.sent && not (is_typing r) then record c { cwd_set = true } else c)

-- Checkout.Feed.
unfoldable pub feed_snippet : Option Bytes → Option ℕ → Bytes → Io → Checkout → Run Turned
unfolding feed_dir note_cwd
feed_snippet cwd mounts first_mount io c = if_ready fails (ensure_ready c) (λ d.
    if not (is_idle d.pending)
    then ends (fails protocol_error) d
    else elim (feed_dir cwd first_mount d.cwd_set) [
      | none ↦ ends (fails runtime_error) d
      | some dir ↦ turn (feed dir) io (record d { feed_mounts = mounts }) then note_cwd
    ])

-- Checkout.Resume: the id of the pending call, when the result is valid for it.
unfoldable pub resumed : ExtKind → Pending → Option ℕ
resumed ext_not_handled (pending_function id name eager) = none
resumed k (pending_function id name eager) = some id
resumed k (pending_os id name) = some id
resumed k _ = none

abbrev pub pending_name : Pending → Bytes
pending_name (pending_function id name eager) = name
pending_name (pending_os id name) = name
pending_name _ = []

-- The id of the pending call in a Future, and its name in a NotFound.
abbrev pub filled : ExtKind → ℕ → Bytes → ExtResult → ExtResult
filled ext_future id name r = record r { future_call_id = id }
filled ext_not_found id name r = record r { not_found_name = name }
filled _ id name r = r

unfoldable pub resume : ExtResult → Io → Checkout → Run Turned
unfolding resumed
resume r io c = if_ready fails (ensure_ready c) (λ d. elim (resumed r.result_kind d.pending) [
  | none ↦ ends (fails protocol_error) d
  | some id ↦ turn (resume_call id (filled r.result_kind id (pending_name d.pending) r)) io d
])

abbrev pub is_lookup : Pending → Bool
is_lookup pending_lookup = true
is_lookup _ = false

-- Checkout.ResumeNameLookup.
unfoldable pub resume_name_lookup : Io → Checkout → Run Turned
resume_name_lookup io c = if_ready fails (ensure_ready c) (λ d.
    if not (is_lookup d.pending) then ends (fails protocol_error) d else turn resume_lookup io d)

unfoldable pub all_settled : List (ℕ × ExtKind) → Bool
all_settled [] = true
all_settled ((id, ext_return) ∷ results) = all_settled results
all_settled ((id, ext_error) ∷ results) = all_settled results
all_settled _ = false

unfoldable pub one_result : ℕ → List (ℕ × ExtKind) → Bool
one_result id ((id', k) ∷ []) = id' == id
one_result id _ = false

unfoldable pub matches_pending : Pending → List (ℕ × ExtKind) → Bool
unfolding one_result
matches_pending pending_futures results = true
matches_pending (pending_function id name eager) results = eager && one_result id results
matches_pending _ results = false

-- Checkout.ResumeFutures.
unfoldable pub resume_all : List (ℕ × ExtKind) → Io → Checkout → Run Turned
unfolding matches_pending all_settled
resume_all results io c = if_ready fails (ensure_ready c) (λ d.
    if not (matches_pending d.pending results)
    then ends (fails protocol_error) d
    else if not (all_settled results)
    then ends (fails protocol_error) d
    else turn (resume_futures results) io d)

-- What a mount table says of an OS call, and the answer of HandlePendingMount.
pub data Handled : Type 0 where
  unhandled handled_value handled_exception : Handled

pub data Answer : Type 0 where
  refuses : PoolError → Answer
  leaves : Answer
  answers : ExtKind → Answer

abbrev answer_of : Handled → Answer
answer_of unhandled = leaves
answer_of handled_value = answers ext_return
answer_of handled_exception = answers ext_error

unfoldable pub answer_pending : Handled → Option ℕ → Pending → Answer
answer_pending said none (pending_os id name) = leaves
answer_pending said (some mounts) (pending_os id name) = answer_of said
answer_pending said mounts _ = refuses protocol_error

-- Checkout.HandlePendingMount. The table's call leaves `inFlight` false.
unfoldable pub handle_pending_mount : Handled → Checkout → Run Answer
unfolding answer_pending
handle_pending_mount said c =
    if_ready refuses (ensure_ready c) (λ d. ends (answer_pending said d.feed_mounts d.pending) d)

abbrev pub is_pre_send : Turned → Bool
is_pre_send (fails e) = elim e.kind [ runtime ↦ e.pre_send | _ ↦ false ]
is_pre_send (returns ev) = false

-- Checkout.ResumeFromMounts, when no other operation comes between its parts; `none` is a call that
-- the mounts do not handle.
unfoldable pub resume_from_mounts : Handled → Io → Io → Checkout → Run (Option Turned)
unfolding resume handle_pending_mount
resume_from_mounts said io again c = handle_pending_mount said c then (λ a d. elim a [
  | refuses e ↦ ends (some (fails e)) d
  | leaves ↦ ends none d
  | answers k ↦ resume (plain_result k) io d then (λ r e.
      if is_pre_send r
      then resume (plain_result ext_error) again e
      then (λ r f. ends (some r) f)
      else ends (some r) e)
])
