-- ===== src/Pool/Protocol.antt =====
-- internal/pool/errors.go, internal/wire/event.go, request.go: what a checkout reads of errors, of
-- the events of its worker and of its requests. The messages of errors are left out.
use montygo.Prelude.{Bool, Bytes, List, Option, [], false, true, ℕ}
use montygo.Pool.Budget

pub data ErrorKind : Type 0 where
  crashed timeout protocol runtime typing exhausted spawn finished disconnected shutdown cancelled :
      ErrorKind
  closed : ErrorKind

pub record PoolError : Type 0 where
  pub kind : ErrorKind
  pub worker_lost : Bool
  pub pre_send : Bool

-- protocolError, runtimeError, and an error with a kind alone or with WorkerLost.
abbrev pub failure : ErrorKind → PoolError
failure k = record { kind = k; worker_lost = false; pre_send = false }

abbrev pub protocol_error : PoolError
protocol_error = failure protocol

abbrev pub runtime_error : PoolError
runtime_error = record { kind = runtime; worker_lost = false; pre_send = true }

abbrev pub lost : ErrorKind → PoolError
lost k = record { kind = k; worker_lost = true; pre_send = false }

pub data ExtKind : Type 0 where
  ext_return ext_error ext_future ext_not_found ext_not_handled : ExtKind

-- wire.ExtResult, without the value and the error that it carries.
pub record ExtResult : Type 0 where
  pub result_kind : ExtKind
  pub future_call_id : ℕ
  pub not_found_name : Bytes

-- A result whose other fields are as Go makes them.
abbrev pub plain_result : ExtKind → ExtResult
plain_result k = record { result_kind = k; future_call_id = 0; not_found_name = [] }

-- A request, as far as the checkout reads or fills it; of the results of futures the kinds.
pub data Request : Type 0 where
  configure dump load install reset abort_feed resume_lookup : Request
  feed : Bytes → Request
  resume_call : ℕ → ExtResult → Request
  resume_futures : List (ℕ × ExtKind) → Request

abbrev pub is_dump : Request → Bool
is_dump dump = true
is_dump _ = false

-- The kind of an event with the fields that the checkout reads. An OS call has the number of its
-- operation, the name of it that OsCall.Name returns, and whether its payload was invalid.
pub data Payload : Type 0 where
  print resolve_futures typing_error dump_result ok fatal_error shutdown_dump unknown : Payload
  function_call : ℕ → Bytes → Bool → Payload
  os_call : ℕ → ℕ → Bytes → Bool → Payload
  name_lookup : Bytes → Payload
  complete error : Bool → Payload

-- Event.IsSuspension.
abbrev pub is_suspension : Payload → Bool
is_suspension (function_call id name eager) = true
is_suspension (os_call id op name bad) = true
is_suspension (name_lookup name) = true
is_suspension resolve_futures = true
is_suspension _ = false

pub record Event : Type 0 where
  pub payload : Payload
  pub total_execution_micros : ℕ
  pub max_duration_micros : Option ℕ
  pub max_suspensions : Option ℕ

abbrev pub usage_of : Event → Budget.EventUsage
usage_of ev = record {
  total_execution_micros = ev.total_execution_micros;
  max_duration_micros = ev.max_duration_micros;
  max_suspensions = ev.max_suspensions;
  is_suspension = is_suspension ev.payload;
}

-- pending: a call has its id and name, and is an OS call, or a function call with its `allowEager`.
-- The name of a lookup, which nothing reads, is left out.
pub data Pending : Type 0 where
  pending_none pending_lookup pending_futures : Pending
  pending_function : ℕ → Bytes → Bool → Pending
  pending_os : ℕ → Bytes → Pending
