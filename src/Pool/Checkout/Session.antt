-- ===== src/Pool/Checkout/Session.antt =====
-- A session: the operations of a checkout, one after another. An operation that still waits for its
-- worker holds the mutex, so that none comes behind it; Terminate takes no mutex.
use montygo.Prelude.{Bytes, List, Option, [], ℕ, ◌∷◌}
use montygo.Pool.Protocol.{ExtKind, ExtResult}
use montygo.Pool.Checkout.{Checkout}
use montygo.Pool.Checkout.Turn.{Io, Run, ends, ◌then◌}
use montygo.Pool.Checkout.Operations.{
  Handled, feed_snippet, resume, resume_all, resume_from_mounts, resume_name_lookup,
}
use montygo.Pool.Checkout.Control.{
  abandon, abort, configure_session, dump_session, finish, hand_off, install_dependencies, restore,
  terminate_session,
}

pub data Operation : Type 0 where
  configures dumps finishes aborts : Io → Operation
  feeds : Option Bytes → Option ℕ → Bytes → Io → Operation
  resumes : ExtResult → Io → Operation
  resumes_lookup : Io → Operation
  resumes_futures : List (ℕ × ExtKind) → Io → Operation
  resumes_mounts : Handled → Io → Io → Operation
  restores : Option ℕ → Io → Operation
  installs : List Bytes → Io → Operation
  hands_off abandons : Operation
  terminates : Option ℕ → Bytes → Operation

abbrev pub forget {ℓ} : {A : Type ℓ} → A → Checkout → Run (Unit {0})
forget a c = ends tt c

unfoldable pub perform : Operation → Checkout → Run (Unit {0})
perform (configures io) c = configure_session io c then forget
perform (dumps io) c = dump_session io c then forget
perform (finishes io) c = finish io c then forget
perform (aborts io) c = abort io c then forget
perform (feeds cwd mounts first_mount io) c = feed_snippet cwd mounts first_mount io c then forget
perform (resumes k io) c = resume k io c then forget
perform (resumes_lookup io) c = resume_name_lookup io c then forget
perform (resumes_futures results io) c = resume_all results io c then forget
perform (resumes_mounts said io again) c = resume_from_mounts said io again c then forget
perform (restores mounts io) c = restore mounts io c then forget
perform (installs rs io) c = install_dependencies rs io c then forget
perform hands_off c = hand_off c then forget
perform abandons c = ends tt (abandon c)
perform (terminates cause reason) c = ends tt (terminate_session cause reason c).1

unfoldable pub perform_all : List Operation → Checkout → Run (Unit {0})
perform_all [] c = ends tt c
perform_all (o ∷ os) c = perform o c then (λ _. perform_all os)
