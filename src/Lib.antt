-- ===== src/Lib.antt =====
-- montygo: a pool of sandboxed Monty workers, the protocol between the host and a worker, and the
-- host services (mounted directories first) that answer a worker's calls.
--
-- The parts of the program that this library models, and the files that model them (paths of the
-- source are from the repository's root):
--
--   Wire/Frame        internal/wire/frame.go: AppendFrameHeader and FrameReader.Next. A reader is the
--                     bytes that are left of its stream and the way the stream ends.
--   Wire/OsCall       internal/wire/oscall.go: what the routing reads of an OS call.
--   Value/Vpath       internal/value/vpath.go: NormalizeVirtualPath, ValidateCwd.
--   Value/FileMode    internal/value/filemode.go: CanonicalFileMode, ModeCreates.
--   Value/Depth       internal/value/depth.go: ExceedsMaxDepth.
--   Value/Dict        internal/value/dict.go: the dictionary and the sets, for any comparison of keys.
--   Mountfs/Errors    internal/mountfs/errors.go: the kinds of mount errors.
--   Mountfs/Utf8      internal/mountfs/utf8.go: utf8Check, bytesToUTF8, lossyUTF8.
--   Mountfs/PathPolicy
--                     internal/mountfs/pathpolicy.go: resolveVirtualPath, isOverlong, elideMiddle.
--   Mountfs/Table     internal/mountfs/table.go, mode.go: NewTable, findMount, Table.handle up to
--                     the execution in a mount.
--   Mountfs/OverlayState
--                     internal/mountfs/overlay_state.go: the entries of an overlay mount in memory
--                     and their account against the memory limit.
--   Mountfs/Host, Mountfs/Overlay
--                     internal/mountfs/host.go, overlay.go: what a mount asks of its host directory,
--                     the walk that refuses symlinks, and the calls of an overlay mount but for
--                     Iterdir and Rename. The host is a record of functions that stands for os.Root
--                     and is a parameter.
--   Pool, Pool/System internal/pool/pool.go, reservation.go: one function per critical section of
--                     the pool, and the step relation by which the sections of concurrent calls
--                     interleave. That acquire and Bind report a worker that they have
--                     spawned, behind their sections, is a step of its own.
--   Pool/Lease, Pool/Budget, Pool/Deadline, Pool/Observer
--                     internal/pool/lease.go, budget.go, observer_lifecycle.go: who may retire a
--                     checkout's worker, what a session has used and how long a turn may take, and
--                     when the observer of a session is closed.
--   Pool/Protocol, Pool/Checkout
--                     internal/pool/checkout.go, errors.go and Handoff of reservation.go: a session
--                     on one worker. Turn is a request and the events up to its answer, Operations
--                     and Control the methods, Session a sequence of them. A method is one step,
--                     also the three sections of Checkout.terminate.
--   Session, Session/Stop, Session/Lifecycle, Session/Finish, Session/Control
--                     stop.go, lifecycle.go, session_control.go, snapshot.go: one function per
--                     critical section of a session's mutex. Session/System and Session/Goroutines
--                     are the goroutines that run these sections and the steps by which they
--                     interleave; Session/Ownership is what holds between any two of them. An
--                     attempt to close is an object with a channel of its own, which the calls of
--                     Close share.
--   Session/Policy, Session/Rotation, Session/Slot
--                     options.go, rotation.go, slot.go: how stop policies combine, when a session
--                     moves to another connection, and what a slot hands out; the slot's calls read
--                     the state of its session at two times.
--   Prelude           bytes and strings as Go's `strings` treats them, lists over the native
--                     numbers, Boolean tests.
--
-- How they interact: a worker's frame carries an OS call; Table.handle rejects it by the path
-- policy, finds the mount by the normalized path and enters the mount's execution, where
-- resolveVirtualPath makes the path relative; text crosses by the UTF-8 check. The pool hands out
-- the workers that send these calls. A session holds one checkout and runs one execution at a time on
-- it; a slot holds one session.
--
-- Bytes are numbers below 256 where a theorem needs it (`IsBytes`); a Go string is a list of bytes.
-- lossyUTF8's loop runs on one round of fuel more than the text has bytes, and isOverlong's loop on
-- its 64 components; both suffice, since a round of lossyUTF8 passes a byte and isOverlong
-- returns at the 65th component. All other loops are structural. The counters of the pool and the
-- gauges are unbounded, far below Go's 64 bits in any run.
--
-- Not modelled: file system, process, network and wasm runtime access (operating system calls);
-- generated protocol code; telemetry; the direct execution behind Table.handle and, of the overlay's
-- calls, Iterdir and Rename; Equal and Repr of values; the host callbacks of a session, its contexts
-- and print targets; the message codec.
pub mod Prelude
pub mod Wire
pub mod Mountfs
pub mod Value
pub mod Pool
pub mod Session
