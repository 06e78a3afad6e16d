-- ===== src/Mountfs.antt =====
-- internal/mountfs: host directories mounted into the sandbox.
pub mod Utf8
pub mod Errors
pub mod PathPolicy
pub mod Table
pub mod OverlayState
pub mod Host
pub mod Overlay
