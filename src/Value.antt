-- ===== src/Value.antt =====
-- internal/value: virtual paths, file modes and the nesting of values.
pub mod Vpath
pub mod FileMode
pub mod Depth
pub mod Dict
