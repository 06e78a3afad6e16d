-- ===== src/Wire.antt =====
-- internal/wire: the protocol between a parent and a worker.
pub mod Frame
pub mod OsCall
