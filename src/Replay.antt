-- ===== src/Replay.antt =====
-- The read side of the event history (runtime/replay.go, api/server.go): bounded pages and the stream
-- that a client follows.
pub mod Pages
pub mod Numbers
pub mod Bounds
pub mod Slices
pub mod Progress
