-- ===== src/Dispatch.antt =====
-- The queue's dispatcher (runtime/dispatch.go): the choice of the next request, the transaction that
-- starts an attempt for it, and the block when there is no policy.
pub mod Queue
pub mod Next
pub mod History
pub mod Durable
pub mod Order
pub mod Occupied
