-- ===== src/Attempts.antt =====
-- The life of an attempt after its dispatch (runtime/actions.go, runtime/observe.go,
-- runtime/recovery.go).
pub mod Projection
pub mod Unknown
pub mod Observe
pub mod Actions
pub mod Finish
pub mod History
pub mod Durable
pub mod DurableFinish
pub mod Recovery
pub mod Late
pub mod Claims
pub mod Fence
