-- ===== src/Holds.antt =====
-- Administrative holds (runtime/hold.go): a hold on the node or on one dialog stops admission and
-- dispatch in its scope until it is released.
pub mod Scopes
pub mod Checks
pub mod Install
pub mod Release
pub mod Exclusion
pub mod Releasing
pub mod Ending
pub mod Quiescence
pub mod Settled
pub mod Listing
pub mod Soundness
pub mod Durable
pub mod Idempotence
