-- ===== src/Node.antt =====
-- The node as a whole (runtime/*.go): every transaction of the model as a step on the ledger.
pub mod Steps
pub mod Reach
pub mod Durable
pub mod Receipts
pub mod Replies
