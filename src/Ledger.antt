-- ===== src/Ledger.antt =====
-- The durable ledger of the supervisor (runtime/schema.go, runtime/sql.go, runtime/events.go): its
-- rows, its tables, transactions over them, and the event history.
pub mod Types
pub mod Wire
pub mod Db
pub mod Tx
pub mod Statements
pub mod Events
pub mod Leads
pub mod History
pub mod Put
pub mod Frame
pub mod Durable
