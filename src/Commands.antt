-- ===== src/Commands.antt =====
-- The admission of commands (runtime/command.go, runtime/command_handlers.go,
-- runtime/control_handlers.go).
pub mod Envelope
pub mod Reasons
pub mod Handlers
pub mod Control
pub mod Retry
pub mod Lookup
pub mod Host
pub mod Reply
pub mod Submit
pub mod Keeps
pub mod History
pub mod Outcomes
pub mod Durable
pub mod Repeat
pub mod Held
pub mod Acknowledged
