-- ===== src/Lib.antt =====
-- The supervisor of a Codex harness node: its durable ledger and the transactions over it.
--
-- A node keeps one SQLite ledger. Clients submit commands (runtime/command.go), each one transaction
-- that checks authority, looks for a stored outcome or a hold, runs a handler, appends events and
-- stores a receipt. The action loop dispatches queued requests to attempts (runtime/dispatch.go),
-- sends control actions to the adapter and settles them (runtime/actions.go), records what the adapter
-- reports about an attempt (runtime/observe.go), charges its output (runtime/output_budget.go), and
-- recovers after a restart (runtime/recovery.go). An operator installs holds that stop admission and
-- dispatch in a scope, asks for the proof that the scope is parked, and releases them
-- (runtime/hold.go). Clients follow the event history in pages (runtime/replay.go). All parts share the
-- ledger under one lock.
--
-- The files:
--   Prelude: names of the libraries, Boolean tests, tables as lists of rows, and the row that an
--     ORDER BY … LIMIT 1 gives.
--   Ledger: rows and columns (Types, Db; runtime/schema.go), the wire types (Wire;
--     internal/harnessprotocol/types.go, internal/harnessbarrier/types.go), transactions as a state
--     and error monad (Tx; loadState, saveState and newID of runtime/sql.go), the statements with the
--     keys and unique indexes of the schema (Statements), appendEvent and its two callers (Events;
--     runtime/events.go). Leads has conditions before and after a transaction with one rule for each
--     way to build one, History the numbering of the events, Frame what statements leave alone.
--     Durable has the conditions that no write outside the tables of the holds breaks.
--   Commands: the results of the entry points and the commit (Host, Reply), SubmitCommand
--     (Submit), its lookups, authorization and holds (Lookup; runtime/command.go and runtime/hold.go), and
--     the handlers (Handlers, Control, Retry; runtime/command_handlers.go, runtime/control_handlers.go).
--   Dispatch: peekDispatch (Queue), DispatchNext and blockPolicy (Next) of runtime/dispatch.go. The
--     candidate is peeked on one ledger and the transaction runs on another.
--   Attempts: setAttemptUnknown, markAttemptUnknown and recoverStartup (Unknown), Observe,
--     applyTerminal and archiveLateObservation (Observe), claimAction, requeueAction, finishAction and
--     markStarted (Actions), finishSteer, finishApproval and finishInput (Finish).
--   Output: chargeAttemptOutput and chargeArchivedAttemptOutput of runtime/output_budget.go.
--   Holds: InstallHold (Install), ReleaseHold and HoldStatus (Release) and QuiescenceProof (Quiescence)
--     of runtime/hold.go, with the number checks of internal/harnessbarrier/types.go (Checks). A request
--     is its decoded record with the digest of its canonical bytes.
--   Canonical: appendJSONString (Strings) and appendCanonical (Values) of
--     internal/harnessprotocol/canonical.go, on decoded values and on the runes of texts. Quoted,
--     Numerals and Reader are a reader of the JSON grammar, without white space, that the source leaves to
--     encoding/json.
--   Strict: Valid of internal/strictjson/strict.go, its scan of the escapes (Escapes) and its walk over
--     the decoder's tokens (Tokens). Glyphs and Trees say of which strings a text and of which tokens a
--     value is made.
--   Replay: ReplayEvents of runtime/replay.go and the loop of the event stream of api/server.go (Pages).
--     The stream is a function of the ledgers that its polls see.
--   Node: all transactions as one step relation on the ledger, and the ledgers that are reached.
--   Samples, Witnesses: a small ledger, and the theorems at it.
--
-- How the code is represented: identifiers, hashes and opaque receipts are numbers that are only
-- compared. A table is the list of its rows in rowid order. A transaction that fails is rolled back,
-- so an error carries no state: the deferred Rollback is part of the representation, and what a failed
-- transaction had written is not observed. Versions, sequences and counts are natural numbers; where
-- the source could take a pending count below 0, the validation of the following event refuses it, and
-- the model has a guard there. Go's int64 does not wrap in the range that the wire contract allows,
-- which is below 2^53, and the requests on holds check that range. Most functions are total without
-- fuel, and the stream's loop goes over the list of its polls. The reader of JSON has fuel, and the
-- size of the value is enough; so have the two loops of strictjson, for which a turn for each byte and
-- two for each token are enough.
--
-- What the code relies on and the model takes as an argument: fresh identifiers, the clock, free space
-- and the control reserve, SQLite's commit, the test faults, the verdicts of the schemas of events,
-- receipts and rejections, the policy source, the provider's authentication, the proof of a failed
-- tail, and what utf8.Valid, json.Valid and the decoder's tokens are. A statement that the model gives
-- no failure of its own succeeds. Foreign keys are not modelled.
--
-- Not modelled: applyDialogDelete, which SubmitCommand refuses before it is reached, the decoding of
-- requests and the checks of their shape, SHA-256, the triggers that count up
-- quiescence_scope_revisions (their rows are an argument), reconciliation, the projection of adapter
-- events, artifacts, safe text, the pages other than the event history, schema migration, the rest of
-- the HTTP server (api/), the Codex adapter (adapters/codex/), the tool runner and the other packages
-- of internal/.
mod Prelude
pub mod Canonical
pub mod Ledger
pub mod Commands
pub mod Dispatch
pub mod Attempts
pub mod Output
pub mod Holds
pub mod Replay
pub mod Strict
pub mod Node
mod Samples
mod Witnesses
