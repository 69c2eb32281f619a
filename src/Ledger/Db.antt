-- ===== src/Ledger/Db.antt =====
-- The tables of the ledger, the event payloads (internal/harnessprotocol/types.go) and the stored
-- outcomes of commands (runtime/command.go, runtime/hold.go).
use harness_codex.Prelude.{ℕ, Bool, Option, List}
use harness_codex.Ledger.Types.{
  Uuid, Digest, EffectStatus, Disposition, EngineReadiness, Occupancy, Transport, Reason, Decision,
  DurableState, Dialog, Message, Request, Attempt, ControlAction, ToolCall, Approval, InputRequest,
  LateObservation, Hold, HoldOutcome, ScopeRevision,
}
use harness_codex.Ledger.Wire.{Body, Receipt, RejectionReceipt}

-- `reasonCode` of message.disposition_changed
pub data DispositionReason : Type 0 where
  request_cancelled steer_requested steer_fallback steer_applied : DispositionReason
  steer_unknown request_dispatched : DispositionReason

-- `reason` of attempt.unknown
pub data UnknownReason : Type 0 where
  dispatch_uncertain adapter_protocol provider_state cancel_unconfirmed : UnknownReason

-- harnessprotocol.NodeState
pub record NodeState : Type 0 where
  pub transport_availability : Transport
  pub engine_readiness : EngineReadiness
  pub occupancy : Occupancy
  pub queue_paused : Bool
  pub queue_version : ℕ
  pub pending_count : ℕ
  pub blocked_reasons : List Reason
  pub active_attempt_id : Option Uuid

-- The type of an event and its payload, of the events that the modelled transactions append: each event
-- type has one payload struct.
pub data Payload : Type 0 where
  node_state_changed : NodeState → Payload
  queue_changed : ℕ → ℕ → Option Uuid → Bool → Payload
  message_accepted : Uuid → Uuid → Uuid → ℕ → Payload
  message_disposition_changed : Uuid → Disposition → Disposition → DispositionReason → Payload
  dialog_deleted : Uuid → Payload
  attempt_dispatching : Uuid → ℕ → Uuid → Digest → Payload
  attempt_started : Uuid → ℕ → Payload
  attempt_stop_requested : ℕ → Uuid → Payload
  attempt_completed : ℕ → Payload
  attempt_failed : ℕ → EffectStatus → Payload
  attempt_interrupted : ℕ → EffectStatus → Payload
  attempt_unknown : ℕ → UnknownReason → EffectStatus → Payload
  approval_resolved : Uuid → Decision → Uuid → ℕ → Payload
  input_resolved : Uuid → Option Uuid → ℕ → Payload

-- events.projection_key
pub data ProjectionKey : Type 0 where
  dialog_deleted started terminal : ProjectionKey
  tool_completed : Uuid → EffectStatus → ProjectionKey

-- A row of `events`, with the fields of its EventEnvelope.
pub record Event : Type 0 where
  pub node_id : Uuid
  pub seq : ℕ
  pub epoch : ℕ
  pub entity_id : Uuid
  pub entity_version : ℕ
  pub attempt_id : Option Uuid
  pub dialog_id : Option Uuid
  pub payload : Payload
  pub late : Bool
  pub projection_key : Option ProjectionKey
  pub observed_at : ℕ

-- `canonical` stands for canonical_json, which the code decodes again.
pub record CommandRow : Type 0 where
  pub command_id : Uuid
  pub canonical : Body
  pub payload_hash : Digest
  pub receipt : Receipt

pub record CommandRejection : Type 0 where
  pub command_id : Uuid
  pub canonical : Body
  pub payload_hash : Digest
  pub receipt : RejectionReceipt
  pub hold_operation_id : Uuid

pub record Db : Type 0 where
  pub node_state : DurableState
  pub dialogs : List Dialog
  pub messages : List Message
  pub requests : List Request
  pub attempts : List Attempt
  pub commands : List CommandRow
  pub control_actions : List ControlAction
  pub events : List Event
  pub tool_calls : List ToolCall
  pub approvals : List Approval
  pub input_requests : List InputRequest
  pub late_observations : List LateObservation
  pub policy_snapshots : List Digest
  pub administrative_holds : List Hold
  pub hold_outcomes : List HoldOutcome
  pub hold_scope_revisions : List ScopeRevision
  pub hold_clock : ℕ
  pub command_rejections : List CommandRejection
