-- ===== src/Ledger/Types.antt =====
-- The rows of the ledger and the words of their columns (runtime/schema.go,
-- internal/harnessprotocol/types.go, runtime/sql.go). An identifier, a hash or an opaque receipt is
-- a number: the code only stores it and compares it for equality.
use harness_codex.Prelude.{ℕ, Bool, true, false, String, Option, List, ◌==◌}

abbrev pub Uuid : Type 0
Uuid = ℕ

abbrev pub Digest : Type 0
Digest = ℕ

-- attempts.state
pub data AttemptState : Type 0 where
  dispatching running waiting_input stopping unknown completed failed interrupted : AttemptState

-- attempts.effect_status
pub data EffectStatus : Type 0 where
  none known unknown : EffectStatus

-- requests.status
pub data RequestStatus : Type 0 where
  queued dispatching active unknown cancelled completed failed interrupted : RequestStatus

-- messages.disposition
pub data Disposition : Type 0 where
  queued steer_pending applied cancelled unknown : Disposition

-- control_actions.status
pub data ActionStatus : Type 0 where
  pending inflight acknowledged rejected unknown : ActionStatus

-- control_actions.kind
pub data ActionKind : Type 0 where
  dispatch_start attempt_stop message_steer approval_respond input_respond : ActionKind

-- approvals.status, input_requests.status
pub data ResponseStatus : Type 0 where
  pending responding resolved unknown : ResponseStatus

-- tool_calls.status
pub data ToolStatus : Type 0 where
  running succeeded failed : ToolStatus

pub data Role : Type 0 where
  user assistant : Role

pub data EngineReadiness : Type 0 where
  ready blocked unknown : EngineReadiness

pub data Occupancy : Type 0 where
  idle active unknown : Occupancy

-- node_state.blocked_reasons
pub data Reason : Type 0 where
  operator_pause execution_unknown policy_unavailable storage_unavailable : Reason
  engine_unavailable adapter_protocol : Reason

-- node_state.transport_availability
pub data Transport : Type 0 where
  online stale offline : Transport

pub data Decision : Type 0 where
  approve deny : Decision

-- administrative_holds.scope, with its dialog_id
pub data Scope : Type 0 where
  node : Scope
  dialog : Uuid → Scope

-- `one_active_attempt` in the schema, and the states that the handlers call active
unfoldable pub is_active : AttemptState → Bool
is_active AttemptState.dispatching = true
is_active AttemptState.running = true
is_active AttemptState.waiting_input = true
is_active AttemptState.stopping = true
is_active AttemptState.unknown = true
is_active _ = false

unfoldable pub is_queued : RequestStatus → Bool
is_queued RequestStatus.queued = true
is_queued _ = false

abbrev pub reason_code : Reason → ℕ
reason_code operator_pause = 0
reason_code execution_unknown = 1
reason_code policy_unavailable = 2
reason_code storage_unavailable = 3
reason_code engine_unavailable = 4
reason_code adapter_protocol = 5

-- The words are compared as strings in the source; two words are equal when their codes are.
abbrev pub same_reason : Reason → Reason → Bool
same_reason a b = reason_code a == reason_code b

pub record DurableState : Type 0 where
  pub node_id : Uuid
  pub owner_id : Uuid
  pub registry_version : ℕ
  pub epoch : ℕ
  pub state_version : ℕ
  pub last_event_seq : ℕ
  pub queue_version : ℕ
  pub queue_paused : Bool
  pub transport_availability : Transport
  pub engine_readiness : EngineReadiness
  pub occupancy : Occupancy
  pub active_attempt_id : Option Uuid
  pub pending_count : ℕ
  pub blocked_reasons : List Reason
  pub next_queue_sequence : ℕ
  pub next_message_sequence : ℕ

pub record Dialog : Type 0 where
  pub dialog_id : Uuid
  pub node_id : Uuid
  pub owner_id : Uuid
  pub version : ℕ
  pub title : String

pub record Message : Type 0 where
  pub message_id : Uuid
  pub dialog_id : Uuid
  pub sequence : ℕ
  pub version : ℕ
  pub role : Role
  pub text : String
  pub disposition : Disposition
  pub command_id : Uuid
  pub request_id : Uuid
  pub attempt_id : Option Uuid

pub record Request : Type 0 where
  pub request_id : Uuid
  pub dialog_id : Uuid
  pub input_message_id : Uuid
  pub queue_sequence : ℕ
  pub version : ℕ
  pub status : RequestStatus
  pub created_at : ℕ
  pub updated_at : ℕ

pub record Attempt : Type 0 where
  pub attempt_id : Uuid
  pub node_id : Uuid
  pub dialog_id : Uuid
  pub request_id : Uuid
  pub generation : ℕ
  pub version : ℕ
  pub state : AttemptState
  pub effect_status : EffectStatus
  pub context_boundary_message_id : Uuid
  pub policy_hash : Digest
  pub started_at : Option ℕ
  pub finished_at : Option ℕ
  pub output_bytes : ℕ

-- The part of an action's payload that its kind adds: the failed-tail proof of a start (by a name), the text of a steer, the approval's
-- identifier, version, call, hash and decision, or the input request's identifier, version and text.
pub data ActionDetail : Type 0 where
  plain : ActionDetail
  start : Option Uuid → ActionDetail
  steer : String → ActionDetail
  approval : Uuid → ℕ → Uuid → Digest → Decision → ActionDetail
  input : Uuid → ℕ → String → ActionDetail

pub record ActionPayload : Type 0 where
  pub generation : ℕ
  pub dialog_id : Uuid
  pub request_id : Uuid
  pub detail : ActionDetail

pub record ControlAction : Type 0 where
  pub command_id : Uuid
  pub kind : ActionKind
  pub attempt_id : Uuid
  pub message_id : Option Uuid
  pub actor_id : Option Uuid
  pub payload : ActionPayload
  pub status : ActionStatus

pub record ToolCall : Type 0 where
  pub call_id : Uuid
  pub attempt_id : Uuid
  pub action_hash : Digest
  pub version : ℕ
  pub status : ToolStatus

pub record Approval : Type 0 where
  pub approval_id : Uuid
  pub attempt_id : Uuid
  pub call_id : Uuid
  pub action_hash : Digest
  pub version : ℕ
  pub status : ResponseStatus
  pub decision : Option Decision
  pub actor_id : Option Uuid

pub record InputRequest : Type 0 where
  pub input_request_id : Uuid
  pub attempt_id : Uuid
  pub version : ℕ
  pub status : ResponseStatus
  pub response_message_id : Option Uuid

-- late_observations, with the columns that the output ledger reads
pub record LateObservation : Type 0 where
  pub attempt_id : Uuid
  pub generation : ℕ
  pub event_seq : ℕ
  pub has_projection_key : Bool
  pub output_bytes : ℕ

-- harnessbarrier.HoldReceipt
pub record HoldReceipt : Type 0 where
  pub operation_id : Uuid
  pub receipt_id : Uuid
  pub node_id : Uuid
  pub epoch : ℕ
  pub binding_generation : ℕ
  pub scope : Scope
  pub hold_version : ℕ
  pub scope_revision : ℕ
  pub installed_at : ℕ

-- administrative_holds
pub record Hold : Type 0 where
  pub operation_id : Uuid
  pub node_id : Uuid
  pub node_epoch : ℕ
  pub binding_generation : ℕ
  pub scope : Scope
  pub hold_version : ℕ
  pub scope_revision : ℕ
  pub payload_hash : Digest
  pub receipt : HoldReceipt

-- ReleaseRequest.Action
pub data ReleaseAction : Type 0 where
  release cancel : ReleaseAction

-- harnessbarrier.ReleaseReceipt
pub record ReleaseReceipt : Type 0 where
  pub action : ReleaseAction
  pub operation_id : Uuid
  pub receipt_id : Uuid
  pub node_id : Uuid
  pub epoch : ℕ
  pub binding_generation : ℕ
  pub scope : Scope
  pub hold_version : ℕ
  pub scope_revision : ℕ
  pub manual_pause : Bool
  pub released_at : ℕ

-- administrative_hold_outcomes
pub record HoldOutcome : Type 0 where
  pub operation_id : Uuid
  pub action : ReleaseAction
  pub payload_hash : Digest
  pub receipt : ReleaseReceipt
  pub scope_revision : ℕ

-- hold_scope_revisions
pub record ScopeRevision : Type 0 where
  pub scope : Scope
  pub revision : ℕ
