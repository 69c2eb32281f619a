-- ===== src/Ledger/Wire.antt =====
-- Commands and receipts as the wire contract decodes them (internal/harnessprotocol/types.go,
-- internal/harnessbarrier/types.go).
use harness_codex.Prelude.{ℕ, Bool, String, Option}
use harness_codex.Ledger.Types.{Uuid, Digest, Reason, Decision, Scope}

pub data CommandKind : Type 0 where
  dialog_create dialog_delete message_enqueue message_steer request_cancel : CommandKind
  attempt_stop queue_resume attempt_retry approval_respond input_respond : CommandKind

-- Target, expected and payload of each kind, in this order and without the node of the target.
pub data Body : Type 0 where
  dialog_create : ℕ → String → Body
  dialog_delete : Uuid → ℕ → Body
  message_enqueue : Uuid → ℕ → String → Body
  message_steer : Uuid → Uuid → Uuid → ℕ → ℕ → Body
  request_cancel : Uuid → ℕ → Body
  attempt_stop : Uuid → ℕ → Body
  queue_resume : ℕ → Body
  attempt_retry : Uuid → ℕ → Bool → Body
  approval_respond : Uuid → Uuid → ℕ → ℕ → Decision → Digest → Body
  input_respond : Uuid → Uuid → ℕ → ℕ → String → Body

-- `digest` is the SHA-256 of the canonical bytes.
pub record Envelope : Type 0 where
  pub command_id : Uuid
  pub digest : Digest
  pub target_node : Uuid
  pub body : Body

unfoldable pub kind_of : Body → CommandKind
kind_of (dialog_create _ _) = CommandKind.dialog_create
kind_of (dialog_delete _ _) = CommandKind.dialog_delete
kind_of (message_enqueue _ _ _) = CommandKind.message_enqueue
kind_of (message_steer _ _ _ _ _) = CommandKind.message_steer
kind_of (request_cancel _ _) = CommandKind.request_cancel
kind_of (attempt_stop _ _) = CommandKind.attempt_stop
kind_of (queue_resume _) = CommandKind.queue_resume
kind_of (attempt_retry _ _ _) = CommandKind.attempt_retry
kind_of (approval_respond _ _ _ _ _ _) = CommandKind.approval_respond
kind_of (input_respond _ _ _ _ _) = CommandKind.input_respond

-- The `references` of a receipt
pub data References : Type 0 where
  dialog_create : Uuid → References
  dialog_delete : Uuid → References
  message_enqueue : Uuid → Uuid → Uuid → References
  request_cancel : Uuid → References
  queue_resume : Uuid → References
  attempt_stop : Uuid → References
  attempt_retry : Uuid → Uuid → References
  message_steer : Uuid → Uuid → Uuid → References
  approval_respond : Uuid → Uuid → References
  input_respond : Uuid → Uuid → Uuid → References

-- `result` of a receipt
pub data Outcome : Type 0 where
  admitted applied deleted : Outcome

pub record Receipt : Type 0 where
  pub command_id : Uuid
  pub command_kind : CommandKind
  pub receipt_id : Uuid
  pub accepted_at : ℕ
  pub event_seq : ℕ
  pub result : Outcome
  pub blocking_reason : Option Reason
  pub references : References

-- harnessbarrier.RejectionReceipt
pub record RejectionReceipt : Type 0 where
  pub command_id : Uuid
  pub command_kind : CommandKind
  pub receipt_id : Uuid
  pub payload_hash : Digest
  pub rejected_at : ℕ
  pub hold_operation_id : Uuid
  pub hold_version : ℕ
  pub scope : Scope
  pub scope_revision : ℕ
