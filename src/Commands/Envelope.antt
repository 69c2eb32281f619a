-- ===== src/Commands/Envelope.antt =====
-- The classes of commands (internal/harnessprotocol/types.go), and what a handler returns
-- (runtime/command.go).
use harness_codex.Prelude.{Bool, true, false, Option}
use harness_codex.Ledger.Types.{Uuid, Reason, ActionKind, ActionPayload}
use harness_codex.Ledger.Wire.{CommandKind, References, Outcome}

-- IsAdmissionCommand
unfoldable pub is_admission : CommandKind → Bool
is_admission CommandKind.dialog_create = true
is_admission CommandKind.message_enqueue = true
is_admission CommandKind.attempt_retry = true
is_admission _ = false

-- postCommitAction
pub record PostCommit : Type 0 where
  pub kind : ActionKind
  pub attempt_id : Uuid
  pub message_id : Option Uuid
  pub actor_id : Option Uuid
  pub payload : ActionPayload

-- The values that applyCommand returns beside its error.
pub record Applied : Type 0 where
  pub references : References
  pub result : Outcome
  pub blocking : Option Reason
  pub action : Option PostCommit
