-- ===== src/Commands/Submit.antt =====
-- SubmitCommand of runtime/command.go: one transaction from the authority check to the receipt.
use harness_codex.Prelude.{
  Bool, true, false, ◌||◌, not, Option, none, some, [], ◌∷◌, ◌++◌, ◌==◌, if◌then◌else◌, any,
}
use harness_codex.Ledger.Types.{
  Uuid, storage_unavailable, EngineReadiness, DurableState, ControlAction, ActionStatus, Hold,
}
use harness_codex.Ledger.Wire.{
  Body, dialog_create, dialog_delete, message_enqueue, message_steer, request_cancel, attempt_stop,
  queue_resume, attempt_retry, approval_respond, input_respond, Envelope, kind_of, Receipt,
  RejectionReceipt,
}
use harness_codex.Ledger.Db.{Db, CommandRow, CommandRejection}
use harness_codex.Ledger.Tx.{
  Config, Work, Code, internal, refused, Result, err, ok, Tx, pure, fail, guard, new_id, gets,
  load_state, save_state, ◌>>=◌, ◌>>◌,
}
use harness_codex.Ledger.Statements.{insert_action}
use harness_codex.Commands.Envelope.{is_admission, PostCommit, Applied}
use harness_codex.Commands.Reasons.{add_reason}
use harness_codex.Commands.Handlers.{
  apply_dialog_create, apply_message_enqueue, apply_request_cancel, apply_queue_resume,
}
use harness_codex.Commands.Control.{
  apply_attempt_stop, apply_message_steer, apply_approval, apply_input,
}
use harness_codex.Commands.Retry.{apply_attempt_retry}
use harness_codex.Commands.Lookup.{
  authorize_object, Stored, accepted, rejected, stored_hash, load_outcome, targets_deleted,
  covering_hold,
}
use harness_codex.Commands.Host.{Trust, Host, below_floor, same_identity}
use harness_codex.Commands.Reply.{receipt, rejection, Reply, refusal, command_error, conclude}

-- applyCommand
unfoldable pub apply_command : Envelope → Body → Tx Applied
apply_command e (dialog_create expected title) = apply_dialog_create expected title
apply_command e (message_enqueue dialog expected text) =
    apply_message_enqueue e.command_id dialog expected text
apply_command e (request_cancel request expected) = apply_request_cancel request expected
apply_command e (queue_resume expected) = apply_queue_resume expected
apply_command e (attempt_stop attempt expected) = apply_attempt_stop e.command_id attempt expected
apply_command e (attempt_retry attempt expected acknowledge) =
    apply_attempt_retry attempt expected acknowledge
apply_command e (message_steer dialog attempt message generation version) =
    apply_message_steer dialog attempt message generation version
apply_command e (approval_respond id attempt version generation decision action_hash) =
    apply_approval id attempt version generation decision action_hash
apply_command e (input_respond id attempt version generation text) =
    apply_input e.command_id id attempt version generation text
apply_command e (dialog_delete _ _) = fail (refused 400 Code.invalid)

abbrev pub block_storage : DurableState → DurableState
block_storage s = record s {
  engine_readiness = EngineReadiness.blocked;
  blocked_reasons = add_reason s.blocked_reasons storage_unavailable;
}

-- The storage checks before the first write: an admission needs free space, any other command
-- needs the control reserve and notes that space is low.
unfoldable pub check_storage : Host → Bool → Tx (Unit {0})
unfolding guard below_floor
check_storage h true w = guard (not (below_floor h.probe)) (refused 503 Code.not_durable) w
check_storage h false w =
    if h.reserve_released
    then ok (
      tt,
      (if below_floor h.probe || below_floor h.physical
          then record w { state = block_storage w.state }
          else w),
    )
    else err (refused 503 Code.not_durable)

abbrev pub pending_action : Uuid → PostCommit → ControlAction
pending_action command a = record {
  command_id = command;
  kind = a.kind;
  attempt_id = a.attempt_id;
  message_id = a.message_id;
  actor_id = a.actor_id;
  payload = a.payload;
  status = ActionStatus.pending;
}

-- INSERT INTO control_actions, if the handler left an action
unfoldable pub record_action : Uuid → Option PostCommit → Tx (Unit {0})
unfolding insert_action
record_action command none w = ok (tt, w)
record_action command (some a) w = insert_action (pending_action command a) w

abbrev pub command_clash : CommandRow → CommandRow → Bool
command_clash c x = x.command_id == c.command_id

-- INSERT INTO commands
unfoldable pub insert_command : CommandRow → Tx (Unit {0})
insert_command c w =
    if any (command_clash c) w.db.commands
    then err internal
    else ok (tt, record w { db = record w.db { commands = w.db.commands ++ c ∷ [] } })

abbrev pub rejection_clash : CommandRejection → CommandRejection → Bool
rejection_clash c x = x.command_id == c.command_id

-- INSERT INTO command_rejections
unfoldable pub insert_rejection : CommandRejection → Tx (Unit {0})
insert_rejection c w =
    if any (rejection_clash c) w.db.command_rejections
    then err internal
    else ok (
      tt,
      record w { db = record w.db { command_rejections = w.db.command_rejections ++ c ∷ [] } },
    )

-- The receipt of a command, its control action, its row and the saved state
unfoldable pub accept : Envelope → Tx Receipt
accept e = do
  a ← apply_command e e.body
  id ← new_id
  s ← gets (λ w. w.state)
  now ← gets (λ w. w.config.now)
  let receipt : Receipt = record {
    command_id = e.command_id;
    command_kind = kind_of e.body;
    receipt_id = id;
    accepted_at = now;
    event_seq = s.last_event_seq;
    result = a.result;
    blocking_reason = a.blocking;
    references = a.references;
  }
  valid ← gets (λ w. w.config.validates_receipt receipt)
  guard valid internal
  record_action e.command_id a.action
  insert_command (record {
    command_id = e.command_id;
    canonical = e.body;
    payload_hash = e.digest;
    receipt = receipt;
  })
  save_state
  pure receipt

-- commitCommandRejection
unfoldable pub reject_held : Envelope → Hold → Tx RejectionReceipt
reject_held e h = do
  id ← new_id
  now ← gets (λ w. w.config.now)
  let receipt : RejectionReceipt = record {
    command_id = e.command_id;
    command_kind = kind_of e.body;
    receipt_id = id;
    payload_hash = e.digest;
    rejected_at = now;
    hold_operation_id = h.operation_id;
    hold_version = h.hold_version;
    scope = h.scope;
    scope_revision = h.scope_revision;
  }
  valid ← gets (λ w. w.config.validates_rejection receipt)
  guard valid internal
  insert_rejection (record {
    command_id = e.command_id;
    canonical = e.body;
    payload_hash = e.digest;
    receipt = receipt;
    hold_operation_id = h.operation_id;
  })
  pure receipt

-- What the transaction decides
pub data Verdict : Type 0 where
  replayed : Stored → Verdict
  admitted : Receipt → Verdict
  held : RejectionReceipt → Verdict

abbrev pub admit : Host → Envelope → Option Hold → Tx Verdict
admit h e none = do check_storage h (is_admission (kind_of e.body)); r ← accept e; pure (admitted r)
admit h e (some hold) = do
  guard h.reserve_released (refused 503 Code.not_durable)
  r ← reject_held e hold
  pure (held r)

abbrev pub decide : Host → Envelope → Option Stored → Tx Verdict
decide h e (some o) = do
  guard (stored_hash o == e.digest) (refused 409 Code.id_conflict)
  db ← gets (λ w. w.db)
  guard (not (targets_deleted db o)) (refused 404 Code.not_found)
  pure (replayed o)
decide h e none = do authorize_object e; hold ← covering_hold e.body; admit h e hold

unfoldable pub command_tx : Trust → Host → Envelope → Tx Verdict
command_tx t h e = do
  s ← load_state
  c ← gets (λ w. w.config)
  guard (same_identity c s t.expected_identity) (refused 409 Code.stale)
  found ← load_outcome e.command_id
  decide h e found

abbrev pub stored_reply : Stored → Reply
stored_reply (accepted r) = record {
  http_status = 200;
  body = receipt r.receipt;
  committed = false;
}
stored_reply (rejected r) = record {
  http_status = 409;
  body = rejection r.receipt;
  committed = false;
}

abbrev pub settle : Host → Db → Result (Verdict × Work) → Reply × Db
settle h before (err e) = (command_error e, before)
settle h before (ok (replayed o, w)) = (stored_reply o, before)
settle h before (ok (admitted r, w)) =
    conclude h (record { http_status = 202; body = receipt r; committed = true }) before w.db
settle h before (ok (held r, w)) =
    conclude h (record { http_status = 409; body = rejection r; committed = true }) before w.db

abbrev pub is_delete : Body → Bool
is_delete (dialog_delete _ _) = true
is_delete _ = false

abbrev pub begin : Config → Host → Db → Work
begin c h db = record { config = c; db = db; state = db.node_state; ids = h.ids }

-- SubmitCommand; `none` stands for bytes that are no command of the wire contract.
unfoldable pub submit_command : Config → Trust → Option Envelope → Host → Db → Reply × Db
submit_command c t none h db =
    if t.transport_node_id == c.node_id
    then (refusal 400 Code.invalid, db)
    else (refusal 404 Code.not_found, db)
submit_command c t (some e) h db =
    if t.transport_node_id == c.node_id
    then (if is_delete e.body
        then (refusal 403 Code.forbidden, db)
        else settle h db (command_tx t h e (begin c h db)))
    else (refusal 404 Code.not_found, db)
