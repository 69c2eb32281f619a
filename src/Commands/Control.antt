-- ===== src/Commands/Control.antt =====
-- The handlers of runtime/control_handlers.go that stop and steer an attempt and answer its
-- approvals and input requests.
use harness_codex.Prelude.{
  ℕ, ◌+◌, Bool, true, false, ◌&&◌, String, Option, none, some, ◌==◌, find?, first,
}
use harness_codex.Ledger.Types.{
  Uuid, Digest, AttemptState, Disposition, ResponseStatus, ActionKind, Role, operator_pause,
  Decision, DurableState, Message, Attempt, plain, steer, approval, input, Approval, InputRequest,
}
use harness_codex.Ledger.Db.{message_disposition_changed, steer_requested, attempt_stop_requested}
use harness_codex.Ledger.Wire.{References, admitted}
use harness_codex.Ledger.Tx.{
  CurrentState, outdated, Tx, pure, guard, query, new_id, gets, modify_state, ◌>>=◌, ◌>>◌,
}
use harness_codex.Ledger.Statements.{
  insert_message, update_attempt, update_message, update_approval, update_input,
}
use harness_codex.Ledger.Events.{append_event, append_node_event, append_queue_event}
use harness_codex.Commands.Envelope.{Applied}
use harness_codex.Commands.Reasons.{add_reason}

-- SELECT … FROM attempts WHERE attempt_id=?
abbrev pub find_attempt : Uuid → Tx Attempt
find_attempt id = query (λ db. find? (λ (a : Attempt). a.attempt_id) id db.attempts)

unfoldable pub holds_slot : Option Uuid → Uuid → Bool
holds_slot none id = false
holds_slot (some a) id = a == id

unfoldable pub can_stop : AttemptState → Bool
can_stop AttemptState.dispatching = true
can_stop AttemptState.running = true
can_stop AttemptState.waiting_input = true
can_stop AttemptState.stopping = true
can_stop _ = false

unfoldable pub can_steer : AttemptState → Bool
can_steer AttemptState.running = true
can_steer AttemptState.waiting_input = true
can_steer _ = false

unfoldable pub is_queued_message : Disposition → Bool
is_queued_message Disposition.queued = true
is_queued_message _ = false

unfoldable pub is_pending : ResponseStatus → Bool
is_pending ResponseStatus.pending = true
is_pending _ = false

abbrev stop_attempt : Attempt → Attempt
stop_attempt a = record a { version = a.version + 1; state = AttemptState.stopping }

abbrev pause : DurableState → DurableState
pause s = record s {
  queue_paused = true;
  blocked_reasons = add_reason s.blocked_reasons operator_pause;
  queue_version = s.queue_version + 1;
  state_version = s.state_version + 1;
}

-- applyAttemptStop
unfoldable pub apply_attempt_stop : Uuid → Uuid → ℕ → Tx Applied
apply_attempt_stop command attempt expected = do
  a ← find_attempt attempt
  s ← gets (λ w. w.state)
  guard (expected == a.generation && holds_slot s.active_attempt_id attempt)
      (outdated a.generation (CurrentState.attempt a.state))
  guard (can_stop a.state) (outdated a.generation (CurrentState.attempt a.state))
  update_attempt attempt stop_attempt
  modify_state pause
  append_event attempt (a.version + 1) (some attempt) (some a.dialog_id)
      (attempt_stop_requested a.generation command) false
  append_queue_event
  append_node_event
  pure (record {
    references = References.attempt_stop attempt;
    result = admitted;
    blocking = some operator_pause;
    action = some (record {
      kind = ActionKind.attempt_stop;
      attempt_id = attempt;
      message_id = none;
      actor_id = none;
      payload = record {
        generation = a.generation;
        dialog_id = a.dialog_id;
        request_id = a.request_id;
        detail = plain;
      };
    });
  })

abbrev steer_message : Message → Message
steer_message m = record m { version = m.version + 1; disposition = Disposition.steer_pending }

abbrev requeue_version : DurableState → DurableState
requeue_version s = record s {
  queue_version = s.queue_version + 1;
  state_version = s.state_version + 1;
}

abbrev in_dialog : Uuid → Uuid → Message → Bool
in_dialog message dialog m = m.message_id == message && m.dialog_id == dialog

-- applyMessageSteer
unfoldable pub apply_message_steer : Uuid → Uuid → Uuid → ℕ → ℕ → Tx Applied
apply_message_steer dialog attempt message generation version = do
  a ← find_attempt attempt
  m ← query (λ db. first (in_dialog message dialog) db.messages)
  s ← gets (λ w. w.state)
  guard
      (a.generation == generation
        && m.version == version
        && a.dialog_id == dialog
        && holds_slot s.active_attempt_id attempt)
      (outdated a.generation (CurrentState.attempt a.state))
  guard (is_queued_message m.disposition && can_steer a.state)
      (outdated m.version (CurrentState.message m.disposition))
  update_message message steer_message
  modify_state requeue_version
  append_event message (m.version + 1) none none
      (message_disposition_changed message Disposition.queued Disposition.steer_pending
        steer_requested)
      false
  append_queue_event
  pure (record {
    references = References.message_steer dialog message attempt;
    result = admitted;
    blocking = none;
    action = some (record {
      kind = ActionKind.message_steer;
      attempt_id = attempt;
      message_id = some message;
      actor_id = none;
      payload = record {
        generation = a.generation;
        dialog_id = dialog;
        request_id = m.request_id;
        detail = steer m.text;
      };
    });
  })

abbrev respond_approval : Decision → Uuid → Approval → Approval
respond_approval decision actor p = record p {
  version = p.version + 1;
  status = ResponseStatus.responding;
  decision = some decision;
  actor_id = some actor;
}

abbrev pub of_approval : Uuid → Uuid → Approval → Bool
of_approval id attempt p = p.approval_id == id && p.attempt_id == attempt

-- applyApproval
unfoldable pub apply_approval : Uuid → Uuid → ℕ → ℕ → Decision → Digest → Tx Applied
apply_approval id attempt version generation decision action_hash = do
  p ← query (λ db. first (of_approval id attempt) db.approvals)
  a ← find_attempt attempt
  guard
      (p.version == version
        && a.generation == generation
        && is_pending p.status
        && p.action_hash == action_hash)
      (outdated p.version (CurrentState.response p.status))
  owner ← gets (λ w. w.config.owner_id)
  update_approval id (respond_approval decision owner)
  pure (record {
    references = References.approval_respond id attempt;
    result = admitted;
    blocking = none;
    action = some (record {
      kind = ActionKind.approval_respond;
      attempt_id = attempt;
      message_id = none;
      actor_id = some owner;
      payload = record {
        generation = a.generation;
        dialog_id = a.dialog_id;
        request_id = a.request_id;
        detail = approval id (p.version + 1) p.call_id p.action_hash decision;
      };
    });
  })

abbrev respond_input : Uuid → InputRequest → InputRequest
respond_input message i = record i {
  version = i.version + 1;
  status = ResponseStatus.responding;
  response_message_id = some message;
}

abbrev pub of_input : Uuid → Uuid → InputRequest → Bool
of_input id attempt i = i.input_request_id == id && i.attempt_id == attempt

abbrev next_message : DurableState → DurableState
next_message s = record s { next_message_sequence = s.next_message_sequence + 1 }

-- applyInput
unfoldable pub apply_input : Uuid → Uuid → Uuid → ℕ → ℕ → String → Tx Applied
apply_input command id attempt version generation text = do
  i ← query (λ db. first (of_input id attempt) db.input_requests)
  a ← find_attempt attempt
  guard (i.version == version && a.generation == generation && is_pending i.status)
      (outdated i.version (CurrentState.response i.status))
  message ← new_id
  s ← gets (λ w. w.state)
  insert_message (record {
    message_id = message;
    dialog_id = a.dialog_id;
    sequence = s.next_message_sequence;
    version = 1;
    role = Role.user;
    text = text;
    disposition = Disposition.applied;
    command_id = command;
    request_id = a.request_id;
    attempt_id = some attempt;
  })
  update_input id (respond_input message)
  modify_state next_message
  owner ← gets (λ w. w.config.owner_id)
  pure (record {
    references = References.input_respond id attempt message;
    result = admitted;
    blocking = none;
    action = some (record {
      kind = ActionKind.input_respond;
      attempt_id = attempt;
      message_id = some message;
      actor_id = some owner;
      payload = record {
        generation = a.generation;
        dialog_id = a.dialog_id;
        request_id = a.request_id;
        detail = input id (i.version + 1) text;
      };
    });
  })
