-- ===== src/Commands/Handlers.antt =====
-- The handlers of runtime/command_handlers.go that admit, cancel and resume work.
use harness_codex.Prelude.{ℕ, ◌+◌, ◌-◌, false, String, none, ◌==◌, ltb, find?}
use harness_codex.Ledger.Types.{
  Uuid, Disposition, RequestStatus, Role, is_queued, operator_pause, DurableState, Dialog, Message,
  Request,
}
use harness_codex.Ledger.Db.{request_cancelled, message_accepted, message_disposition_changed}
use harness_codex.Ledger.Wire.{References, admitted, applied}
use harness_codex.Ledger.Tx.{
  Code, CurrentState, outdated, refused, internal, Tx, pure, guard, query, new_id, gets,
  modify_state, ◌>>=◌, ◌>>◌,
}
use harness_codex.Ledger.Statements.{
  insert_dialog, insert_message, insert_request, update_dialog, update_message, update_request,
}
use harness_codex.Ledger.Events.{append_event, append_node_event, append_queue_event}
use harness_codex.Commands.Envelope.{Applied}
use harness_codex.Commands.Reasons.{remove_reason, blocking_reason}

abbrev pub queue_capacity : ℕ
queue_capacity = 100

-- SELECT … FROM dialogs WHERE dialog_id=?
abbrev pub find_dialog : Uuid → Tx Dialog
find_dialog id = query (λ db. find? (λ (d : Dialog). d.dialog_id) id db.dialogs)

-- SELECT … FROM requests WHERE request_id=?
abbrev pub find_request : Uuid → Tx Request
find_request id = query (λ db. find? (λ (r : Request). r.request_id) id db.requests)

abbrev bump_dialog : Dialog → Dialog
bump_dialog d = record d { version = d.version + 1 }

-- applyDialogCreate
unfoldable pub apply_dialog_create : ℕ → String → Tx Applied
apply_dialog_create expected title = do
  s ← gets (λ w. w.state)
  guard (expected == s.registry_version) (outdated s.registry_version CurrentState.registry)
  dialog ← new_id
  insert_dialog (record {
    dialog_id = dialog;
    node_id = s.node_id;
    owner_id = s.owner_id;
    version = 1;
    title = title;
  })
  modify_state (λ s. record s { state_version = s.state_version + 1 })
  append_node_event
  after ← gets (λ w. w.state)
  pure (record {
    references = References.dialog_create dialog;
    result = admitted;
    blocking = blocking_reason after;
    action = none;
  })

abbrev queued_message : Uuid → Uuid → Uuid → Uuid → ℕ → String → Message
queued_message message dialog request command sequence text = record {
  message_id = message;
  dialog_id = dialog;
  sequence = sequence;
  version = 1;
  role = Role.user;
  text = text;
  disposition = Disposition.queued;
  command_id = command;
  request_id = request;
  attempt_id = none;
}

abbrev pub queued_request : Uuid → Uuid → Uuid → ℕ → ℕ → Request
queued_request request dialog message sequence now = record {
  request_id = request;
  dialog_id = dialog;
  input_message_id = message;
  queue_sequence = sequence;
  version = 1;
  status = RequestStatus.queued;
  created_at = now;
  updated_at = now;
}

abbrev count_enqueued : DurableState → DurableState
count_enqueued s = record s {
  next_message_sequence = s.next_message_sequence + 1;
  next_queue_sequence = s.next_queue_sequence + 1;
  pending_count = s.pending_count + 1;
  queue_version = s.queue_version + 1;
  state_version = s.state_version + 1;
}

-- applyMessageEnqueue
unfoldable pub apply_message_enqueue : Uuid → Uuid → ℕ → String → Tx Applied
apply_message_enqueue command dialog expected text = do
  d ← find_dialog dialog
  guard (expected == d.version) (outdated d.version CurrentState.dialog)
  s ← gets (λ w. w.state)
  guard (ltb s.pending_count queue_capacity) (refused 429 Code.queue_full)
  message ← new_id
  request ← new_id
  now ← gets (λ w. w.config.now)
  insert_message (queued_message message dialog request command s.next_message_sequence text)
  insert_request (queued_request request dialog message s.next_queue_sequence now)
  update_dialog dialog bump_dialog
  modify_state count_enqueued
  append_event message 1 none none (message_accepted dialog message request s.next_message_sequence)
      false
  append_queue_event
  append_node_event
  after ← gets (λ w. w.state)
  pure (record {
    references = References.message_enqueue dialog message request;
    result = admitted;
    blocking = blocking_reason after;
    action = none;
  })

abbrev cancel_request : ℕ → Request → Request
cancel_request now r = record r {
  version = r.version + 1;
  status = RequestStatus.cancelled;
  updated_at = now;
}

abbrev cancel_message : Message → Message
cancel_message m = record m { version = m.version + 1; disposition = Disposition.cancelled }

abbrev count_dequeued : DurableState → DurableState
count_dequeued s = record s {
  pending_count = s.pending_count - 1;
  queue_version = s.queue_version + 1;
  state_version = s.state_version + 1;
}

-- applyRequestCancel; a pending count below 0 fails the validation of the queue event.
unfoldable pub apply_request_cancel : Uuid → ℕ → Tx Applied
apply_request_cancel request expected = do
  r ← find_request request
  guard (expected == r.version) (outdated r.version (CurrentState.request r.status))
  guard (is_queued r.status) (outdated r.version (CurrentState.request r.status))
  now ← gets (λ w. w.config.now)
  update_request request (cancel_request now)
  update_message r.input_message_id cancel_message
  s ← gets (λ w. w.state)
  guard (ltb 0 s.pending_count) internal
  modify_state count_dequeued
  append_event r.input_message_id 2 none none
      (message_disposition_changed r.input_message_id Disposition.queued Disposition.cancelled
        request_cancelled)
      false
  append_queue_event
  append_node_event
  pure (record {
    references = References.request_cancel request;
    result = admitted;
    blocking = none;
    action = none;
  })

abbrev unpause : DurableState → DurableState
unpause s = record s {
  queue_paused = false;
  blocked_reasons = remove_reason s.blocked_reasons operator_pause;
  queue_version = s.queue_version + 1;
  state_version = s.state_version + 1;
}

-- applyQueueResume
unfoldable pub apply_queue_resume : ℕ → Tx Applied
apply_queue_resume expected = do
  s ← gets (λ w. w.state)
  guard (expected == s.queue_version) (outdated s.queue_version CurrentState.queue)
  modify_state unpause
  append_queue_event
  append_node_event
  after ← gets (λ w. w.state)
  pure (record {
    references = References.queue_resume s.node_id;
    result = applied;
    blocking = blocking_reason after;
    action = none;
  })
