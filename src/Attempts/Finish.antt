-- ===== src/Attempts/Finish.antt =====
-- finishSteer, finishApproval and finishInput of runtime/actions.go.
use harness_codex.Prelude.{
  ℕ, ◌+◌, ◌-◌, Bool, true, false, Option, none, some, ◌==◌, ltb, find?, if◌then◌else◌,
}
use harness_codex.Ledger.Types.{
  Uuid, EffectStatus, RequestStatus, Disposition, ResponseStatus, ActionStatus, Decision,
  DurableState, Message, Request, Approval, InputRequest,
}
use harness_codex.Ledger.Db.{
  DispositionReason, steer_fallback, steer_applied, steer_unknown, provider_state,
  message_disposition_changed, approval_resolved, input_resolved,
}
use harness_codex.Ledger.Tx.{
  internal, Tx, pure, guard, query, gets, modify_state, load_state, save_state, ◌>>=◌, ◌>>◌,
}
use harness_codex.Ledger.Statements.{update_message, update_request, update_approval, update_input}
use harness_codex.Ledger.Events.{append_event, append_queue_event}
use harness_codex.Attempts.Unknown.{AttemptRef, set_attempt_unknown}

-- SteerOutcome of internal/harnessadapter/adapter.go
pub data SteerOutcome : Type 0 where
  applied fallback_queued unknown rejected : SteerOutcome

-- ResponseOutcome of internal/harnessadapter/adapter.go
pub data ResponseOutcome : Type 0 where
  applied rejected unknown : ResponseOutcome

-- actionStatus
unfoldable pub action_status : ResponseOutcome → ActionStatus
action_status ResponseOutcome.applied = ActionStatus.acknowledged
action_status ResponseOutcome.rejected = ActionStatus.rejected
action_status ResponseOutcome.unknown = ActionStatus.unknown

abbrev is_steer_pending : Disposition → Bool
is_steer_pending Disposition.steer_pending = true
is_steer_pending _ = false

abbrev pub steered_to : SteerOutcome → Disposition
steered_to SteerOutcome.applied = Disposition.applied
steered_to SteerOutcome.unknown = Disposition.unknown
steered_to _ = Disposition.queued

abbrev steer_reason : SteerOutcome → DispositionReason
steer_reason SteerOutcome.applied = steer_applied
steer_reason SteerOutcome.unknown = steer_unknown
steer_reason _ = steer_fallback

abbrev drop_pending : DurableState → DurableState
drop_pending s = record s { pending_count = s.pending_count - 1 }

abbrev close_request : RequestStatus → ℕ → Request → Request
close_request status now r = record r { version = r.version + 1; status = status; updated_at = now }

-- A pending count below 0 fails the validation of the queue event that follows.
abbrev leave_queue : RequestStatus → Uuid → Tx (Unit {0})
leave_queue status request = do
  s ← gets (λ w. w.state)
  guard (ltb 0 s.pending_count) internal
  modify_state drop_pending
  now ← gets (λ w. w.config.now)
  update_request request (close_request status now)

abbrev pub steer_request : SteerOutcome → Uuid → Tx (Unit {0})
steer_request SteerOutcome.applied request = leave_queue RequestStatus.completed request
steer_request SteerOutcome.unknown request = leave_queue RequestStatus.unknown request
steer_request _ request = pure tt

abbrev move_message : Disposition → Message → Message
move_message d m = record m { version = m.version + 1; disposition = d }

abbrev bump_queue : DurableState → DurableState
bump_queue s = record s { queue_version = s.queue_version + 1; state_version = s.state_version + 1 }

abbrev pub lose_on_unknown : AttemptRef → SteerOutcome → Tx (Unit {0})
lose_on_unknown ref SteerOutcome.unknown =
    set_attempt_unknown ref provider_state EffectStatus.unknown
lose_on_unknown ref _ = pure tt

-- finishSteer
unfoldable pub finish_steer : AttemptRef → Uuid → SteerOutcome → Tx (Unit {0})
finish_steer ref message outcome = do
  s ← load_state
  m ← query (λ db. find? (λ (x : Message). x.message_id) message db.messages)
  guard (is_steer_pending m.disposition) internal
  steer_request outcome m.request_id
  update_message message (move_message (steered_to outcome))
  modify_state bump_queue
  append_event message (m.version + 1) none none
      (message_disposition_changed message Disposition.steer_pending (steered_to outcome)
        (steer_reason outcome))
      false
  lose_on_unknown ref outcome
  append_queue_event
  save_state

abbrev pub response_status : ResponseOutcome → ResponseStatus
response_status ResponseOutcome.applied = ResponseStatus.resolved
response_status ResponseOutcome.unknown = ResponseStatus.unknown
response_status ResponseOutcome.rejected = ResponseStatus.pending

-- finishResponse
abbrev pub end_response : AttemptRef → ResponseOutcome → Tx (Unit {0})
end_response ref ResponseOutcome.unknown = do
  set_attempt_unknown ref provider_state EffectStatus.unknown
  save_state
end_response ref _ = save_state

-- UPDATE approvals SET status=? WHERE approval_id=? AND version=?
abbrev answer_approval : ResponseStatus → ℕ → Approval → Approval
answer_approval s version p = if p.version == version then record p { status = s } else p

abbrev pub resolve_approval :
    AttemptRef → Uuid → Uuid → ℕ → Decision → ResponseOutcome → Tx (Unit {0})
resolve_approval ref actor approval version decision ResponseOutcome.applied =
    append_event approval version (some ref.attempt_id) (some ref.dialog_id)
      (approval_resolved approval decision actor version) false
resolve_approval ref actor approval version decision _ = pure tt

-- finishApproval
unfoldable pub finish_approval :
    AttemptRef → Uuid → Uuid → ℕ → Decision → ResponseOutcome → Tx (Unit {0})
finish_approval ref actor approval version decision outcome = do
  s ← load_state
  update_approval approval (answer_approval (response_status outcome) version)
  resolve_approval ref actor approval version decision outcome
  end_response ref outcome

abbrev answer_input : ResponseStatus → ℕ → InputRequest → InputRequest
answer_input s version i = if i.version == version then record i { status = s } else i

abbrev pub resolve_input : AttemptRef → Option Uuid → Uuid → ℕ → ResponseOutcome → Tx (Unit {0})
resolve_input ref message input version ResponseOutcome.applied =
    append_event input version (some ref.attempt_id) (some ref.dialog_id)
      (input_resolved input message version) false
resolve_input ref message input version _ = pure tt

-- finishInput
unfoldable pub finish_input : AttemptRef → Option Uuid → Uuid → ℕ → ResponseOutcome → Tx (Unit {0})
finish_input ref message input version outcome = do
  s ← load_state
  update_input input (answer_input (response_status outcome) version)
  resolve_input ref message input version outcome
  end_response ref outcome
