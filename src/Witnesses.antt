-- ===== src/Witnesses.antt =====
-- The theorems at a small ledger, and runs of the transactions on it.
mod Strict
mod Holds
mod Replay
mod Canonical
use harness_codex.Prelude.{◌≡◌, refl, true, false, some, arith}
use harness_codex.Ledger.Tx.{Code}
use harness_codex.Ledger.Db.{Db}
use harness_codex.Ledger.History.{History}
use harness_codex.Commands.Host.{Host}
use harness_codex.Commands.Reply.{receipt, refusal}
use harness_codex.Commands.Submit.{submit_command}
use harness_codex.Prelude.{[], ◌+◌, ◌≤◌}
use harness_codex.Ledger.Leads.{Ends}
use harness_codex.Dispatch.Queue.{peek_dispatch, next_request, may_run, is_held, is_occupied}
use harness_codex.Dispatch.Next.{
  begin, dispatching, dispatch_next, dispatch_tx, start_attempt, announce, keep_policy,
  settle_message, tail_proof,
}
use harness_codex.Dispatch.Order.{Dispatched, dispatch_next-Dispatched}
use harness_codex.Attempts.Observe.{observe}
use harness_codex.Attempts.Late.{SameWork, observe-SameWork}
use harness_codex.Attempts.Unknown.{recover_startup}
use harness_codex.Attempts.Recovery.{IsSettled, recover_startup-IsSettled}
use harness_codex.Output.Budget.{
  maximum, newly_over, over, within, archived_bytes, is_exceeded, set_output, charge_attempt_output,
}
use harness_codex.Output.Bounds.{Counts, charge_attempt_output-sticks, charge_attempt_output-Counts}
use harness_codex.Node.Steps.{run, Reachable, here, next, submit, dispatch}
use harness_codex.Node.Reach.{Reachable-History}
use harness_codex.Commands.Control.{holds_slot, is_queued_message}
use harness_codex.Samples.{
  config, trust, host, ledger, queued_ledger, gate, running_attempt, running_ledger,
  late_observation, enqueue, other_enqueue,
}
use harness_codex.Ledger.Wire.{kind_of}
use harness_codex.Ledger.Types.{is_queued, is_active}
use harness_codex.Commands.Retry.{max_generation}
use harness_codex.Prelude.{find?, any, least, update_at, count_if}
use harness_codex.Ledger.Tx.{
  ◌>>=◌, load_state, gets, guard, query, new_id, modify_state, pure, save_state, modify_db,
}
use harness_codex.Ledger.Statements.{
  insert_message, insert_request, insert_attempt, one_active, action_clash, attempt_clash,
  insert_action, update_message, update_request, update_dialog, message_clash, request_clash,
}
use harness_codex.Ledger.Events.{
  append_event, append_queue_event, append_node_event, push_event, new_event, event_clash,
}
use harness_codex.Commands.Envelope.{is_admission}
use harness_codex.Commands.Reasons.{blocking_reason, contains_reason, remove_reason}
use harness_codex.Commands.Handlers.{apply_message_enqueue}
use harness_codex.Commands.Lookup.{
  load_outcome, authorize_object, covering_hold, active_hold, coverage, dialog_deleted, target_of,
  targets_deleted,
}
use harness_codex.Commands.Host.{below_floor, admission_floor}
use harness_codex.Commands.Submit.{
  command_tx, check_storage, accept, apply_command, record_action, insert_command,
}
use harness_codex.Prelude.{◌≢◌, first}
use harness_codex.Ledger.Types.{ActionStatus, EffectStatus}
use harness_codex.Ledger.Db.{provider_state}
use harness_codex.Attempts.Unknown.{mark_unknown_tx}
use harness_codex.Dispatch.Occupied.{SameAttempts}
use harness_codex.Attempts.Fence.{mark_unknown_tx-blocks}
use harness_codex.Attempts.Claims.{Claimed, claim_action-Claimed}
use harness_codex.Attempts.Actions.{
  Lane, is_pending_action, in_lane, lane_open, is_claimable, set_action_if, claim_action,
}
use harness_codex.Commands.Submit
use harness_codex.Ledger.Tx.{ok}
use harness_codex.Commands.Held.{SameButRejections, submit_command-SameButRejections}
use harness_codex.Samples.{node_hold, held_ledger, pending_ledger, pending_start, running_ref}

-- A host on which SQLite does not commit
enqueue_commits : (submit_command config trust (some enqueue) host ledger).0.committed ≡ true
unfolding submit_command command_tx ◌>>=◌ load_state gets guard load_outcome find? authorize_object
    any covering_hold least check_storage is_admission kind_of accept apply_command
    apply_message_enqueue query new_id insert_message insert_request update_dialog modify_state
    append_event append_queue_event append_node_event blocking_reason pure record_action
    insert_command save_state push_event new_event event_clash message_clash request_clash update_at
    below_floor admission_floor active_hold coverage dialog_deleted target_of
enqueue_commits = refl

ledger-History : History ledger
ledger-History = refl

-- A submission, and a round of the dispatcher after it
two_steps :
    let after = (submit_command config trust (some enqueue) host ledger).1 in
    Reachable ledger (dispatch_next config gate after after).1
two_steps =
    next (next here (submit config trust (some enqueue) host ledger))
      (dispatch config gate _ (submit_command config trust (some enqueue) host ledger).1)

Reachable-History_example :
    let after = (submit_command config trust (some enqueue) host ledger).1 in
    History (dispatch_next config gate after after).1
Reachable-History_example = Reachable-History two_steps ledger-History

queue_dispatches : (dispatch_next config gate queued_ledger queued_ledger).0 ≡ dispatching 40 31
unfolding dispatch_next peek_dispatch contains_reason any least is_queued find? dispatch_tx ◌>>=◌
    load_state gets start_attempt query new_id keep_policy insert_attempt one_active count_if
    is_queued_message active_hold remove_reason max_generation announce settle_message tail_proof
    is_held is_occupied may_run next_request append_event append_node_event append_queue_event
    event_clash new_event push_event action_clash attempt_clash insert_action update_message
    update_request modify_db modify_state pure save_state is_active update_at
queue_dispatches = refl

dispatch_next-Dispatched_example :
    Dispatched queued_ledger (dispatch_next config gate queued_ledger queued_ledger).1 40 31
dispatch_next-Dispatched_example =
    dispatch_next-Dispatched config gate queued_ledger queued_ledger 40 31 queue_dispatches

observe-SameWork_example :
    SameWork running_ledger (run config [] true (observe late_observation) running_ledger)
unfolding find? holds_slot
observe-SameWork_example =
    observe-SameWork config [] true running_ledger late_observation running_attempt refl refl

recover_startup-IsSettled_example :
    Ends (λ _ w. IsSettled w.db.control_actions) (recover_startup (begin config [] running_ledger))
recover_startup-IsSettled_example = recover_startup-IsSettled config [] running_ledger

abbrev marked : Db
marked = set_output 40 67108865 running_ledger

large_charge : charge_attempt_output 40 5000000 running_ledger ≡ some (newly_over, marked)
unfolding charge_attempt_output is_exceeded archived_bytes find?
large_charge = refl

charge_attempt_output-sticks_example : charge_attempt_output 40 1 marked ≡ some (over, marked)
unfolding find?
charge_attempt_output-sticks_example =
    charge_attempt_output-sticks 40 5000000 1 running_ledger marked running_attempt newly_over refl
      large_charge refl (omega arith)

abbrev charged : Db
charged = set_output 40 62914660 running_ledger

small_charge : charge_attempt_output 40 100 running_ledger ≡ some (within, charged)
unfolding charge_attempt_output is_exceeded archived_bytes find?
small_charge = refl

charge_attempt_output-Counts_example :
    Counts 40 (running_attempt.output_bytes + 100) charged
    × (running_attempt.output_bytes + 100 + archived_bytes 40 running_ledger.late_observations
        ≤ maximum)
unfolding find?
charge_attempt_output-Counts_example =
    charge_attempt_output-Counts 40 100 running_ledger charged running_attempt refl small_charge

claim_dispatches :
    claim_action Lane.dispatch pending_ledger
    ≡ (some pending_start, set_action_if is_pending_action ActionStatus.inflight 40 pending_ledger)
unfolding claim_action first is_claimable is_pending_action in_lane lane_open is_held any find?
    set_action_if active_hold
claim_dispatches = refl

claim_action-Claimed_example :
    Claimed Lane.dispatch pending_ledger
      (set_action_if is_pending_action ActionStatus.inflight 40 pending_ledger)
      pending_start
unfolding find?
claim_action-Claimed_example =
    claim_action-Claimed Lane.dispatch pending_ledger _ pending_start claim_dispatches refl

mark_unknown_tx-blocks_example :
    Ends
      (λ _ w. SameAttempts w.db (dispatch_next config gate queued_ledger w.db).1)
      (mark_unknown_tx running_ref provider_state EffectStatus.unknown
        (begin config [] running_ledger))
mark_unknown_tx-blocks_example =
    mark_unknown_tx-blocks config config gate [] queued_ledger running_ledger running_ref
      provider_state EffectStatus.unknown

hold_covers :
    covering_hold enqueue.body (Submit.begin config host held_ledger)
    ≡ ok (some node_hold, Submit.begin config host held_ledger)
unfolding covering_hold coverage active_hold least any pure
hold_covers = refl

submit_command-SameButRejections_example :
    SameButRejections held_ledger (submit_command config trust (some enqueue) host held_ledger).1
submit_command-SameButRejections_example =
    submit_command-SameButRejections config trust enqueue host held_ledger node_hold hold_covers
