-- ===== src/Attempts/Actions.antt =====
-- The control actions of runtime/actions.go: claiming one for a lane, putting it back, settling it, and
-- the start of an attempt.
use harness_codex.Prelude.{
  ℕ, ◌+◌, Bool, true, false, ◌&&◌, not, Option, none, some, first, find?, update_at, if◌then◌else◌,
}
use harness_codex.Ledger.Types.{
  Uuid, AttemptState, RequestStatus, ActionStatus, ActionKind, dispatch_start, attempt_stop,
  DurableState, Request, Attempt, ControlAction,
}
use harness_codex.Ledger.Db.{Db, attempt_started, started}
use harness_codex.Ledger.Tx.{
  internal, Tx, guard, gets, modify_state, load_state, save_state, ◌>>=◌, ◌>>◌,
}
use harness_codex.Ledger.Statements.{update_attempt, update_request}
use harness_codex.Ledger.Events.{append_event, append_node_event}
use harness_codex.Commands.Control.{find_attempt, holds_slot}
use harness_codex.Dispatch.Queue.{is_held}
use harness_codex.Attempts.Projection.{record_projection}
use harness_codex.Attempts.Unknown.{AttemptRef}

pub data Lane : Type 0 where
  stop dispatch control : Lane

unfoldable pub in_lane : Lane → ActionKind → Bool
in_lane stop attempt_stop = true
in_lane dispatch dispatch_start = true
in_lane control dispatch_start = false
in_lane control attempt_stop = false
in_lane control _ = true
in_lane _ _ = false

unfoldable pub is_pending_action : ControlAction → Bool
is_pending_action c = elim c.status [ ActionStatus.pending ↦ true | _ ↦ false ]

unfoldable pub is_inflight : ControlAction → Bool
is_inflight c = elim c.status [ ActionStatus.inflight ↦ true | _ ↦ false ]

abbrev attempt_runs : Db → Option Attempt → Bool
attempt_runs db none = false
attempt_runs db (some a) = not (is_held db a.node_id a.dialog_id)

-- The hold test of the dispatch lane, over the action's attempt
unfoldable pub lane_open : Db → Lane → ControlAction → Bool
unfolding is_held
lane_open db dispatch c =
    attempt_runs db (find? (λ (a : Attempt). a.attempt_id) c.attempt_id db.attempts)
lane_open db _ c = true

unfoldable pub is_claimable : Db → Lane → ControlAction → Bool
unfolding in_lane is_pending_action lane_open
is_claimable db lane c = is_pending_action c && in_lane lane c.kind && lane_open db lane c

abbrev pub set_status : ActionStatus → ControlAction → ControlAction
set_status s c = record c { status = s }

-- UPDATE control_actions SET status=? WHERE command_id=? AND …
unfoldable pub set_action_if : (ControlAction → Bool) → ActionStatus → Uuid → Db → Db
set_action_if p s id db = record db {
  control_actions =
      update_at (λ (c : ControlAction). c.command_id) id (λ c. if p c then set_status s c else c)
        db.control_actions;
}

abbrev pub claimed : Db → Option ControlAction → Option ControlAction × Db
claimed db none = (none, db)
claimed db (some c) =
    (some c, set_action_if is_pending_action ActionStatus.inflight c.command_id db)

-- claimAction
unfoldable pub claim_action : Lane → Db → Option ControlAction × Db
unfolding is_claimable set_action_if is_pending_action
claim_action lane db = claimed db (first (is_claimable db lane) db.control_actions)

-- requeueAction
unfoldable pub requeue_action : Uuid → Db → Db
unfolding set_action_if is_inflight
requeue_action id db = set_action_if is_inflight ActionStatus.pending id db

-- finishAction
unfoldable pub finish_action : Uuid → ActionStatus → Db → Db
unfolding set_action_if is_inflight
finish_action id s db = set_action_if is_inflight s id db

abbrev pub is_dispatching : AttemptState → Bool
is_dispatching AttemptState.dispatching = true
is_dispatching _ = false

abbrev run_attempt : ℕ → Attempt → Attempt
run_attempt now a = record a {
  version = a.version + 1;
  state = AttemptState.running;
  started_at = some now;
}

abbrev run_request : ℕ → Request → Request
run_request now r = record r {
  version = r.version + 1;
  status = RequestStatus.active;
  updated_at = now;
}

abbrev next_version : DurableState → DurableState
next_version s = record s { state_version = s.state_version + 1 }

-- markStarted
unfoldable pub mark_started : AttemptRef → Tx (Unit {0})
mark_started ref = do
  s ← load_state
  guard (holds_slot s.active_attempt_id ref.attempt_id) internal
  a ← find_attempt ref.attempt_id
  guard (is_dispatching a.state) internal
  now ← gets (λ w. w.config.now)
  update_attempt ref.attempt_id (run_attempt now)
  update_request ref.request_id (run_request now)
  modify_state next_version
  append_event ref.attempt_id (a.version + 1) (some ref.attempt_id) (some ref.dialog_id)
      (attempt_started ref.request_id ref.generation) false
  record_projection ref.attempt_id started
  append_node_event
  save_state
