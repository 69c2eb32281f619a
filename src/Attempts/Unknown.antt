-- ===== src/Attempts/Unknown.antt =====
-- setAttemptUnknown and markAttemptUnknown of runtime/observe.go, recoverStartup of
-- runtime/recovery.go.
use harness_codex.Prelude.{ℕ, ◌+◌, Bool, true, false, ◌&&◌, Option, none, some, ◌==◌, first, find?}
use harness_codex.Ledger.Types.{
  Uuid, AttemptState, EffectStatus, RequestStatus, ActionStatus, EngineReadiness, Occupancy,
  execution_unknown, is_active, DurableState, Request, Attempt, ControlAction,
}
use harness_codex.Ledger.Db.{UnknownReason, dispatch_uncertain, attempt_unknown}
use harness_codex.Ledger.Tx.{
  internal, Tx, pure, guard, query, gets, modify_db, modify_state, load_state, save_state, ◌>>=◌,
  ◌>>◌,
}
use harness_codex.Ledger.Statements.{update_attempt, update_request}
use harness_codex.Ledger.Events.{append_event, append_node_event}
use harness_codex.Commands.Reasons.{add_reason}
use harness_codex.Commands.Control.{holds_slot}
use harness_codex.Attempts.Projection.{update_where}

-- harnessadapter.AttemptRef, without the node
pub record AttemptRef : Type 0 where
  pub dialog_id : Uuid
  pub request_id : Uuid
  pub attempt_id : Uuid
  pub generation : ℕ

abbrev pub is_unknown : AttemptState → Bool
is_unknown AttemptState.unknown = true
is_unknown _ = false

abbrev of_generation : Uuid → ℕ → Attempt → Bool
of_generation id generation a = a.attempt_id == id && a.generation == generation

abbrev lose_attempt : EffectStatus → Attempt → Attempt
lose_attempt effect a = record a {
  version = a.version + 1;
  state = AttemptState.unknown;
  effect_status = effect;
}

abbrev lose_request : ℕ → Request → Request
lose_request now r = record r {
  version = r.version + 1;
  status = RequestStatus.unknown;
  updated_at = now;
}

abbrev lose_slot : Uuid → DurableState → DurableState
lose_slot attempt s = record s {
  state_version = s.state_version + 1;
  engine_readiness = EngineReadiness.unknown;
  occupancy = Occupancy.unknown;
  active_attempt_id = some attempt;
  blocked_reasons = add_reason s.blocked_reasons execution_unknown;
}

abbrev pub lose : AttemptRef → UnknownReason → EffectStatus → Attempt → Bool → Tx (Unit {0})
lose ref reason effect a true = pure tt
lose ref reason effect a false = do
  update_attempt ref.attempt_id (lose_attempt effect)
  now ← gets (λ w. w.config.now)
  update_request ref.request_id (lose_request now)
  modify_state (lose_slot ref.attempt_id)
  append_event ref.attempt_id (a.version + 1) (some ref.attempt_id) (some ref.dialog_id)
      (attempt_unknown ref.generation reason effect) false
  append_node_event

-- setAttemptUnknown; the callers have put `unknown` for an effect status that is empty.
unfoldable pub set_attempt_unknown : AttemptRef → UnknownReason → EffectStatus → Tx (Unit {0})
set_attempt_unknown ref reason effect = do
  a ← query (λ db. first (of_generation ref.attempt_id ref.generation) db.attempts)
  lose ref reason effect a (is_unknown a.state)

unfoldable pub mark_unknown_tx : AttemptRef → UnknownReason → EffectStatus → Tx (Unit {0})
mark_unknown_tx ref reason effect = do
  s ← load_state
  guard (holds_slot s.active_attempt_id ref.attempt_id) internal
  set_attempt_unknown ref reason effect
  save_state

abbrev pub is_interrupted : ActionStatus → Bool
is_interrupted ActionStatus.pending = true
is_interrupted ActionStatus.inflight = true
is_interrupted _ = false

abbrev pub interrupted : ControlAction → Bool
interrupted c = is_interrupted c.status

abbrev pub lose_action : ControlAction → ControlAction
lose_action c = record c { status = ActionStatus.unknown }

-- UPDATE control_actions SET status='unknown' WHERE status IN('pending','inflight')
unfoldable pub lose_actions : Tx (Unit {0})
unfolding modify_db update_where
lose_actions =
    modify_db (λ db. record db {
      control_actions = update_where interrupted lose_action db.control_actions;
    })

abbrev ref_of : Attempt → AttemptRef
ref_of a = record {
  dialog_id = a.dialog_id;
  request_id = a.request_id;
  attempt_id = a.attempt_id;
  generation = a.generation;
}

abbrev pub recover_known : Attempt → Bool → Tx (Unit {0})
recover_known a true = pure tt
recover_known a false = do
  guard (is_active a.state) internal
  set_attempt_unknown (ref_of a) dispatch_uncertain EffectStatus.unknown
  save_state

abbrev pub recover_slot : Option Uuid → Tx (Unit {0})
recover_slot none = pure tt
recover_slot (some id) = do
  a ← query (λ db. find? (λ (x : Attempt). x.attempt_id) id db.attempts)
  recover_known a (is_unknown a.state)

-- recoverStartup
unfoldable pub recover_startup : Tx (Unit {0})
recover_startup = do s ← load_state; lose_actions; recover_slot s.active_attempt_id
