-- ===== src/Attempts/Observe.antt =====
-- Observe, applyTerminal and archiveLateObservation of runtime/observe.go.
use harness_codex.Prelude.{
  ℕ, ◌+◌, Bool, true, false, ◌&&◌, not, Option, none, some, [], ◌∷◌, ◌++◌, ◌==◌,
}
use harness_codex.Ledger.Types.{
  Uuid, AttemptState, EffectStatus, RequestStatus, EngineReadiness, Occupancy, DurableState,
  Request, Attempt, LateObservation,
}
use harness_codex.Ledger.Db.{
  Payload, UnknownReason, provider_state, attempt_completed, attempt_failed, attempt_interrupted,
  attempt_unknown,
}
use harness_codex.Ledger.Tx.{
  internal, Tx, fail, guard, gets, modify_db, modify_state, load_state, save_state, ◌>>=◌, ◌>>◌,
}
use harness_codex.Ledger.Statements.{update_attempt, update_request}
use harness_codex.Ledger.Events.{append_event, append_node_event}
use harness_codex.Commands.Control.{find_attempt, holds_slot}
use harness_codex.Commands.Lookup.{dialog_deleted}
use harness_codex.Attempts.Unknown.{AttemptRef, set_attempt_unknown}

-- Observation.TerminalState, with one case for any other word
pub data TerminalState : Type 0 where
  completed failed interrupted unsupported : TerminalState

-- Observation.Kind, with the fields that it uses: the reason, or the state and whether it is confirmed
pub data ObservationKind : Type 0 where
  unknown : UnknownReason → ObservationKind
  terminal : TerminalState → Bool → ObservationKind
  unsupported : ObservationKind

pub record Observation : Type 0 where
  pub attempt_id : Uuid
  pub generation : ℕ
  pub kind : ObservationKind
  pub effect_status : EffectStatus

abbrev end_attempt : AttemptState → EffectStatus → ℕ → Attempt → Attempt
end_attempt state effect now a = record a {
  version = a.version + 1;
  state = state;
  effect_status = effect;
  finished_at = some now;
}

abbrev end_request : RequestStatus → ℕ → Request → Request
end_request status now r = record r { version = r.version + 1; status = status; updated_at = now }

abbrev known_readiness : EngineReadiness → EngineReadiness
known_readiness EngineReadiness.unknown = EngineReadiness.blocked
known_readiness r = r

abbrev free_slot : DurableState → DurableState
free_slot s = record s {
  state_version = s.state_version + 1;
  active_attempt_id = none;
  occupancy = Occupancy.idle;
  engine_readiness = known_readiness s.engine_readiness;
}

abbrev pub end_with :
    AttemptRef → ℕ → EffectStatus → AttemptState → RequestStatus → Payload → Tx (Unit {0})
end_with ref version effect state status payload = do
  now ← gets (λ w. w.config.now)
  update_attempt ref.attempt_id (end_attempt state effect now)
  update_request ref.request_id (end_request status now)
  modify_state free_slot
  append_event ref.attempt_id (version + 1) (some ref.attempt_id) (some ref.dialog_id) payload false
  append_node_event

-- applyTerminal
unfoldable pub apply_terminal : AttemptRef → ℕ → TerminalState → EffectStatus → Tx (Unit {0})
apply_terminal ref version completed effect =
    end_with ref version effect AttemptState.completed RequestStatus.completed
      (attempt_completed ref.generation)
apply_terminal ref version failed effect =
    end_with ref version effect AttemptState.failed RequestStatus.failed
      (attempt_failed ref.generation effect)
apply_terminal ref version interrupted effect =
    end_with ref version effect AttemptState.interrupted RequestStatus.interrupted
      (attempt_interrupted ref.generation effect)
apply_terminal ref version unsupported effect = fail internal

abbrev pub late_payload : Observation → Option Payload
late_payload o = elim o.kind [
  | terminal completed _ ↦ some (attempt_completed o.generation)
  | terminal failed _ ↦ some (attempt_failed o.generation o.effect_status)
  | terminal interrupted _ ↦ some (attempt_interrupted o.generation o.effect_status)
  | terminal unsupported _ ↦ none
  | _ ↦ some (attempt_unknown o.generation provider_state o.effect_status)
]

-- INSERT INTO late_observations
unfoldable pub insert_late : LateObservation → Tx (Unit {0})
unfolding modify_db
insert_late o = modify_db (λ db. record db { late_observations = db.late_observations ++ o ∷ [] })

abbrev pub archive_payload : Observation → ℕ → Uuid → Option Payload → Tx (Unit {0})
archive_payload o version dialog none = fail internal
archive_payload o version dialog (some payload) = do
  append_event o.attempt_id version (some o.attempt_id) (some dialog) payload true
  seq ← gets (λ w. w.state.last_event_seq)
  insert_late (record {
    attempt_id = o.attempt_id;
    generation = o.generation;
    event_seq = seq;
    has_projection_key = false;
    output_bytes = 0;
  })
  save_state

-- archiveLateObservation
unfoldable pub archive_late_observation : Observation → ℕ → Uuid → Tx (Unit {0})
archive_late_observation o version dialog = archive_payload o version dialog (late_payload o)

abbrev pub apply_observation : AttemptRef → ℕ → EffectStatus → ObservationKind → Tx (Unit {0})
apply_observation ref version effect (unknown reason) = set_attempt_unknown ref reason effect
apply_observation ref version effect (terminal state true) = apply_terminal ref version state effect
apply_observation ref version effect (terminal state false) = fail internal
apply_observation ref version effect unsupported = fail internal

abbrev pub observe_attempt : Observation → Attempt → Bool → Tx (Unit {0})
observe_attempt o a false = archive_late_observation o a.version a.dialog_id
observe_attempt o a true = do
  apply_observation
      (record {
        dialog_id = a.dialog_id;
        request_id = a.request_id;
        attempt_id = o.attempt_id;
        generation = a.generation;
      })
      a.version o.effect_status o.kind
  save_state

-- Observe
unfoldable pub observe : Observation → Tx (Unit {0})
observe o = do
  s ← load_state
  a ← find_attempt o.attempt_id
  deleted ← gets (λ w. dialog_deleted w.db a.dialog_id)
  guard (not deleted) internal
  observe_attempt o a (o.generation == a.generation && holds_slot s.active_attempt_id o.attempt_id)
