-- ===== src/Ledger/Events.antt =====
-- The event history of a transaction (runtime/events.go).
use harness_codex.Prelude.{
  ℕ, ◌+◌, Bool, false, ◌&&◌, Option, none, [], ◌∷◌, ◌++◌, ◌==◌, if◌then◌else◌, any,
}
use harness_codex.Ledger.Types.{Uuid, DurableState}
use harness_codex.Ledger.Db.{Event, Payload, NodeState, node_state_changed, queue_changed}
use harness_codex.Ledger.Tx.{Work, internal, err, ok, Tx}

unfoldable pub new_event : Uuid → ℕ → Option Uuid → Option Uuid → Payload → Bool → Work → Event
new_event entity version attempt dialog payload late w = record {
  node_id = w.state.node_id;
  seq = w.state.last_event_seq + 1;
  epoch = w.state.epoch;
  entity_id = entity;
  entity_version = version;
  attempt_id = attempt;
  dialog_id = dialog;
  payload = payload;
  late = late;
  projection_key = none;
  observed_at = w.config.now;
}

-- PRIMARY KEY(node_id,seq)
unfoldable pub event_clash : Event → Event → Bool
event_clash e x = x.node_id == e.node_id && x.seq == e.seq

unfoldable pub push_event : Event → Tx (Unit {0})
push_event e w =
    if w.config.validates e
    then (if any (event_clash e) w.db.events
        then err internal
        else ok (
          tt,
          record w {
            db = record w.db { events = w.db.events ++ e ∷ [] };
            state = record w.state { last_event_seq = w.state.last_event_seq + 1 };
          },
        ))
    else err internal

-- appendEvent
unfoldable pub append_event : Uuid → ℕ → Option Uuid → Option Uuid → Payload → Bool → Tx (Unit {0})
unfolding new_event push_event
append_event entity version attempt dialog payload late w =
    push_event (new_event entity version attempt dialog payload late w) w

-- nodePayload
abbrev pub node_payload : DurableState → NodeState
node_payload s = record {
  transport_availability = s.transport_availability;
  engine_readiness = s.engine_readiness;
  occupancy = s.occupancy;
  queue_paused = s.queue_paused;
  queue_version = s.queue_version;
  pending_count = s.pending_count;
  blocked_reasons = s.blocked_reasons;
  active_attempt_id = s.active_attempt_id;
}

-- appendNodeEvent
unfoldable pub append_node_event : Tx (Unit {0})
unfolding append_event
append_node_event w =
    append_event w.state.node_id w.state.state_version none none
      (node_state_changed (node_payload w.state)) false w

-- appendQueueEvent
unfoldable pub append_queue_event : Tx (Unit {0})
unfolding append_event
append_queue_event w =
    append_event w.state.node_id w.state.queue_version none none
      (queue_changed w.state.queue_version w.state.pending_count w.state.active_attempt_id
        w.state.queue_paused)
      false w
