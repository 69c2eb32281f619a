-- ===== src/Samples.antt =====
-- A small ledger, its configuration and some commands, for the examples.
pub mod Holds
use harness_codex.Prelude.{true, false, none, some, [], ◌∷◌}
use harness_codex.Ledger.Types.{
  DurableState, EngineReadiness, Occupancy, Transport, Role, Disposition, Attempt, AttemptState,
  EffectStatus, ActionKind, ActionStatus, ControlAction, Hold, Scope, start,
}
use harness_codex.Ledger.Wire.{CommandKind, Envelope, message_enqueue, Receipt, References, Outcome}
use harness_codex.Ledger.Db.{Db}
use harness_codex.Ledger.Tx.{Config, ok}
use harness_codex.Commands.Host.{Trust, Host}
use harness_codex.Commands.Outcomes.{accepted_row}
use harness_codex.Commands.Handlers.{queued_request}
use harness_codex.Dispatch.Next.{Gate}
use harness_codex.Attempts.Unknown.{AttemptRef}
use harness_codex.Attempts.Observe.{Observation, terminal, completed}

abbrev pub config : Config
config = record {
  node_id = 1;
  owner_id = 2;
  adapter = 3;
  now = 1000;
  validates = λ _. true;
  validates_receipt = λ _. true;
  validates_rejection = λ _. true;
}

abbrev pub trust : Trust
trust = record { transport_node_id = 1; expected_identity = none }

abbrev pub host : Host
host = record {
  ids = 20 ∷ 21 ∷ 22 ∷ 23 ∷ [];
  probe = some (record { free_bytes = 5000000000; total_bytes = 9000000000 });
  physical = none;
  reserve_released = true;
  fault_before_commit = false;
  commits = true;
  fault_after_commit = false;
}

abbrev pub idle_state : DurableState
idle_state = record {
  node_id = 1;
  owner_id = 2;
  registry_version = 1;
  epoch = 1;
  state_version = 1;
  last_event_seq = 0;
  queue_version = 0;
  queue_paused = false;
  transport_availability = Transport.online;
  engine_readiness = EngineReadiness.ready;
  occupancy = Occupancy.idle;
  active_attempt_id = none;
  pending_count = 0;
  blocked_reasons = [];
  next_queue_sequence = 1;
  next_message_sequence = 1;
}

-- One dialog, and no command yet
abbrev pub ledger : Db
ledger = record {
  node_state = idle_state;
  dialogs =
      (record { dialog_id = 10; node_id = 1; owner_id = 2; version = 1; title = "first" }) ∷ [];
  messages = [];
  requests = [];
  attempts = [];
  commands = [];
  control_actions = [];
  events = [];
  tool_calls = [];
  approvals = [];
  input_requests = [];
  late_observations = [];
  policy_snapshots = [];
  administrative_holds = [];
  hold_outcomes = [];
  hold_scope_revisions = [];
  hold_clock = 1;
  command_rejections = [];
}

abbrev pub enqueue : Envelope
enqueue = record {
  command_id = 100;
  digest = 555;
  target_node = 1;
  body = message_enqueue 10 1 "hello";
}

-- The same identifier with other bytes
abbrev pub other_enqueue : Envelope
other_enqueue = record {
  command_id = 100;
  digest = 556;
  target_node = 1;
  body = message_enqueue 10 1 "other";
}

-- The ledger with one queued request
abbrev pub queued_ledger : Db
queued_ledger = record ledger {
  node_state = record idle_state {
    pending_count = 1;
    queue_version = 1;
    state_version = 2;
    next_queue_sequence = 2;
    next_message_sequence = 2;
  };
  messages =
      (record {
        message_id = 30;
        dialog_id = 10;
        sequence = 1;
        version = 1;
        role = Role.user;
        text = "hello";
        disposition = Disposition.queued;
        command_id = 100;
        request_id = 31;
        attempt_id = none;
      })
      ∷ [];
  requests = queued_request 31 10 30 1 900 ∷ [];
}

abbrev pub gate : Gate
gate = record {
  auth_open = true;
  policy = some 77;
  auth_ready = true;
  settings_fenced = false;
  tail_proof = λ db dialog message. ok none;
  ids = 40 ∷ [];
  commits = true;
  fault_after_commit = false;
}

-- An attempt of generation 2 that has output 60 MiB
abbrev pub running_attempt : Attempt
running_attempt = record {
  attempt_id = 40;
  node_id = 1;
  dialog_id = 10;
  request_id = 31;
  generation = 2;
  version = 2;
  state = AttemptState.running;
  effect_status = EffectStatus.none;
  context_boundary_message_id = 30;
  policy_hash = 77;
  started_at = some 950;
  finished_at = none;
  output_bytes = 62914560;
}

-- The ledger with that attempt and an action in flight
abbrev pub running_ledger : Db
running_ledger = record ledger {
  node_state = record idle_state { active_attempt_id = some 40; occupancy = Occupancy.active };
  attempts = running_attempt ∷ [];
  control_actions =
      (record {
        command_id = 40;
        kind = ActionKind.dispatch_start;
        attempt_id = 40;
        message_id = none;
        actor_id = none;
        payload = record { generation = 2; dialog_id = 10; request_id = 31; detail = start none };
        status = ActionStatus.inflight;
      })
      ∷ [];
}

-- A late report about generation 1
abbrev pub late_observation : Observation
late_observation = record {
  attempt_id = 40;
  generation = 1;
  kind = terminal completed true;
  effect_status = EffectStatus.known;
}

abbrev pub running_ref : AttemptRef
running_ref = record { dialog_id = 10; request_id = 31; attempt_id = 40; generation = 2 }

abbrev pub pending_start : ControlAction
pending_start = record {
  command_id = 40;
  kind = ActionKind.dispatch_start;
  attempt_id = 40;
  message_id = none;
  actor_id = none;
  payload = record { generation = 2; dialog_id = 10; request_id = 31; detail = start none };
  status = ActionStatus.pending;
}

-- The ledger with the attempt and its pending start
abbrev pub pending_ledger : Db
pending_ledger = record running_ledger { control_actions = pending_start ∷ [] }

abbrev pub node_hold : Hold
node_hold = record {
  operation_id = 60;
  node_id = 1;
  node_epoch = 1;
  binding_generation = 1;
  scope = Scope.node;
  hold_version = 1;
  scope_revision = 1;
  payload_hash = 61;
  receipt = record {
    operation_id = 60;
    receipt_id = 62;
    node_id = 1;
    epoch = 1;
    binding_generation = 1;
    scope = Scope.node;
    hold_version = 1;
    scope_revision = 1;
    installed_at = 990;
  };
}

-- The ledger under a hold of the whole node
abbrev pub held_ledger : Db
held_ledger = record ledger { administrative_holds = node_hold ∷ [] }
