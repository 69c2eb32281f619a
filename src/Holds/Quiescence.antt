-- ===== src/Holds/Quiescence.antt =====
-- QuiescenceProof of runtime/hold.go: the proof that a held scope is parked.
use harness_codex.Prelude.{
  ℕ, ◌+◌, Bool, true, false, ◌&&◌, not, Option, none, some, List, [], ◌∷◌, ◌==◌, map, if◌then◌else◌,
  any, first, find?, leb, ltb, count_if,
}
use harness_codex.Ledger.Types.{
  Uuid, Scope, AttemptState, EffectStatus, RequestStatus, ActionStatus, ResponseStatus, ToolStatus,
  DurableState, Request, Attempt, ControlAction, ToolCall, Approval, InputRequest, Hold,
}
use harness_codex.Ledger.Db.{Db, Event, ProjectionKey}
use harness_codex.Ledger.Tx.{
  Code, CurrentState, outdated, stale_state, refused, Tx, pure, fail, guard, gets, load_state,
  ◌>>=◌, ◌>>◌,
}
use harness_codex.Commands.Lookup.{active_hold}
use harness_codex.Holds.Scopes.{in_scope, scope_revision, or_zero}
use harness_codex.Holds.Release.{is_revision}
use harness_codex.Holds.Checks.{valid_positive_integer}

-- harnessbarrier.QuiescenceProof. `parked` stands for the digest of the identifiers that it lists;
-- the hash over the other fields is left out, and so are the fields that are constants.
pub record QuiescenceProof : Type 0 where
  pub operation_id : Uuid
  pub node_id : Uuid
  pub epoch : ℕ
  pub binding_generation : ℕ
  pub scope : Scope
  pub hold_version : ℕ
  pub scope_revision : ℕ
  pub state_version : ℕ
  pub queue_revision : ℕ
  pub parked : List Uuid
  pub checkpoint_stream_id : Uuid
  pub checkpoint_seq : ℕ

-- A row of quiescence_scope_revisions, which triggers of the schema count up
pub record Checkpoint : Type 0 where
  pub state_version : ℕ
  pub queue_revision : ℕ

-- state IN('dispatching','running','waiting_input','stopping','unknown')
abbrev pub is_active : AttemptState → Bool
is_active AttemptState.completed = false
is_active AttemptState.failed = false
is_active AttemptState.interrupted = false
is_active _ = true

-- status IN('dispatching','active','unknown')
abbrev pub is_unsettled : RequestStatus → Bool
is_unsettled RequestStatus.dispatching = true
is_unsettled RequestStatus.active = true
is_unsettled RequestStatus.unknown = true
is_unsettled _ = false

-- effect_status NOT IN('none','known')
abbrev pub is_uncertain : EffectStatus → Bool
is_uncertain EffectStatus.unknown = true
is_uncertain _ = false

-- status IN('pending','inflight','unknown')
abbrev pub is_owing : ActionStatus → Bool
is_owing ActionStatus.pending = true
is_owing ActionStatus.inflight = true
is_owing ActionStatus.unknown = true
is_owing _ = false

-- status NOT IN('succeeded','failed')
abbrev pub is_running : ToolStatus → Bool
is_running ToolStatus.running = true
is_running _ = false

-- status<>'resolved'
abbrev pub is_unanswered : ResponseStatus → Bool
is_unanswered ResponseStatus.resolved = false
is_unanswered _ = true

-- projection_key LIKE 'tool.completed:%' with an effect that is not known
abbrev pub is_uncertain_tool : Option ProjectionKey → Bool
is_uncertain_tool (some (ProjectionKey.tool_completed call effect)) = is_uncertain effect
is_uncertain_tool _ = false

abbrev of_dialog : Scope → Option Uuid → Bool
of_dialog Scope.node d = true
of_dialog (Scope.dialog e) none = false
of_dialog (Scope.dialog e) (some d) = d == e

unfoldable pub in_range : Uuid → Scope → Attempt → Bool
unfolding in_scope
in_range node scope a = a.node_id == node && in_scope scope a.dialog_id

abbrev owner : Db → Uuid → Option Attempt
owner db id = find? (λ (a : Attempt). a.attempt_id) id db.attempts

abbrev in_range? : Uuid → Scope → Option Attempt → Bool
in_range? node scope none = false
in_range? node scope (some a) = in_range node scope a

-- `JOIN attempts a ON a.attempt_id=…` with the attempt in the scope
unfoldable pub owned_in : Db → Uuid → Scope → Uuid → Bool
unfolding in_range
owned_in db node scope id = in_range? node scope (owner db id)

-- The seven counts of the settlement query
unfoldable pub unsettled_requests : Db → Scope → ℕ
unfolding in_scope
unsettled_requests db scope =
    count_if (λ (r : Request). in_scope scope r.dialog_id && is_unsettled r.status) db.requests

unfoldable pub uncertain_attempts : Db → Uuid → Scope → ℕ
uncertain_attempts db node scope =
    count_if (λ (a : Attempt). in_range node scope a && is_uncertain a.effect_status) db.attempts

unfoldable pub owing_actions : Db → Uuid → Scope → ℕ
owing_actions db node scope =
    count_if (λ (c : ControlAction). owned_in db node scope c.attempt_id && is_owing c.status)
      db.control_actions

unfoldable pub running_tools : Db → Uuid → Scope → ℕ
running_tools db node scope =
    count_if (λ (t : ToolCall). owned_in db node scope t.attempt_id && is_running t.status)
      db.tool_calls

unfoldable pub open_approvals : Db → Uuid → Scope → ℕ
open_approvals db node scope =
    count_if (λ (p : Approval). owned_in db node scope p.attempt_id && is_unanswered p.status)
      db.approvals

unfoldable pub open_inputs : Db → Uuid → Scope → ℕ
open_inputs db node scope =
    count_if (λ (i : InputRequest). owned_in db node scope i.attempt_id && is_unanswered i.status)
      db.input_requests

unfoldable pub uncertain_tools : Db → Scope → ℕ
uncertain_tools db scope =
    count_if (λ (e : Event). of_dialog scope e.dialog_id && is_uncertain_tool e.projection_key)
      db.events

unfoldable pub unsettled : Db → Uuid → Scope → ℕ
unfolding unsettled_requests uncertain_attempts owing_actions running_tools open_approvals
    open_inputs uncertain_tools
unsettled db node scope =
    unsettled_requests db scope
    + uncertain_attempts db node scope
    + owing_actions db node scope
    + running_tools db node scope
    + open_approvals db node scope
    + open_inputs db node scope
    + uncertain_tools db scope

abbrev pub is_queued : RequestStatus → Bool
is_queued RequestStatus.queued = true
is_queued _ = false

-- ORDER BY queue_sequence,request_id; the order of the identifiers stands for that of their texts.
abbrev pub before_in_queue : Request → Request → Bool
before_in_queue a b =
    if a.queue_sequence == b.queue_sequence
    then leb a.request_id b.request_id
    else ltb a.queue_sequence b.queue_sequence

unfoldable pub insert_ordered : Request → List Request → List Request
insert_ordered r [] = r ∷ []
insert_ordered r (x ∷ xs) = if before_in_queue r x then r ∷ x ∷ xs else x ∷ insert_ordered r xs

unfoldable pub parked_requests : Scope → List Request → List Request
unfolding in_scope insert_ordered
parked_requests scope [] = []
parked_requests scope (r ∷ rs) =
    let rest = parked_requests scope rs in
    if is_queued r.status && in_scope scope r.dialog_id then insert_ordered r rest else rest

abbrev stream_of : Uuid → Scope → Uuid
stream_of node Scope.node = node
stream_of node (Scope.dialog d) = d

-- The hold of the operation, if it is active on the node
unfoldable pub active_named : Db → Uuid → Uuid → Option Hold
active_named db node id =
    first (λ (h : Hold). h.operation_id == id && active_hold db node h) db.administrative_holds

unfoldable pub has_active : Db → Uuid → Scope → Bool
unfolding in_range
has_active db node scope =
    any (λ (a : Attempt). in_range node scope a && is_active a.state) db.attempts

unfoldable pub valid_proof : QuiescenceProof → Bool
unfolding valid_positive_integer
valid_proof p =
    valid_positive_integer p.epoch
    && valid_positive_integer p.binding_generation
    && valid_positive_integer p.hold_version
    && valid_positive_integer p.scope_revision
    && valid_positive_integer p.state_version
    && valid_positive_integer p.queue_revision

abbrev pub proof_of : DurableState → Hold → Checkpoint → Db → QuiescenceProof
proof_of s h c db = record {
  operation_id = h.operation_id;
  node_id = s.node_id;
  epoch = s.epoch;
  binding_generation = s.registry_version;
  scope = h.scope;
  hold_version = h.hold_version;
  scope_revision = h.scope_revision;
  state_version = c.state_version;
  queue_revision = c.queue_revision;
  parked = map (λ (r : Request). r.request_id) (parked_requests h.scope db.requests);
  checkpoint_stream_id = stream_of s.node_id h.scope;
  checkpoint_seq = c.state_version;
}

abbrev pub prove_settled : DurableState → Db → Hold → Option Checkpoint → Tx QuiescenceProof
prove_settled s db h none = fail (refused 503 Code.not_durable)
prove_settled s db h (some c) = do
  guard (not (has_active db s.node_id h.scope)) (stale_state CurrentState.active)
  guard (unsettled db s.node_id h.scope == 0) (stale_state CurrentState.unknown)
  guard (valid_proof (proof_of s h c db)) (refused 503 Code.not_durable)
  pure (proof_of s h c db)

abbrev pub prove_held :
    (Scope → Option Checkpoint) → DurableState → Db → Option Hold → Tx QuiescenceProof
prove_held checkpoint s db none = fail (refused 404 Code.not_found)
prove_held checkpoint s db (some h) = do
  guard (h.node_epoch == s.epoch && h.binding_generation == s.registry_version)
      (outdated s.epoch CurrentState.blocked)
  guard (is_revision (scope_revision db h.scope) h.scope_revision)
      (outdated (or_zero (scope_revision db h.scope)) CurrentState.blocked)
  prove_settled s db h (checkpoint h.scope)

-- QuiescenceProof, for an identifier that validBarrierOperationID accepts. `checkpoint` reads
-- quiescence_scope_revisions.
unfoldable pub quiescence_proof : Uuid → Uuid → (Scope → Option Checkpoint) → Tx QuiescenceProof
quiescence_proof transport operation checkpoint = do
  c ← gets (λ w. w.config)
  guard (transport == c.node_id) (refused 404 Code.not_found)
  s ← load_state
  db ← gets (λ w. w.db)
  prove_held checkpoint s db (active_named db s.node_id operation)
