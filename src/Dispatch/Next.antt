-- ===== src/Dispatch/Next.antt =====
-- DispatchNext and blockPolicy of runtime/dispatch.go.
use harness_codex.Prelude.{
  ℕ, ◌+◌, ◌-◌, Bool, true, false, ◌&&◌, not, Option, none, some, List, [], ◌∷◌, ◌++◌, ◌==◌, any,
  find?, if◌then◌else◌,
}
use harness_codex.Ledger.Types.{
  Uuid, Digest, AttemptState, EffectStatus, RequestStatus, Disposition, ActionStatus, ActionKind,
  EngineReadiness, Occupancy, policy_unavailable, DurableState, Message, Request, Attempt,
  ControlAction, start,
}
use harness_codex.Ledger.Db.{
  Db, message_disposition_changed, request_dispatched, attempt_dispatching,
}
use harness_codex.Ledger.Tx.{
  Config, Work, Result, err, ok, Tx, pure, query, new_id, gets, modify_db, modify_state, load_state,
  save_state, ◌>>=◌, ◌>>◌,
}
use harness_codex.Ledger.Statements.{insert_attempt, insert_action, update_message, update_request}
use harness_codex.Ledger.Events.{append_event, append_node_event, append_queue_event}
use harness_codex.Commands.Reasons.{contains_reason, add_reason, remove_reason}
use harness_codex.Commands.Control.{is_queued_message}
use harness_codex.Commands.Retry.{max_generation}
use harness_codex.Dispatch.Queue.{next_request, is_occupied, Candidate, peek_dispatch}

-- What the rest of the node answers while DispatchNext runs: the two readings of the provider's
-- authentication, the prepared policy (`none` when there is none), the settings fence, the proof that
-- failedTailProof finds for the dialog and the message, the identifiers, SQLite's commit and the
-- fault after it.
pub record Gate : Type 0 where
  pub auth_open : Bool
  pub policy : Option Digest
  pub auth_ready : Bool
  pub settings_fenced : Bool
  pub tail_proof : Db → Uuid → Uuid → Result (Option Uuid)
  pub ids : List Uuid
  pub commits : Bool
  pub fault_after_commit : Bool

-- DispatchResult, with `failed` for a result that only carries an error
pub data DispatchResult : Type 0 where
  idle blocked changed held failed : DispatchResult
  dispatching : Uuid → Uuid → DispatchResult
  unknown : Uuid → Uuid → DispatchResult

-- How the transaction ends: it gives up without a write, or it starts an attempt for a request.
pub data Choice : Type 0 where
  moved parked : Choice
  started : Uuid → Uuid → Choice

-- INSERT INTO policy_snapshots … ON CONFLICT(effective_hash) DO NOTHING
unfoldable pub keep_policy : Digest → Tx (Unit {0})
unfolding modify_db
keep_policy hash = modify_db (λ db.
    if any (λ (x : Digest). x == hash) db.policy_snapshots
    then db
    else record db { policy_snapshots = db.policy_snapshots ++ hash ∷ [] })

abbrev pub new_attempt : Uuid → Uuid → Request → ℕ → Digest → Attempt
new_attempt attempt node r generation policy = record {
  attempt_id = attempt;
  node_id = node;
  dialog_id = r.dialog_id;
  request_id = r.request_id;
  generation = generation;
  version = 1;
  state = AttemptState.dispatching;
  effect_status = EffectStatus.none;
  context_boundary_message_id = r.input_message_id;
  policy_hash = policy;
  started_at = none;
  finished_at = none;
  output_bytes = 0;
}

abbrev pub dispatch_request : ℕ → Request → Request
dispatch_request now r = record r {
  version = r.version + 1;
  status = RequestStatus.dispatching;
  updated_at = now;
}

abbrev apply_message : Uuid → Message → Message
apply_message attempt m = record m {
  version = m.version + 1;
  disposition = Disposition.applied;
  attempt_id = some attempt;
}

-- A queued message is applied by the attempt.
unfoldable pub settle_message : Uuid → Message → Bool → Tx (Unit {0})
settle_message attempt m false = pure tt
settle_message attempt m true = do
  update_message m.message_id (apply_message attempt)
  append_event m.message_id (m.version + 1) none none
      (message_disposition_changed m.message_id Disposition.queued Disposition.applied
        request_dispatched)
      false

abbrev pub occupy : Uuid → DurableState → DurableState
occupy attempt s = record s {
  pending_count = s.pending_count - 1;
  queue_version = s.queue_version + 1;
  state_version = s.state_version + 1;
  active_attempt_id = some attempt;
  engine_readiness = EngineReadiness.ready;
  occupancy = Occupancy.active;
  blocked_reasons = remove_reason s.blocked_reasons policy_unavailable;
}

abbrev pub proved : {A : Type 0} → Result A → Tx A
proved (err e) w = err e
proved (ok a) w = ok (a, w)

unfoldable pub tail_proof : Gate → Uuid → Uuid → Tx (Option Uuid)
tail_proof g dialog message w = proved (g.tail_proof w.db dialog message) w

abbrev start_action : Uuid → Request → ℕ → Option Uuid → ControlAction
start_action attempt r generation proof = record {
  command_id = attempt;
  kind = ActionKind.dispatch_start;
  attempt_id = attempt;
  message_id = none;
  actor_id = none;
  payload = record {
    generation = generation;
    dialog_id = r.dialog_id;
    request_id = r.request_id;
    detail = start proof;
  };
  status = ActionStatus.pending;
}

-- The events of a dispatch, its control action and the saved state
unfoldable pub announce : Gate → Digest → Request → Uuid → ℕ → Tx Choice
announce g policy r attempt generation = do
  append_event attempt 1 (some attempt) (some r.dialog_id)
      (attempt_dispatching r.request_id generation r.input_message_id policy) false
  append_queue_event
  append_node_event
  proof ← tail_proof g r.dialog_id r.input_message_id
  insert_action (start_action attempt r generation proof)
  save_state
  pure (started attempt r.request_id)

-- The writes of a dispatch
unfoldable pub start_attempt : Gate → Digest → Request → Tx Choice
start_attempt g policy r = do
  m ← query (λ db. find? (λ (x : Message). x.message_id) r.input_message_id db.messages)
  attempt ← new_id
  generation ← gets (λ w. max_generation r.input_message_id w.db.requests w.db.attempts + 1)
  keep_policy policy
  s ← gets (λ w. w.state)
  insert_attempt (new_attempt attempt s.node_id r generation policy)
  now ← gets (λ w. w.config.now)
  update_request r.request_id (dispatch_request now)
  settle_message attempt m (is_queued_message m.disposition)
  modify_state (occupy attempt)
  announce g policy r attempt generation

-- The request that the transaction reads is the one that was peeked.
abbrev pub same_request : Request → Request → Bool
same_request r c =
    r.request_id == c.request_id
    && r.dialog_id == c.dialog_id
    && r.input_message_id == c.input_message_id
    && r.queue_sequence == c.queue_sequence

abbrev pub choose : Gate → Digest → Candidate → Option Request → Tx Choice
choose g policy c none = pure parked
choose g policy c (some r) =
    if same_request r c.request then start_attempt g policy r else pure moved

abbrev pub attempt_start : Gate → Digest → Candidate → Bool → Tx Choice
attempt_start g policy c false = pure moved
attempt_start g policy c true = do
  next ← gets (λ w. next_request w.db w.state.node_id)
  choose g policy c next

unfoldable pub dispatch_tx : Gate → Digest → Candidate → Tx Choice
dispatch_tx g policy c = do
  s ← load_state
  attempt_start g policy c (s.state_version == c.state_version && not (is_occupied s))

abbrev pub finish : Gate → Db → Result (Choice × Work) → DispatchResult × Db
finish g db (err e) = (failed, db)
finish g db (ok (moved, w)) = (changed, db)
finish g db (ok (parked, w)) = (held, db)
finish g db (ok (started a r, w)) =
    if g.commits
    then (if g.fault_after_commit then unknown a r else dispatching a r, w.db)
    else (failed, db)

abbrev pub is_blocked : EngineReadiness → Bool
is_blocked EngineReadiness.blocked = true
is_blocked _ = false

abbrev block_for_policy : DurableState → DurableState
block_for_policy s = record s {
  engine_readiness = EngineReadiness.blocked;
  blocked_reasons = add_reason s.blocked_reasons policy_unavailable;
  state_version = s.state_version + 1;
}

unfoldable pub block_policy_tx : Tx (Unit {0})
block_policy_tx = do modify_state block_for_policy; append_node_event; save_state

abbrev pub kept : {A : Type 0} → Bool → Db → Result (A × Work) → Db
kept commits db (err e) = db
kept commits db (ok (a, w)) = if commits then w.db else db

abbrev pub begin : Config → List Uuid → Db → Work
begin c ids db = record { config = c; db = db; state = db.node_state; ids = ids }

-- blockPolicy
unfoldable pub block_policy : Config → Gate → Db → Db
unfolding block_policy_tx
block_policy c g db =
    if is_blocked db.node_state.engine_readiness
      && contains_reason db.node_state.blocked_reasons policy_unavailable
    then db
    else kept g.commits db (block_policy_tx (begin c g.ids db))

abbrev pub dispatch_with : Config → Gate → Candidate → Option Digest → Db → DispatchResult × Db
dispatch_with c g candidate none db = (blocked, block_policy c g db)
dispatch_with c g candidate (some policy) db =
    if g.auth_ready && not g.settings_fenced
    then finish g db (dispatch_tx g policy candidate (begin c g.ids db))
    else (blocked, db)

abbrev pub dispatch_peeked : Config → Gate → Option Candidate → Db → DispatchResult × Db
dispatch_peeked c g none db = (idle, db)
dispatch_peeked c g (some candidate) db = dispatch_with c g candidate g.policy db

-- DispatchNext: `seen` is the ledger when the candidate is peeked and `db` the ledger when the lock is
-- taken again, since other transactions may run between the two.
unfoldable pub dispatch_next : Config → Gate → Db → Db → DispatchResult × Db
dispatch_next c g seen db =
    if g.auth_open then dispatch_peeked c g (peek_dispatch seen) db else (blocked, db)
