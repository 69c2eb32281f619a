-- ===== src/Holds/Settled.antt =====
-- What a quiescence proof says of the ledger.
use harness_codex.Prelude.{
  ◌≡◌, ◌≢◌, refl, ◌⊎◌, inl, inr, true, false, some, any-none, find?, count_if-none, IsRow, arith,
}
use harness_codex.Ledger.Types.{
  Uuid, Scope, AttemptState, EffectStatus, RequestStatus, ActionStatus, ResponseStatus, ToolStatus,
  Request, Attempt, ControlAction, ToolCall, Approval, InputRequest,
}
use harness_codex.Ledger.Db.{Db}
use harness_codex.Holds.Scopes.{in_scope}
use harness_codex.Holds.Quiescence.{
  is_active, is_unsettled, is_uncertain, is_owing, is_running, is_unanswered, in_range, owned_in,
  has_active, unsettled, unsettled_requests, uncertain_attempts, owing_actions, running_tools,
  open_approvals, open_inputs,
}

-- The dialog lies in the scope.
abbrev pub Within : Scope → Uuid → Type 0
Within Scope.node d = Unit
Within (Scope.dialog e) d = d ≡ e

-- The attempt is one of the node and lies in the scope.
abbrev pub InRange : Uuid → Scope → Attempt → Type 0
InRange node scope a = (a.node_id ≡ node) × Within scope a.dialog_id

-- The identifier is that of an attempt of the node in the scope.
abbrev pub OwnedIn : Db → Uuid → Scope → Uuid → Type 0
OwnedIn db node scope id =
    (a : Attempt) × (find? (λ (x : Attempt). x.attempt_id) id db.attempts ≡ some a)
    × InRange node scope a

-- Nothing in the scope runs, waits or is uncertain.
pub record Parked (db : Db) (node : Uuid) (scope : Scope) : Type 0 where
  pub attempts :
      (a : Attempt)
      → IsRow a db.attempts
      → InRange node scope a
      → (a.state ≡ AttemptState.completed)
        ⊎ (a.state ≡ AttemptState.failed)
        ⊎ (a.state ≡ AttemptState.interrupted)
  pub effects :
      (a : Attempt)
      → IsRow a db.attempts
      → InRange node scope a
      → (a.effect_status ≡ EffectStatus.none) ⊎ (a.effect_status ≡ EffectStatus.known)
  pub requests :
      (r : Request)
      → IsRow r db.requests
      → Within scope r.dialog_id
      → (r.status ≢ RequestStatus.dispatching)
        × (r.status ≢ RequestStatus.active)
        × (r.status ≢ RequestStatus.unknown)
  pub actions :
      (c : ControlAction)
      → IsRow c db.control_actions
      → OwnedIn db node scope c.attempt_id
      → (c.status ≡ ActionStatus.acknowledged) ⊎ (c.status ≡ ActionStatus.rejected)
  pub tools :
      (t : ToolCall)
      → IsRow t db.tool_calls
      → OwnedIn db node scope t.attempt_id
      → (t.status ≡ ToolStatus.succeeded) ⊎ (t.status ≡ ToolStatus.failed)
  pub approvals :
      (p : Approval)
      → IsRow p db.approvals
      → OwnedIn db node scope p.attempt_id
      → p.status ≡ ResponseStatus.resolved
  pub inputs :
      (i : InputRequest)
      → IsRow i db.input_requests
      → OwnedIn db node scope i.attempt_id
      → i.status ≡ ResponseStatus.resolved

pub Within-in_scope : (s : Scope) (d : Uuid) → Within s d → in_scope s d ≡ true
unfolding in_scope
Within-in_scope Scope.node d h = refl
Within-in_scope (Scope.dialog e) d h = ground arith

InRange-in_range :
    (node : Uuid) (s : Scope) (a : Attempt) → InRange node s a → in_range node s a ≡ true
unfolding in_range
InRange-in_range node s a h = ground (arith, Within-in_scope s a.dialog_id h.1)

OwnedIn-owned_in :
    (db : Db) (node : Uuid) (s : Scope) (id : Uuid)
    → OwnedIn db node s id
    → owned_in db node s id ≡ true
unfolding owned_in
OwnedIn-owned_in db node s id (a, e, h) = rw e (InRange-in_range node s a h)

finished :
    (s : AttemptState)
    → (is_active s ≡ true → ⊥)
    → (s ≡ AttemptState.completed) ⊎ (s ≡ AttemptState.failed) ⊎ (s ≡ AttemptState.interrupted)
finished AttemptState.completed h = inl refl
finished AttemptState.failed h = inr (inl refl)
finished AttemptState.interrupted h = inr (inr refl)
finished AttemptState.dispatching h = absurd (h refl)
finished AttemptState.running h = absurd (h refl)
finished AttemptState.waiting_input h = absurd (h refl)
finished AttemptState.stopping h = absurd (h refl)
finished AttemptState.unknown h = absurd (h refl)

certain :
    (s : EffectStatus)
    → (is_uncertain s ≡ true → ⊥)
    → (s ≡ EffectStatus.none) ⊎ (s ≡ EffectStatus.known)
certain EffectStatus.none h = inl refl
certain EffectStatus.known h = inr refl
certain EffectStatus.unknown h = absurd (h refl)

paid :
    (s : ActionStatus)
    → (is_owing s ≡ true → ⊥)
    → (s ≡ ActionStatus.acknowledged) ⊎ (s ≡ ActionStatus.rejected)
paid ActionStatus.acknowledged h = inl refl
paid ActionStatus.rejected h = inr refl
paid ActionStatus.pending h = absurd (h refl)
paid ActionStatus.inflight h = absurd (h refl)
paid ActionStatus.unknown h = absurd (h refl)

ended :
    (s : ToolStatus)
    → (is_running s ≡ true → ⊥)
    → (s ≡ ToolStatus.succeeded) ⊎ (s ≡ ToolStatus.failed)
ended ToolStatus.succeeded h = inl refl
ended ToolStatus.failed h = inr refl
ended ToolStatus.running h = absurd (h refl)

answered : (s : ResponseStatus) → (is_unanswered s ≡ true → ⊥) → s ≡ ResponseStatus.resolved
answered ResponseStatus.resolved h = refl
answered ResponseStatus.pending h = absurd (h refl)
answered ResponseStatus.responding h = absurd (h refl)
answered ResponseStatus.unknown h = absurd (h refl)

settled_request :
    (s : RequestStatus)
    → (is_unsettled s ≡ true → ⊥)
    → (s ≢ RequestStatus.dispatching) × (s ≢ RequestStatus.active) × (s ≢ RequestStatus.unknown)
settled_request s h = (λ e. h (rw e refl), λ e. h (rw e refl), λ e. h (rw e refl))

-- Each of the counts of the settlement query is zero.
record Counts (db : Db) (node : Uuid) (s : Scope) : Type 0 where
  requests : unsettled_requests db s ≡ 0
  attempts : uncertain_attempts db node s ≡ 0
  actions : owing_actions db node s ≡ 0
  tools : running_tools db node s ≡ 0
  approvals : open_approvals db node s ≡ 0
  inputs : open_inputs db node s ≡ 0

each_settled : (db : Db) (node : Uuid) (s : Scope) → unsettled db node s ≡ 0 → Counts db node s
unfolding unsettled
each_settled db node s z = record {
  requests = omega arith;
  attempts = omega arith;
  actions = omega arith;
  tools = omega arith;
  approvals = omega arith;
  inputs = omega arith;
}

pub quiet-Parked :
    (db : Db) (node : Uuid) (s : Scope)
    → has_active db node s ≡ false
    → unsettled db node s ≡ 0
    → Parked db node s
unfolding has_active unsettled_requests uncertain_attempts owing_actions running_tools
    open_approvals open_inputs
quiet-Parked db node s h z =
    let zs = each_settled db node s z in
    record {
      attempts = λ a row i.
          finished a.state
            λ b. any-none _ db.attempts a h row (rw (InRange-in_range node s a i, b) refl);
      effects = λ a row i. certain a.effect_status λ b.
          count_if-none _ db.attempts a zs.attempts row (rw (InRange-in_range node s a i, b) refl);
      requests = λ r row i. settled_request r.status λ b.
          count_if-none _ db.requests r zs.requests row
            (rw (Within-in_scope s r.dialog_id i, b) refl);
      actions = λ c row i. paid c.status λ b.
          count_if-none _ db.control_actions c zs.actions row
            (rw (OwnedIn-owned_in db node s c.attempt_id i, b) refl);
      tools = λ t row i. ended t.status λ b.
          count_if-none _ db.tool_calls t zs.tools row
            (rw (OwnedIn-owned_in db node s t.attempt_id i, b) refl);
      approvals = λ p row i. answered p.status λ b.
          count_if-none _ db.approvals p zs.approvals row
            (rw (OwnedIn-owned_in db node s p.attempt_id i, b) refl);
      inputs = λ p row i. answered p.status λ b.
          count_if-none _ db.input_requests p zs.inputs row
            (rw (OwnedIn-owned_in db node s p.attempt_id i, b) refl);
    }
