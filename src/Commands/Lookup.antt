-- ===== src/Commands/Lookup.antt =====
-- What SubmitCommand reads before it applies a command: the authority over the target, the durable
-- outcome of the same identifier, and the hold that covers it (runtime/command.go, runtime/hold.go).
use harness_codex.Prelude.{
  Bool, true, false, ◌&&◌, not, Option, none, some, ◌==◌, if◌then◌else◌, any, find?, least,
}
use harness_codex.Ledger.Types.{Uuid, Digest, Scope, Dialog, Request, Attempt, Hold, HoldOutcome}
use harness_codex.Ledger.Wire.{
  Body, dialog_create, dialog_delete, message_enqueue, message_steer, request_cancel, attempt_stop,
  queue_resume, attempt_retry, approval_respond, input_respond, Envelope, References,
}
use harness_codex.Ledger.Db.{Db, Event, ProjectionKey, CommandRow, CommandRejection}
use harness_codex.Ledger.Tx.{Config, Code, internal, refused, Tx, pure, fail, guard, ◌>>=◌, ◌>>◌}
use harness_codex.Commands.Control.{of_approval, of_input}

abbrev names : Option Uuid → Uuid → Bool
names none d = false
names (some e) d = e == d

abbrev is_tombstone : Option ProjectionKey → Bool
is_tombstone (some ProjectionKey.dialog_deleted) = true
is_tombstone _ = false

-- EXISTS(SELECT 1 FROM events WHERE dialog_id=? AND projection_key='dialog.deleted')
unfoldable pub dialog_deleted : Db → Uuid → Bool
dialog_deleted db d =
    any (λ (e : Event). names e.dialog_id d && is_tombstone e.projection_key) db.events

-- What the joins of authorizeObject find for a target: no object is named, the dialog that owns the
-- object, no row, or a kind that the node does not admit.
pub data Target : Type 0 where
  unscoped missing unsupported : Target
  scoped : Uuid → Target

abbrev of_request : Option Request → Target
of_request none = missing
of_request (some r) = scoped r.dialog_id

abbrev of_attempt : Option Attempt → Target
of_attempt none = missing
of_attempt (some a) = scoped a.dialog_id

abbrev through : Bool → Target → Target
through found t = if found then t else missing

abbrev attempt_row : Db → Uuid → Option Attempt
attempt_row db id = find? (λ (a : Attempt). a.attempt_id) id db.attempts

unfoldable pub target_of : Db → Body → Target
target_of db (dialog_create _ _) = unscoped
target_of db (queue_resume _) = unscoped
target_of db (message_enqueue d _ _) = scoped d
target_of db (message_steer d _ _ _ _) = scoped d
target_of db (request_cancel id _) =
    of_request (find? (λ (r : Request). r.request_id) id db.requests)
target_of db (attempt_stop id _) = of_attempt (attempt_row db id)
target_of db (attempt_retry id _ _) = of_attempt (attempt_row db id)
target_of db (approval_respond id attempt _ _ _ _) =
    through (any (of_approval id attempt) db.approvals) (of_attempt (attempt_row db attempt))
target_of db (input_respond id attempt _ _ _) =
    through (any (of_input id attempt) db.input_requests) (of_attempt (attempt_row db attempt))
target_of db (dialog_delete _ _) = unsupported

abbrev owned : Config → Option Dialog → Bool
owned c none = false
owned c (some d) = d.node_id == c.node_id && d.owner_id == c.owner_id

abbrev owns_dialog : Config → Db → Uuid → Bool
owns_dialog c db d =
    not (dialog_deleted db d) && owned c (find? (λ (x : Dialog). x.dialog_id) d db.dialogs)

abbrev pub admit_target : Config → Db → Target → Tx (Unit {0})
admit_target c db unscoped = pure tt
admit_target c db missing = fail (refused 404 Code.not_found)
admit_target c db unsupported = fail (refused 400 Code.invalid)
admit_target c db (scoped d) = guard (owns_dialog c db d) (refused 404 Code.not_found)

-- authorizeObject
unfoldable pub authorize_object : Envelope → Tx (Unit {0})
unfolding ◌>>=◌ guard dialog_deleted target_of
authorize_object e w =
    (do
      guard (e.target_node == w.config.node_id) (refused 404 Code.not_found)
      admit_target w.config w.db (target_of w.db e.body))
      w

-- storedCommandOutcome: the outcome of a command of this identifier, accepted or rejected
pub data Stored : Type 0 where
  accepted : CommandRow → Stored
  rejected : CommandRejection → Stored

abbrev pub stored_hash : Stored → Digest
stored_hash (accepted r) = r.payload_hash
stored_hash (rejected r) = r.payload_hash

abbrev pub one_outcome : Option CommandRow → Option CommandRejection → Tx (Option Stored)
one_outcome none none = pure none
one_outcome (some r) none = pure (some (accepted r))
one_outcome none (some r) = pure (some (rejected r))
one_outcome (some _) (some _) = fail internal

-- loadCommandOutcome: two durable outcomes of one identifier are an error.
unfoldable pub load_outcome : Uuid → Tx (Option Stored)
unfolding ◌>>=◌
load_outcome id w =
    one_outcome (find? (λ (r : CommandRow). r.command_id) id w.db.commands)
      (find? (λ (r : CommandRejection). r.command_id) id w.db.command_rejections) w

-- The dialogId of a receipt's references
abbrev references_dialog : References → Option Uuid
references_dialog (References.dialog_create d) = some d
references_dialog (References.dialog_delete d) = some d
references_dialog (References.message_enqueue d _ _) = some d
references_dialog (References.message_steer d _ _) = some d
references_dialog _ = none

-- The dialog of a stored target; the joins of this lookup go by the first identifier that the target
-- names, and a missing row is no error.
abbrev target_scope : Target → Option Uuid
target_scope (scoped d) = some d
target_scope _ = none

abbrev body_dialog : Db → Body → Option Uuid
body_dialog db (dialog_delete d _) = some d
body_dialog db (approval_respond id attempt _ _ _ _) =
    target_scope (of_attempt (attempt_row db attempt))
body_dialog db (input_respond id attempt _ _ _) = target_scope (of_attempt (attempt_row db attempt))
body_dialog db b = target_scope (target_of db b)

abbrev stored_dialog : Db → Stored → Option Uuid
stored_dialog db (accepted r) = elim (references_dialog r.receipt.references) [
  | some d ↦ some d
  | none ↦ body_dialog db r.canonical
]
stored_dialog db (rejected r) = body_dialog db r.canonical

abbrev scope_deleted : Db → Option Uuid → Bool
scope_deleted db none = false
scope_deleted db (some d) = dialog_deleted db d

-- commandOutcomeTargetsDeletedDialog
unfoldable pub targets_deleted : Db → Stored → Bool
unfolding dialog_deleted target_of
targets_deleted db s = scope_deleted db (stored_dialog db s)

-- A hold with no durable outcome is active.
unfoldable pub active_hold : Db → Uuid → Hold → Bool
active_hold db node h =
    h.node_id == node
    && not (any (λ (o : HoldOutcome). o.operation_id == h.operation_id) db.hold_outcomes)

abbrev is_node : Scope → Bool
is_node Scope.node = true
is_node (Scope.dialog _) = false

abbrev is_dialog : Uuid → Scope → Bool
is_dialog d Scope.node = false
is_dialog d (Scope.dialog e) = e == d

-- What a hold can cover of a command: nothing, the node, or the node and a dialog.
pub data Coverage : Type 0 where
  uncovered node_wide unresolved : Coverage
  dialog_wide : Uuid → Coverage

unfoldable pub coverage : Db → Body → Coverage
coverage db (dialog_create _ _) = node_wide
coverage db (queue_resume _) = node_wide
coverage db (dialog_delete d _) = dialog_wide d
coverage db (message_enqueue d _ _) = dialog_wide d
coverage db (attempt_retry id _ _) = elim (attempt_row db id) [
  | none ↦ unresolved
  | some a ↦ dialog_wide a.dialog_id
]
coverage db _ = uncovered

abbrev node_hold : Db → Uuid → Option Hold
node_hold db node =
    least (λ (h : Hold). active_hold db node h && is_node h.scope) (λ (h : Hold). h.hold_version)
      db.administrative_holds

abbrev dialog_hold : Db → Uuid → Uuid → Option Hold
dialog_hold db node d =
    least (λ (h : Hold). active_hold db node h && is_dialog d h.scope)
      (λ (h : Hold). h.hold_version) db.administrative_holds

-- ORDER BY CASE h.scope WHEN 'node' THEN 0 ELSE 1 END,h.hold_version
abbrev node_first : Option Hold → Option Hold → Option Hold
node_first (some h) d = some h
node_first none d = d

abbrev pub hold_for : Db → Uuid → Coverage → Tx (Option Hold)
hold_for db node uncovered = pure none
hold_for db node unresolved = fail internal
hold_for db node node_wide = pure (node_hold db node)
hold_for db node (dialog_wide d) = pure (node_first (node_hold db node) (dialog_hold db node d))

-- coveringHoldForCommand
unfoldable pub covering_hold : Body → Tx (Option Hold)
unfolding ◌>>=◌ active_hold coverage
covering_hold b w = hold_for w.db w.config.node_id (coverage w.db b) w
