-- ===== src/Holds/Install.antt =====
-- InstallHold of runtime/hold.go: one transaction from the request to the hold receipt.
use harness_codex.Prelude.{
  ℕ, ◌+◌, Bool, true, false, ◌&&◌, ◌||◌, not, Option, none, some, [], ◌∷◌, ◌++◌, ◌==◌,
  if◌then◌else◌, any, find?, count_if,
}
use harness_codex.Ledger.Types.{
  Uuid, Scope, AttemptState, ActionKind, ActionStatus, DurableState, Dialog, Attempt, ControlAction,
  Hold, HoldReceipt,
}
use harness_codex.Ledger.Db.{Db}
use harness_codex.Ledger.Tx.{
  Config, Work, Code, CurrentState, outdated, stale_state, internal, refused, Result, err, ok, Tx,
  pure, guard, new_id, gets, modify_db, load_state, ◌>>=◌, ◌>>◌,
}
use harness_codex.Commands.Lookup.{dialog_deleted, active_hold}
use harness_codex.Commands.Host.{Host}
use harness_codex.Commands.Reply.{ReplyBody, Reply, refusal, command_error, conclude}
use harness_codex.Commands.Submit.{begin}
use harness_codex.Holds.Scopes.{
  InstallRequest, in_scope, overlaps, scope_revision, or_zero, put_revision,
}
use harness_codex.Holds.Checks.{valid_install, valid_hold_receipt}

unfoldable pub stored_hold : Db → Uuid → Option Hold
stored_hold db id = find? (λ (h : Hold). h.operation_id) id db.administrative_holds

abbrev owned : DurableState → Option Dialog → Bool
owned s none = false
owned s (some d) = d.node_id == s.node_id && d.owner_id == s.owner_id

-- A dialog scope names a dialog of the owner that is not deleted.
abbrev pub has_scope : DurableState → Db → Scope → Bool
has_scope s db Scope.node = true
has_scope s db (Scope.dialog d) =
    not (dialog_deleted db d) && owned s (find? (λ (x : Dialog). x.dialog_id) d db.dialogs)

abbrev is_dispatching : AttemptState → Bool
is_dispatching AttemptState.dispatching = true
is_dispatching _ = false

abbrev unstarted : Option ℕ → Bool
unstarted none = true
unstarted (some t) = false

abbrev is_start : ActionKind → Bool
is_start ActionKind.dispatch_start = true
is_start _ = false

abbrev is_open : ActionStatus → Bool
is_open ActionStatus.pending = true
is_open ActionStatus.inflight = true
is_open _ = false

abbrev starts : ControlAction → Uuid → Bool
starts c a = c.attempt_id == a && is_start c.kind && is_open c.status

-- An attempt in the scope is on its way to the adapter.
unfoldable pub is_starting : DurableState → Db → Scope → Bool
unfolding in_scope
is_starting s db scope =
    any
      (λ (a : Attempt).
        a.node_id == s.node_id
        && is_dispatching a.state
        && unstarted a.started_at
        && any (λ (c : ControlAction). starts c a.attempt_id) db.control_actions
        && in_scope scope a.dialog_id)
      db.attempts

-- `SELECT COUNT(*)` of the active holds whose scope overlaps
unfoldable pub hold_conflicts : Db → Uuid → Scope → ℕ
hold_conflicts db node scope =
    count_if (λ (h : Hold). active_hold db node h && overlaps h.scope scope) db.administrative_holds

abbrev pub advance_clock : ℕ → Db → Db
advance_clock version db = record db {
  hold_clock = if db.hold_clock == version then version + 1 else db.hold_clock;
}

-- The primary key and the unique version of administrative_holds
abbrev pub hold_clash : Hold → Hold → Bool
hold_clash h x = x.operation_id == h.operation_id || x.hold_version == h.hold_version

-- INSERT INTO administrative_holds
unfoldable pub insert_hold : Hold → Tx (Unit {0})
insert_hold h w =
    if any (hold_clash h) w.db.administrative_holds
    then err internal
    else ok (
      tt,
      record w { db = record w.db { administrative_holds = w.db.administrative_holds ++ h ∷ [] } },
    )

-- The receipt, the clock, the scope's revision and the row of a new hold
unfoldable pub commit_hold : Host → InstallRequest → DurableState → ℕ → Tx HoldReceipt
commit_hold h r s revision = do
  version ← gets (λ w. w.db.hold_clock)
  id ← new_id
  now ← gets (λ w. w.config.now)
  let receipt : HoldReceipt = record {
    operation_id = r.operation_id;
    receipt_id = id;
    node_id = s.node_id;
    epoch = s.epoch;
    binding_generation = s.registry_version;
    scope = r.scope;
    hold_version = version;
    scope_revision = revision + 1;
    installed_at = now;
  }
  guard (valid_hold_receipt receipt) (refused 503 Code.not_durable)
  guard h.reserve_released (refused 503 Code.not_durable)
  modify_db (advance_clock version)
  modify_db (λ db. record db {
    hold_scope_revisions = put_revision r.scope (revision + 1) db.hold_scope_revisions;
  })
  insert_hold (record {
    operation_id = r.operation_id;
    node_id = s.node_id;
    node_epoch = s.epoch;
    binding_generation = s.registry_version;
    scope = r.scope;
    hold_version = version;
    scope_revision = revision + 1;
    payload_hash = r.digest;
    receipt = receipt;
  })
  pure receipt

-- What the transaction decides
pub data Installed : Type 0 where
  replayed installed : HoldReceipt → Installed

abbrev pub install_new : Host → InstallRequest → DurableState → Option Hold → Tx Installed
install_new h r s (some stored) = do
  guard (stored.payload_hash == r.digest) (refused 409 Code.id_conflict)
  pure (replayed stored.receipt)
install_new h r s none = do
  guard (r.expected_epoch == s.epoch && r.binding_generation == s.registry_version)
      (outdated s.epoch CurrentState.blocked)
  db ← gets (λ w. w.db)
  guard (has_scope s db r.scope) (refused 404 Code.not_found)
  guard (not (is_starting s db r.scope)) (stale_state CurrentState.active)
  guard (hold_conflicts db s.node_id r.scope == 0) (stale_state CurrentState.blocked)
  let revision = or_zero (scope_revision db r.scope)
  guard (r.expected_scope_revision == revision) (outdated revision CurrentState.blocked)
  receipt ← commit_hold h r s revision
  pure (installed receipt)

unfoldable pub install_tx : Host → InstallRequest → Tx Installed
install_tx h r = do
  s ← load_state
  stored ← gets (λ w. stored_hold w.db r.operation_id)
  install_new h r s stored

abbrev pub settle_install : Host → Db → Result (Installed × Work) → Reply × Db
settle_install h before (err e) = (command_error e, before)
settle_install h before (ok (replayed r, w)) =
    (record { http_status = 200; body = ReplyBody.hold r; committed = false }, before)
settle_install h before (ok (installed r, w)) =
    conclude h (record { http_status = 201; body = ReplyBody.hold r; committed = true }) before w.db

-- InstallHold; `none` stands for bytes that are no install request of the wire contract.
unfoldable pub install_hold : Config → Uuid → Option InstallRequest → Host → Db → Reply × Db
install_hold c transport none h db =
    if transport == c.node_id
    then (refusal 400 Code.invalid, db)
    else (refusal 404 Code.not_found, db)
install_hold c transport (some r) h db =
    if transport == c.node_id
    then (if valid_install r
        then (if r.node_id == c.node_id
            then settle_install h db (install_tx h r (begin c h db))
            else (refusal 404 Code.not_found, db))
        else (refusal 400 Code.invalid, db))
    else (refusal 404 Code.not_found, db)
