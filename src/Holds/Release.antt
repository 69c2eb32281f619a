-- ===== src/Holds/Release.antt =====
-- ReleaseHold and HoldStatus of runtime/hold.go.
use harness_codex.Prelude.{
  ℕ, ◌+◌, Bool, true, false, ◌&&◌, Option, none, some, [], ◌∷◌, ◌++◌, ◌==◌, if◌then◌else◌, any,
  find?, first,
}
use harness_codex.Ledger.Types.{Uuid, DurableState, Hold, HoldOutcome, ReleaseReceipt}
use harness_codex.Ledger.Db.{Db}
use harness_codex.Ledger.Tx.{
  Config, Work, Code, CurrentState, outdated, internal, refused, Result, err, ok, Tx, pure, fail,
  guard, new_id, gets, modify_db, load_state, ◌>>=◌, ◌>>◌,
}
use harness_codex.Commands.Host.{Host}
use harness_codex.Commands.Reply.{ReplyBody, Reply, refusal, command_error, conclude}
use harness_codex.Commands.Submit.{begin}
use harness_codex.Holds.Scopes.{ReleaseRequest, same_scope, scope_revision, or_zero, move_revision}
use harness_codex.Holds.Checks.{valid_release, valid_release_receipt, valid_hold_receipt}
use harness_codex.Holds.Install.{stored_hold}

unfoldable pub stored_outcome : Db → Uuid → Option HoldOutcome
stored_outcome db id = find? (λ (o : HoldOutcome). o.operation_id) id db.hold_outcomes

-- `WHERE operation_id=? AND node_id=?`
unfoldable pub held_by : Db → Uuid → Uuid → Option Hold
held_by db node id =
    first (λ (h : Hold). h.operation_id == id && h.node_id == node) db.administrative_holds

-- The request names the hold as it was installed, under the binding of today.
unfoldable pub matches_hold : ReleaseRequest → DurableState → Hold → Bool
unfolding same_scope
matches_hold r s h =
    r.expected_epoch == s.epoch
    && r.expected_epoch == h.node_epoch
    && r.binding_generation == s.registry_version
    && r.binding_generation == h.binding_generation
    && same_scope r.scope h.scope
    && r.hold_version == h.hold_version
    && r.expected_scope_revision == h.scope_revision

abbrev pub is_revision : Option ℕ → ℕ → Bool
is_revision none n = false
is_revision (some m) n = m == n

abbrev pub outcome_clash : HoldOutcome → HoldOutcome → Bool
outcome_clash o x = x.operation_id == o.operation_id

-- INSERT INTO administrative_hold_outcomes
unfoldable pub insert_outcome : HoldOutcome → Tx (Unit {0})
insert_outcome o w =
    if any (outcome_clash o) w.db.hold_outcomes
    then err internal
    else ok (tt, record w { db = record w.db { hold_outcomes = w.db.hold_outcomes ++ o ∷ [] } })

-- The receipt, the scope's revision and the row of a release
unfoldable pub commit_release : Host → ReleaseRequest → DurableState → Hold → ℕ → Tx ReleaseReceipt
commit_release h r s hold revision = do
  id ← new_id
  now ← gets (λ w. w.config.now)
  let receipt : ReleaseReceipt = record {
    action = r.action;
    operation_id = r.operation_id;
    receipt_id = id;
    node_id = s.node_id;
    epoch = s.epoch;
    binding_generation = s.registry_version;
    scope = hold.scope;
    hold_version = hold.hold_version;
    scope_revision = revision + 1;
    manual_pause = s.queue_paused;
    released_at = now;
  }
  guard (valid_release_receipt receipt) (refused 503 Code.not_durable)
  guard h.reserve_released (refused 503 Code.not_durable)
  modify_db (λ db. record db {
    hold_scope_revisions = move_revision hold.scope revision (revision + 1) db.hold_scope_revisions;
  })
  insert_outcome (record {
    operation_id = r.operation_id;
    action = r.action;
    payload_hash = r.digest;
    receipt = receipt;
    scope_revision = revision + 1;
  })
  pure receipt

-- What the transaction decides
pub data Released : Type 0 where
  replayed released : ReleaseReceipt → Released

abbrev pub release_held : Host → ReleaseRequest → DurableState → Option Hold → Tx Released
release_held h r s none = fail (refused 404 Code.not_found)
release_held h r s (some hold) = do
  guard (matches_hold r s hold) (outdated s.epoch CurrentState.blocked)
  revision ← gets (λ w. scope_revision w.db hold.scope)
  guard (is_revision revision hold.scope_revision)
      (outdated (or_zero revision) CurrentState.blocked)
  receipt ← commit_release h r s hold (or_zero revision)
  pure (released receipt)

abbrev pub release_new : Host → ReleaseRequest → DurableState → Option HoldOutcome → Tx Released
release_new h r s (some o) = do
  guard (o.payload_hash == r.digest) (refused 409 Code.id_conflict)
  pure (replayed o.receipt)
release_new h r s none = do
  hold ← gets (λ w. held_by w.db s.node_id r.operation_id)
  release_held h r s hold

unfoldable pub release_tx : Host → ReleaseRequest → Tx Released
release_tx h r = do
  s ← load_state
  stored ← gets (λ w. stored_outcome w.db r.operation_id)
  release_new h r s stored

abbrev pub settle_release : Host → Db → Result (Released × Work) → Reply × Db
settle_release h before (err e) = (command_error e, before)
settle_release h before (ok (replayed r, w)) =
    (record { http_status = 200; body = ReplyBody.release r; committed = false }, before)
settle_release h before (ok (released r, w)) =
    conclude h (record { http_status = 201; body = ReplyBody.release r; committed = true }) before
      w.db

-- ReleaseHold; `none` stands for bytes that are no release request of the wire contract.
unfoldable pub release_hold : Config → Uuid → Option ReleaseRequest → Host → Db → Reply × Db
release_hold c transport none h db =
    if transport == c.node_id
    then (refusal 400 Code.invalid, db)
    else (refusal 404 Code.not_found, db)
release_hold c transport (some r) h db =
    if transport == c.node_id
    then (if valid_release r
        then (if r.node_id == c.node_id
            then settle_release h db (release_tx h r (begin c h db))
            else (refusal 404 Code.not_found, db))
        else (refusal 400 Code.invalid, db))
    else (refusal 404 Code.not_found, db)

abbrev status_of : Option Hold → Reply
status_of none = refusal 404 Code.not_found
status_of (some h) =
    if valid_hold_receipt h.receipt
    then record { http_status = 200; body = ReplyBody.hold h.receipt; committed = false }
    else refusal 503 Code.not_durable

-- HoldStatus, for an identifier of 1 to 128 characters
unfoldable pub hold_status : Config → Uuid → Uuid → Db → Reply
unfolding valid_hold_receipt stored_hold
hold_status c transport operation db =
    if transport == c.node_id
    then status_of (stored_hold db operation)
    else refusal 404 Code.not_found
