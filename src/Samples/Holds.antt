-- ===== src/Samples/Holds.antt =====
-- Requests on holds, and ledgers under a hold.
use harness_codex.Prelude.{[], ◌∷◌}
use harness_codex.Ledger.Types.{Scope, ReleaseAction}
use harness_codex.Ledger.Db.{Db}
use harness_codex.Holds.Scopes.{InstallRequest, ReleaseRequest}
use harness_codex.Holds.Quiescence.{Checkpoint}
use harness_codex.Samples.{queued_ledger, node_hold}

abbrev pub hold_request : InstallRequest
hold_request = record {
  operation_id = 60;
  node_id = 1;
  expected_epoch = 1;
  binding_generation = 1;
  scope = Scope.node;
  expected_scope_revision = 0;
  digest = 61;
}

abbrev pub release_request : ReleaseRequest
release_request = record {
  operation_id = 60;
  node_id = 1;
  expected_epoch = 1;
  binding_generation = 1;
  scope = Scope.node;
  hold_version = 1;
  expected_scope_revision = 1;
  action = ReleaseAction.release;
  digest = 63;
}

-- The ledger with one queued request under a hold of the whole node
abbrev pub parked_ledger : Db
parked_ledger = record queued_ledger {
  administrative_holds = node_hold ∷ [];
  hold_scope_revisions = (record { scope = Scope.node; revision = 1 }) ∷ [];
  hold_clock = 2;
}

abbrev pub checkpoint : Checkpoint
checkpoint = record { state_version = 2; queue_revision = 1 }
