-- ===== src/Witnesses/Holds.antt =====
-- The theorems on holds at a small ledger.
use harness_codex.Prelude.{◌≡◌, refl, true, false, some, [], not, ◌&&◌, ◌==◌}
use harness_codex.Prelude.{find?, any, first, count_if}
use harness_codex.Ledger.Types.{Uuid, Hold, HoldReceipt}
use harness_codex.Ledger.Tx.{ok, ◌>>=◌, load_state, gets, guard, new_id, modify_db, pure}
use harness_codex.Commands.Lookup.{active_hold}
use harness_codex.Commands.Reply.{ReplyBody}
use harness_codex.Dispatch.Next.{begin}
use harness_codex.Holds.Scopes.{scope_revision, put_revision, move_revision, same_scope, in_scope}
use harness_codex.Holds.Checks.{
  valid_install, valid_hold_receipt, valid_release, valid_release_receipt, valid_positive_integer,
  valid_safe_integer,
}
use harness_codex.Holds.Install.{
  stored_hold, is_starting, hold_conflicts, insert_hold, commit_hold, install_tx, install_hold,
}
use harness_codex.Holds.Release.{
  stored_outcome, held_by, matches_hold, insert_outcome, commit_release, release_tx, release_hold,
}
use harness_codex.Holds.Quiescence.{
  in_range, owned_in, unsettled_requests, uncertain_attempts, owing_actions, running_tools,
  open_approvals, open_inputs, uncertain_tools, unsettled, active_named, has_active, valid_proof,
  proof_of, quiescence_proof,
}
use harness_codex.Holds.Exclusion.{Exclusive}
use harness_codex.Holds.Ending.{SameButReleases, release_hold-ends}
use harness_codex.Holds.Soundness.{Proves, quiescence_proof-Proves}
use harness_codex.Commands.Repeat.{Delivers}
use harness_codex.Node.Steps.{Reachable, here, next, install, release}
use harness_codex.Node.Durable.{Reachable-Exclusive}
use harness_codex.Node.Receipts.{install_hold_acknowledged}
use harness_codex.Samples.{config, host, ledger, node_hold}
use harness_codex.Samples.Holds.{hold_request, release_request, parked_ledger, checkpoint}

hold_commits : (install_hold config 1 (some hold_request) host ledger).0.committed ≡ true
unfolding install_hold valid_install valid_positive_integer valid_safe_integer install_tx ◌>>=◌
    load_state gets guard stored_hold find? is_starting any hold_conflicts count_if scope_revision
    first commit_hold new_id valid_hold_receipt modify_db put_revision insert_hold pure
hold_commits = refl

no_holds : Exclusive ledger
no_holds node h k r = absurd r

-- The hold is installed and then released.
installed_and_released :
    let held = (install_hold config 1 (some hold_request) host ledger).1 in
    Reachable held (release_hold config 1 (some release_request) host held).1
installed_and_released = next here (
    release config 1 (some release_request) host
      (install_hold config 1 (some hold_request) host ledger).1)

install_hold_acknowledged_example :
    let first_try = install_hold config 1 (some hold_request) host ledger in
    let later = (release_hold config 1 (some release_request) host first_try.1).1 in
    (x : HoldReceipt) × Delivers (ReplyBody.hold x) first_try.0
    × (install_hold config 1 (some hold_request) host later
        ≡ (record { http_status = 200; body = ReplyBody.hold x; committed = false }, later))
install_hold_acknowledged_example =
    install_hold_acknowledged config 1 hold_request host host ledger _ hold_commits
      installed_and_released

Reachable-Exclusive_example : Exclusive (install_hold config 1 (some hold_request) host ledger).1
Reachable-Exclusive_example =
    Reachable-Exclusive (next here (install config 1 (some hold_request) host ledger)) no_holds

release_commits :
    (release_hold config 1 (some release_request) host parked_ledger).0.committed ≡ true
unfolding release_hold valid_release valid_positive_integer release_tx ◌>>=◌ load_state gets guard
    stored_outcome held_by find? first matches_hold same_scope scope_revision commit_release new_id
    valid_release_receipt modify_db move_revision insert_outcome any pure
release_commits = refl

release_hold-ends_example :
    let after = (release_hold config 1 (some release_request) host parked_ledger).1 in
    SameButReleases parked_ledger after
    × ((node : Uuid) (k : Hold)
        → active_hold after node k
          ≡ (active_hold parked_ledger node k && not (k.operation_id == 60)))
release_hold-ends_example =
    release_hold-ends config 1 release_request host parked_ledger release_commits

proof_is_given :
    quiescence_proof 1 60 (λ s. some checkpoint) (begin config [] parked_ledger)
    ≡ ok (
      proof_of parked_ledger.node_state node_hold checkpoint parked_ledger,
      begin config [] parked_ledger,
    )
unfolding quiescence_proof ◌>>=◌ gets guard load_state active_named first active_hold any
    scope_revision same_scope has_active in_range in_scope unsettled unsettled_requests
    uncertain_attempts owing_actions running_tools open_approvals open_inputs uncertain_tools
    count_if owned_in find? valid_proof valid_positive_integer pure
proof_is_given = refl

quiescence_proof-Proves_example :
    Proves parked_ledger 60 (proof_of parked_ledger.node_state node_hold checkpoint parked_ledger)
quiescence_proof-Proves_example =
    quiescence_proof-Proves 1 60 (λ s. some checkpoint) (begin config [] parked_ledger)
      (begin config [] parked_ledger)
      (proof_of parked_ledger.node_state node_hold checkpoint parked_ledger) proof_is_given
