-- ===== src/Node/Replies.antt =====
-- The replies to a command that was committed, after further steps of the node (runtime/command.go).
use harness_codex.Prelude.{◌≡◌, ◌≢◌, sym, subst, true, false, some, ◌==◌, arith}
use harness_codex.Ledger.Types.{Uuid, Digest}
use harness_codex.Ledger.Wire.{Envelope}
use harness_codex.Ledger.Db.{Db}
use harness_codex.Ledger.Tx.{Config}
use harness_codex.Commands.Lookup.{Stored, stored_hash}
use harness_codex.Commands.Host.{Host, Trust}
use harness_codex.Commands.Submit.{submit_command}
use harness_codex.Commands.Repeat.{Delivers}
use harness_codex.Commands.Acknowledged.{
  Stands, Stands-command, Stands-rejection, receipt_of, repeat_reply, submit_command-Acknowledged,
  submit_command-repeat, IsRefused, submit_command-other,
}
use harness_codex.Holds.Durable.{HoldTables, install_hold-keeps, release_hold-keeps}
use harness_codex.Node.Steps.{Reachable}
use harness_codex.Node.Durable.{Lasting, Reachable-keeps}

Stands-HoldTables : (id : Uuid) (o : Stored) → HoldTables (Stands id o)
Stands-HoldTables id o = record {
  hold = λ db h p. p;
  outcome = λ db x p. p;
  revisions = λ db x p. p;
  clock = λ db x p. p;
}

Stands-Lasting : (id : Uuid) (o : Stored) → Lasting (Stands id o)
Stands-Lasting id o = record {
  tables = record {
    node_state = λ db x p. p;
    dialogs = λ db x p. p;
    messages = λ db x p. p;
    requests = λ db x p. p;
    attempts = λ db x p. p;
    control_actions = λ db x p. p;
    events = λ db x p. p;
    approvals = λ db x p. p;
    input_requests = λ db x p. p;
    late_observations = λ db x p. p;
    policy_snapshots = λ db x p. p;
    command = Stands-command id o;
    rejection = Stands-rejection id o;
  };
  installs = install_hold-keeps (Stands-HoldTables id o);
  releases = release_hold-keeps (Stands-HoldTables id o);
}

-- A command that was committed, accepted or rejected by a hold, can be submitted again whenever its reply
-- is lost: after any sequence of steps of the node, the same bytes from the same transport get the stored
-- outcome and change nothing, on any host and at any time. The outcome is the one that the first reply
-- carried, unless that reply said that its delivery was interrupted. Instead of it the reply is 409 stale
-- where the caller expects another identity of the node than the ledger has, and 404 where the dialog of
-- the command was deleted.
pub submit_command_acknowledged :
    (c d : Config) (t u : Trust) (e : Envelope) (h g : Host) (db later : Db)
    → (submit_command c t (some e) h db).0.committed ≡ true
    → Reachable (submit_command c t (some e) h db).1 later
    → d.node_id ≡ c.node_id
    → u.transport_node_id ≡ t.transport_node_id
    → (o : Stored) × Delivers (receipt_of o) (submit_command c t (some e) h db).0
      × (submit_command d u (some e) g later ≡ (repeat_reply d u o later, later))
submit_command_acknowledged c d t u e h g db later q steps n m =
    let k = submit_command-Acknowledged c t e h db q in
    let o = k.1.0 in
    let stands = Reachable-keeps (Stands-Lasting e.command_id o) steps k.1.2 in
    let entered : (u.transport_node_id == d.node_id) ≡ true = rw (n, m) k.0.0 in
    (o, k.1.3, submit_command-repeat d u e o g later (entered, k.0.1) k.1.1 stands)

digests_differ : (a b c : Digest) → a ≡ b → c ≢ b → (a == c) ≡ false
digests_differ a b c e n = ground arith

-- The identifier of a command that was committed is never taken by other bytes: after any sequence of
-- steps of the node, a submission of the identifier with another digest, from any caller and on any host,
-- gets an error, not a receipt or a rejection, and changes nothing.
pub submit_command_reserved :
    (c d : Config) (t u : Trust) (e f : Envelope) (h g : Host) (db later : Db)
    → (submit_command c t (some e) h db).0.committed ≡ true
    → Reachable (submit_command c t (some e) h db).1 later
    → f.command_id ≡ e.command_id
    → f.digest ≢ e.digest
    → IsRefused later (submit_command d u (some f) g later)
submit_command_reserved c d t u e f h g db later q steps same other =
    let k = submit_command-Acknowledged c t e h db q in
    let o = k.1.0 in
    let stands = Reachable-keeps (Stands-Lasting e.command_id o) steps k.1.2 in
    let differs : (stored_hash o == f.digest) ≡ false =
      digests_differ (stored_hash o) e.digest f.digest k.1.1 other in
    submit_command-other d u f o g later differs (subst (λ id. Stands id o later) (sym same) stands)
