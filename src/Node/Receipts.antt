-- ===== src/Node/Receipts.antt =====
-- The receipts of commands and of installed holds, after further steps of the node.
use harness_codex.Prelude.{◌≡◌, true, false, some, [], ◌∷◌, ◌++◌, find?-append_found, inl, inr}
use harness_codex.Ledger.Types.{Uuid, Hold, HoldReceipt}
use harness_codex.Ledger.Wire.{Envelope}
use harness_codex.Ledger.Db.{Db, CommandRow, CommandRejection}
use harness_codex.Ledger.Tx.{Config}
use harness_codex.Commands.Host.{Host, Trust}
use harness_codex.Commands.Reply.{ReplyBody}
use harness_codex.Commands.Submit.{submit_command}
use harness_codex.Commands.Repeat.{Delivers, IsKnown, submit_command-stores, submit_command-known}
use harness_codex.Holds.Scopes.{InstallRequest}
use harness_codex.Holds.Install.{install_hold, stored_hold}
use harness_codex.Holds.Durable.{HoldTables, install_hold-keeps, release_hold-keeps}
use harness_codex.Holds.Idempotence.{
  Recorded, install_hold-Acknowledged, entry, install_hold-replay,
}
use harness_codex.Node.Steps.{Reachable}
use harness_codex.Node.Durable.{Lasting, Reachable-keeps}

IsKnown-command :
    (id : Uuid) (db : Db) (c : CommandRow)
    → IsKnown id db
    → IsKnown id (record db { commands = db.commands ++ c ∷ [] })
IsKnown-command id db c (inl (r, e)) =
    inl (r, find?-append_found (λ (x : CommandRow). x.command_id) id db.commands c r e)
IsKnown-command id db c (inr p) = inr p

IsKnown-rejection :
    (id : Uuid) (db : Db) (c : CommandRejection)
    → IsKnown id db
    → IsKnown id (record db { command_rejections = db.command_rejections ++ c ∷ [] })
IsKnown-rejection id db c (inl p) = inl p
IsKnown-rejection id db c (inr (r, e)) =
    inr (
      r,
      find?-append_found (λ (x : CommandRejection). x.command_id) id db.command_rejections c r e,
    )

IsKnown-HoldTables : (id : Uuid) → HoldTables (IsKnown id)
IsKnown-HoldTables id = record {
  hold = λ db h p. p;
  outcome = λ db o p. p;
  revisions = λ db x p. p;
  clock = λ db x p. p;
}

IsKnown-Lasting : (id : Uuid) → Lasting (IsKnown id)
IsKnown-Lasting id = record {
  tables = record {
    node_state = λ db x p. p;
    dialogs = λ db x p. p;
    messages = λ db x p. p;
    requests = λ db x p. p;
    attempts = λ db x p. p;
    control_actions = λ db x p. p;
    events = λ db x p. p;
    approvals = λ db x p. p;
    input_requests = λ db x p. p;
    late_observations = λ db x p. p;
    policy_snapshots = λ db x p. p;
    command = λ db c f p. IsKnown-command id db c p;
    rejection = λ db c f p. IsKnown-rejection id db c p;
  };
  installs = install_hold-keeps (IsKnown-HoldTables id);
  releases = release_hold-keeps (IsKnown-HoldTables id);
}

-- A command that was committed once, accepted or rejected by a hold, is spent for ever: after any
-- sequence of steps of the node, a submission of its identifier, with any bytes, by any caller and on
-- any host, changes nothing.
pub submit_command_spent :
    (c d : Config) (t u : Trust) (e f : Envelope) (h g : Host) (db later : Db)
    → (submit_command c t (some e) h db).0.committed ≡ true
    → Reachable (submit_command c t (some e) h db).1 later
    → f.command_id ≡ e.command_id
    → (submit_command d u (some f) g later).1 ≡ later
submit_command_spent c d t u e f h g db later q r same = submit_command-known d u f g later (
    rw same (Reachable-keeps (IsKnown-Lasting e.command_id) r (submit_command-stores c t e h db q)))

Recorded-HoldTables : (r : InstallRequest) (x : HoldReceipt) → HoldTables (Recorded r x)
unfolding stored_hold
Recorded-HoldTables r x = record {
  hold = λ db h p. (
    p.0,
    find?-append_found (λ (k : Hold). k.operation_id) r.operation_id db.administrative_holds h p.0
        p.1,
    p.2,
    p.3,
  );
  outcome = λ db o p. p;
  revisions = λ db y p. p;
  clock = λ db y p. p;
}

Recorded-Lasting : (r : InstallRequest) (x : HoldReceipt) → Lasting (Recorded r x)
unfolding stored_hold
Recorded-Lasting r x = record {
  tables = record {
    node_state = λ db y p. p;
    dialogs = λ db y p. p;
    messages = λ db y p. p;
    requests = λ db y p. p;
    attempts = λ db y p. p;
    control_actions = λ db y p. p;
    events = λ db y p. p;
    approvals = λ db y p. p;
    input_requests = λ db y p. p;
    late_observations = λ db y p. p;
    policy_snapshots = λ db y p. p;
    command = λ db c f p. p;
    rejection = λ db c f p. p;
  };
  installs = install_hold-keeps (Recorded-HoldTables r x);
  releases = release_hold-keeps (Recorded-HoldTables r x);
}

-- An installation that was committed can be asked for again whenever its reply is lost: after any
-- sequence of steps of the node, also after the hold was released, the same request with the same
-- transport gives status 200 and one receipt, on any host, and changes nothing. It is the receipt that
-- the first reply carried, unless that reply said that its delivery was interrupted.
pub install_hold_acknowledged :
    (c : Config) (transport : Uuid) (r : InstallRequest) (h g : Host) (db later : Db)
    → (install_hold c transport (some r) h db).0.committed ≡ true
    → Reachable (install_hold c transport (some r) h db).1 later
    → (x : HoldReceipt) × Delivers (ReplyBody.hold x) (install_hold c transport (some r) h db).0
      × (install_hold c transport (some r) g later
          ≡ (record { http_status = 200; body = ReplyBody.hold x; committed = false }, later))
install_hold_acknowledged c transport r h g db later q steps =
    let k = install_hold-Acknowledged c transport r h db q in
    let e = entry c transport r h db q in
    let later_row = Reachable-keeps (Recorded-Lasting r k.0) steps k.1 in
    (k.0, k.2, install_hold-replay c transport r k.0 g later later_row e.0 e.1 e.2)
