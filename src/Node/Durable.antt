-- ===== src/Node/Durable.antt =====
-- What lasts through every sequence of steps.
use harness_codex.Prelude.{Bool, Option, none, some, List}
use harness_codex.Ledger.Types.{Uuid, ActionStatus, ControlAction}
use harness_codex.Ledger.Db.{Db}
use harness_codex.Ledger.Tx.{Config, Tx}
use harness_codex.Ledger.Leads.{Leads}
use harness_codex.Ledger.Durable.{Durable, Kept}
use harness_codex.Commands.Lookup.{active_hold}
use harness_codex.Commands.Host.{Host}
use harness_codex.Commands.Durable.{submit_command-keeps}
use harness_codex.Dispatch.Next.{begin}
use harness_codex.Dispatch.Durable.{kept-keeps, dispatch_next-keeps}
use harness_codex.Attempts.Actions.{
  Lane, set_action_if, claim_action, requeue_action, finish_action, claimed,
}
use harness_codex.Attempts.Durable.{
  mark_unknown_tx-Kept, recover_startup-Kept, observe-Kept, mark_started-Kept,
}
use harness_codex.Attempts.DurableFinish.{
  finish_steer-Kept, finish_approval-Kept, finish_input-Kept,
}
use harness_codex.Holds.Scopes.{InstallRequest, ReleaseRequest}
use harness_codex.Holds.Install.{install_hold}
use harness_codex.Holds.Release.{release_hold}
use harness_codex.Holds.Exclusion.{Exclusive, install_hold-Exclusive}
use harness_codex.Holds.Releasing.{release_hold-Exclusive}
use harness_codex.Node.Steps.{
  run, Step, submit, dispatch, claim, requeue, finish, start, lose, observe_one, steer, approve,
  answer, recover, install, release, Reachable, here, next,
}

-- The requests on holds keep the condition too.
pub record Lasting (P : Db → Type 0) : Type 0 where
  pub tables : Durable P
  pub installs :
      (c : Config) (t : Uuid) (r : Option InstallRequest) (h : Host) (db : Db)
      → P db
      → P (install_hold c t r h db).1
  pub releases :
      (c : Config) (t : Uuid) (r : Option ReleaseRequest) (h : Host) (db : Db)
      → P db
      → P (release_hold c t r h db).1

module _ {P : Db → Type 0} (l : Lasting P) where
  run-keeps :
      (c : Config) (ids : List Uuid) (commits : Bool) (m : Tx (Unit {0})) (db : Db)
      → Leads (Kept P) (Kept P) m
      → P db
      → P (run c ids commits m db)
  unfolding run
  run-keeps c ids commits m db k p =
      kept-keeps P commits db (m (begin c ids db)) p (k.at (begin c ids db) p)

  set_action_if-keeps :
      (f : ControlAction → Bool) (s : ActionStatus) (id : Uuid) (db : Db)
      → P db
      → P (set_action_if f s id db)
  unfolding set_action_if
  set_action_if-keeps f s id db p = l.tables.control_actions db _ p

  claimed-keeps : (db : Db) (o : Option ControlAction) → P db → P (claimed db o).1
  claimed-keeps db none p = p
  claimed-keeps db (some c) p = set_action_if-keeps _ _ _ db p

  claim_action-keeps : (lane : Lane) (db : Db) → P db → P (claim_action lane db).1
  unfolding claim_action
  claim_action-keeps lane db p = claimed-keeps db _ p

  requeue_action-keeps : (id : Uuid) (db : Db) → P db → P (requeue_action id db)
  unfolding requeue_action
  requeue_action-keeps id db p = set_action_if-keeps _ _ _ db p

  finish_action-keeps : (id : Uuid) (s : ActionStatus) (db : Db) → P db → P (finish_action id s db)
  unfolding finish_action
  finish_action-keeps id s db p = set_action_if-keeps _ _ _ db p

  Step-keeps : {before after : Db} → Step before after → P before → P after
  Step-keeps (submit c t e h db) p = submit_command-keeps l.tables c t e h db p
  Step-keeps (dispatch c g seen db) p = dispatch_next-keeps l.tables c g seen db p
  Step-keeps (claim lane db) p = claim_action-keeps lane db p
  Step-keeps (requeue id db) p = requeue_action-keeps id db p
  Step-keeps (finish id s db) p = finish_action-keeps id s db p
  Step-keeps (start c ids k ref db) p = run-keeps c ids k _ db (mark_started-Kept l.tables ref) p
  Step-keeps (lose c ids k ref reason effect db) p =
      run-keeps c ids k _ db (mark_unknown_tx-Kept l.tables ref reason effect) p
  Step-keeps (observe_one c ids k o db) p = run-keeps c ids k _ db (observe-Kept l.tables o) p
  Step-keeps (steer c ids k ref m o db) p =
      run-keeps c ids k _ db (finish_steer-Kept l.tables ref m o) p
  Step-keeps (approve c ids k ref actor id version v o db) p =
      run-keeps c ids k _ db (finish_approval-Kept l.tables ref actor id version v o) p
  Step-keeps (answer c ids k ref m id version o db) p =
      run-keeps c ids k _ db (finish_input-Kept l.tables ref m id version o) p
  Step-keeps (recover c ids k db) p = run-keeps c ids k _ db (recover_startup-Kept l.tables) p
  Step-keeps (install c t r h db) p = l.installs c t r h db p
  Step-keeps (release c t r h db) p = l.releases c t r h db p

  pub Reachable-keeps : {before after : Db} → Reachable before after → P before → P after
  Reachable-keeps here p = p
  Reachable-keeps (next r s) p = Step-keeps s (Reachable-keeps r p)

Exclusive-Lasting : Lasting Exclusive
unfolding active_hold
Exclusive-Lasting = record {
  tables = record {
    node_state = λ db x p. p;
    dialogs = λ db x p. p;
    messages = λ db x p. p;
    requests = λ db x p. p;
    attempts = λ db x p. p;
    control_actions = λ db x p. p;
    events = λ db x p. p;
    approvals = λ db x p. p;
    input_requests = λ db x p. p;
    late_observations = λ db x p. p;
    policy_snapshots = λ db x p. p;
    command = λ db c f p. p;
    rejection = λ db c f p. p;
  };
  installs = install_hold-Exclusive;
  releases = release_hold-Exclusive;
}

-- No sequence of steps of the node, in any order and with any failures of the host, gives two active
-- holds of a node whose scopes overlap: from a ledger where active holds with overlapping scopes are
-- one operation's, each ledger that is reached is such a ledger.
pub Reachable-Exclusive :
    {before after : Db} → Reachable before after → Exclusive before → Exclusive after
Reachable-Exclusive r p = Reachable-keeps Exclusive-Lasting r p
