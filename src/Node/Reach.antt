-- ===== src/Node/Reach.antt =====
-- What no sequence of steps breaks.
use harness_codex.Prelude.{Bool, Option, none, some, List}
use harness_codex.Ledger.Types.{Uuid, ActionStatus, ControlAction}
use harness_codex.Ledger.Db.{Db}
use harness_codex.Ledger.Tx.{Config, Tx}
use harness_codex.Ledger.Leads.{Leads}
use harness_codex.Ledger.History.{History, Saved}
use harness_codex.Commands.History.{submit_command-History}
use harness_codex.Dispatch.Next.{begin}
use harness_codex.Dispatch.History.{kept-History, dispatch_next-History}
use harness_codex.Attempts.Actions.{
  Lane, set_action_if, claim_action, requeue_action, finish_action, claimed,
}
use harness_codex.Attempts.History.{
  mark_unknown_tx-Saved, recover_startup-Saved, observe-Saved, mark_started-Saved,
  finish_steer-Saved, finish_approval-Saved, finish_input-Saved,
}
use harness_codex.Holds.Durable.{HoldTables, install_hold-keeps, release_hold-keeps}
use harness_codex.Node.Steps.{
  run, Step, submit, dispatch, claim, requeue, finish, start, lose, observe_one, steer, approve,
  answer, recover, install, release, Reachable, here, next,
}

run-History :
    (c : Config) (ids : List Uuid) (commits : Bool) (m : Tx (Unit {0})) (db : Db)
    → Leads Saved Saved m
    → History db
    → History (run c ids commits m db)
unfolding run
run-History c ids commits m db l p =
    kept-History commits db (m (begin c ids db)) p (l.at (begin c ids db) p)

claimed-History : (db : Db) (o : Option ControlAction) → History db → History (claimed db o).1
unfolding set_action_if
claimed-History db none p = p
claimed-History db (some c) p = p

claim_action-History : (lane : Lane) (db : Db) → History db → History (claim_action lane db).1
unfolding claim_action
claim_action-History lane db p = claimed-History db _ p

requeue_action-History : (id : Uuid) (db : Db) → History db → History (requeue_action id db)
unfolding requeue_action
requeue_action-History id db p = p

finish_action-History :
    (id : Uuid) (s : ActionStatus) (db : Db) → History db → History (finish_action id s db)
unfolding finish_action
finish_action-History id s db p = p

History-HoldTables : HoldTables History
History-HoldTables = record {
  hold = λ db h p. p;
  outcome = λ db o p. p;
  revisions = λ db x p. p;
  clock = λ db x p. p;
}

Step-History : {before after : Db} → Step before after → History before → History after
Step-History (submit c t e h db) p = submit_command-History c t e h db p
Step-History (dispatch c g seen db) p = dispatch_next-History c g seen db p
Step-History (claim lane db) p = claim_action-History lane db p
Step-History (requeue id db) p = requeue_action-History id db p
Step-History (finish id s db) p = finish_action-History id s db p
Step-History (start c ids k ref db) p = run-History c ids k _ db (mark_started-Saved ref) p
Step-History (lose c ids k ref reason effect db) p =
    run-History c ids k _ db (mark_unknown_tx-Saved ref reason effect) p
Step-History (observe_one c ids k o db) p = run-History c ids k _ db (observe-Saved o) p
Step-History (steer c ids k ref m o db) p = run-History c ids k _ db (finish_steer-Saved ref m o) p
Step-History (approve c ids k ref actor id version d o db) p =
    run-History c ids k _ db (finish_approval-Saved ref actor id version d o) p
Step-History (answer c ids k ref m id version o db) p =
    run-History c ids k _ db (finish_input-Saved ref m id version o) p
Step-History (recover c ids k db) p = run-History c ids k _ db recover_startup-Saved p
Step-History (install c t r h db) p = install_hold-keeps History-HoldTables c t r h db p
Step-History (release c t r h db) p = release_hold-keeps History-HoldTables c t r h db p

-- No sequence of steps of the node, in any order and with any failures of the host, leaves a gap in
-- the event history: from a ledger whose events are numbered from one on, each ledger that is
-- reached has its events numbered from one on.
pub Reachable-History :
    {before after : Db} → Reachable before after → History before → History after
Reachable-History here p = p
Reachable-History (next r s) p = Step-History s (Reachable-History r p)
