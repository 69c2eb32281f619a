-- ===== src/Node/Steps.antt =====
-- The steps of a node. Its transactions run one at a time, each under the node's lock, in an order
-- that callers, the adapter and the action loop decide.
use harness_codex.Prelude.{ℕ, Bool, Option, List}
use harness_codex.Ledger.Types.{Uuid, EffectStatus, ActionStatus, Decision}
use harness_codex.Ledger.Wire.{Envelope}
use harness_codex.Ledger.Db.{Db, UnknownReason}
use harness_codex.Ledger.Tx.{Config, Tx}
use harness_codex.Commands.Host.{Trust, Host}
use harness_codex.Commands.Submit.{submit_command}
use harness_codex.Dispatch.Next.{Gate, begin, kept, dispatch_next}
use harness_codex.Attempts.Unknown.{AttemptRef, mark_unknown_tx, recover_startup}
use harness_codex.Attempts.Observe.{Observation, observe}
use harness_codex.Attempts.Actions.{Lane, claim_action, requeue_action, finish_action, mark_started}
use harness_codex.Attempts.Finish.{
  SteerOutcome, ResponseOutcome, finish_steer, finish_approval, finish_input,
}
use harness_codex.Holds.Scopes.{InstallRequest, ReleaseRequest}
use harness_codex.Holds.Install.{install_hold}
use harness_codex.Holds.Release.{release_hold}

-- A transaction that commits when it returns no error and SQLite takes the commit.
unfoldable pub run : Config → List Uuid → Bool → Tx (Unit {0}) → Db → Db
run c ids commits m db = kept commits db (m (begin c ids db))

pub data Step : Db → Db → Type 0 where
  submit :
      (c : Config) (t : Trust) (e : Option Envelope) (h : Host) (db : Db)
      → Step db (submit_command c t e h db).1
  dispatch : (c : Config) (g : Gate) (seen db : Db) → Step db (dispatch_next c g seen db).1
  claim : (lane : Lane) (db : Db) → Step db (claim_action lane db).1
  requeue : (id : Uuid) (db : Db) → Step db (requeue_action id db)
  finish : (id : Uuid) (s : ActionStatus) (db : Db) → Step db (finish_action id s db)
  start :
      (c : Config) (ids : List Uuid) (commits : Bool) (ref : AttemptRef) (db : Db)
      → Step db (run c ids commits (mark_started ref) db)
  lose :
      (c : Config) (ids : List Uuid) (commits : Bool) (ref : AttemptRef) (reason : UnknownReason)
      (effect : EffectStatus) (db : Db)
      → Step db (run c ids commits (mark_unknown_tx ref reason effect) db)
  observe_one :
      (c : Config) (ids : List Uuid) (commits : Bool) (o : Observation) (db : Db)
      → Step db (run c ids commits (observe o) db)
  steer :
      (c : Config) (ids : List Uuid) (commits : Bool) (ref : AttemptRef) (m : Uuid)
      (o : SteerOutcome) (db : Db)
      → Step db (run c ids commits (finish_steer ref m o) db)
  approve :
      (c : Config) (ids : List Uuid) (commits : Bool) (ref : AttemptRef) (actor approval : Uuid)
      (version : ℕ) (d : Decision) (o : ResponseOutcome) (db : Db)
      → Step db (run c ids commits (finish_approval ref actor approval version d o) db)
  answer :
      (c : Config) (ids : List Uuid) (commits : Bool) (ref : AttemptRef) (m : Option Uuid)
      (input : Uuid) (version : ℕ) (o : ResponseOutcome) (db : Db)
      → Step db (run c ids commits (finish_input ref m input version o) db)
  recover :
      (c : Config) (ids : List Uuid) (commits : Bool) (db : Db)
      → Step db (run c ids commits recover_startup db)
  install :
      (c : Config) (transport : Uuid) (r : Option InstallRequest) (h : Host) (db : Db)
      → Step db (install_hold c transport r h db).1
  release :
      (c : Config) (transport : Uuid) (r : Option ReleaseRequest) (h : Host) (db : Db)
      → Step db (release_hold c transport r h db).1

-- `after` comes from `before` by steps.
pub data Reachable (before : Db) : Db → Type 0 where
  here : Reachable before before
  next : {mid after : Db} → Reachable before mid → Step mid after → Reachable before after
