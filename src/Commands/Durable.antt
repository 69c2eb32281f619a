-- ===== src/Commands/Durable.antt =====
-- A submitted command keeps what lasts.
use harness_codex.Prelude.{
  Bool, true, false, Option, none, some, Bool-cases, inl, inr, ◌==◌, any, if◌then◌else◌,
}
use harness_codex.Ledger.Types.{Uuid, Hold}
use harness_codex.Ledger.Wire.{Envelope, kind_of}
use harness_codex.Ledger.Db.{Db, CommandRow, CommandRejection}
use harness_codex.Ledger.Tx.{Config, Work, Result, err, ok, Code}
use harness_codex.Ledger.Leads.{
  Ends, Leads, leads_rules, Leads-then, Leads-gets, Leads-pure, Leads-from, Leads-guard, Returns,
  Returns-both, Returns-weaken, Returns-of_Leads, Returns-then, Returns-bind,
}
use harness_codex.Ledger.Frame.{Stable, unless-keeps, new_id-keeps}
use harness_codex.Ledger.Durable.{Durable, IsUnused, Kept, load_state-Kept, save_state-Kept}
use harness_codex.Commands.Keeps.{authorize_object-keeps, load_outcome-keeps, covering_hold-keeps}
use harness_codex.Commands.Envelope.{is_admission}
use harness_codex.Commands.Lookup.{Stored, load_outcome}
use harness_codex.Commands.Host.{Host, Trust}
use harness_codex.Commands.Reply.{Reply, conclude, refusal}
use harness_codex.Commands.Outcomes.{
  apply_command-keeps, record_action-keeps, check_storage-keeps, Found, load_outcome-Found,
}
use harness_codex.Commands.Submit.{
  Verdict, replayed, admitted, held, command_clash, rejection_clash, insert_command,
  insert_rejection, accept, reject_held, admit, decide, command_tx, settle, begin, is_delete,
  submit_command,
}

-- What holds before and after holds whatever becomes of the commit.
pub conclude-keeps :
    (P : Db → Type 0) (h : Host) (r : Reply) (before after : Db)
    → P before
    → P after
    → P (conclude h r before after).1
conclude-keeps P h r before after p q = ended h.fault_before_commit h.commits h.fault_after_commit
  where
    ended :
        (f c g : Bool)
        → P
            (conclude
              (record h { fault_before_commit = f; commits = c; fault_after_commit = g })
              r
              before
              after).1
    ended true c g = p
    ended false false g = p
    ended false true true = q
    ended false true false = q

module _ {P : Db → Type 0} (d : Durable P) where
  -- The condition, while the identifier has no outcome
  abbrev Free : Uuid → Work → Type 0
  Free id w = P w.db × IsUnused id w.db

  Free-Stable : (id : Uuid) → Stable (Free id)
  Free-Stable id = record {
    ids = λ w x h. h;
    state = λ w x h. h;
    dialogs = λ w x h. (d.dialogs w.db x h.0, h.1);
    messages = λ w x h. (d.messages w.db x h.0, h.1);
    requests = λ w x h. (d.requests w.db x h.0, h.1);
    attempts = λ w x h. (d.attempts w.db x h.0, h.1);
    control_actions = λ w x h. (d.control_actions w.db x h.0, h.1);
    events = λ w x h. (d.events w.db x h.0, h.1);
    approvals = λ w x h. (d.approvals w.db x h.0, h.1);
    input_requests = λ w x h. (d.input_requests w.db x h.0, h.1);
  }

  insert_command-Kept : (c : CommandRow) → Leads (Free c.command_id) (Kept P) (insert_command c)
  unfolding insert_command
  insert_command-Kept c = record {
    at = λ w h.
        unless-keeps (Kept P) (any (command_clash c) w.db.commands) _ (d.command w.db c h.1 h.0);
  }

  insert_rejection-Kept :
      (c : CommandRejection) → Leads (Free c.command_id) (Kept P) (insert_rejection c)
  unfolding insert_rejection
  insert_rejection-Kept c = record {
    at = λ w h.
        unless-keeps (Kept P) (any (rejection_clash c) w.db.command_rejections) _
          (d.rejection w.db c h.1 h.0);
  }

  accept-Kept : (e : Envelope) → Leads (Free e.command_id) (Kept P) (accept e)
  unfolding accept
  accept-Kept e =
      let stable = Free-Stable e.command_id in
      Leads-then _ _ (apply_command-keeps stable e e.body) λ a.
        Leads-then _ _ (new_id-keeps stable) λ id. Leads-then _ _ (Leads-gets _) λ s.
          Leads-then _ _ (Leads-gets _) λ now. Leads-then _ _ (Leads-gets _) λ valid.
            Leads-then _ _ (Leads-guard _ _) λ _.
              Leads-then _ _ (record_action-keeps stable e.command_id a.action) λ _.
                Leads-from _ _ (insert_command-Kept _)
                  λ _. Leads-then _ _ (save_state-Kept d) (λ _. Leads-pure _)

  reject_held-Kept :
      (e : Envelope) (h : Hold) → Leads (Free e.command_id) (Kept P) (reject_held e h)
  unfolding reject_held
  reject_held-Kept e h = Leads-then _ _ (new_id-keeps (Free-Stable e.command_id)) λ id.
      Leads-then _ _ (Leads-gets _) λ now. Leads-then _ _ (Leads-gets _) λ valid.
        Leads-then _ _ (Leads-guard _ _)
          λ _. Leads-from _ _ (insert_rejection-Kept _) (λ _. Leads-pure _)

  admit-Kept :
      (h : Host) (e : Envelope) (o : Option Hold) → Leads (Free e.command_id) (Kept P) (admit h e o)
  admit-Kept h e none =
      Leads-then _ _
        (check_storage-keeps (Free-Stable e.command_id) h (is_admission (kind_of e.body)))
        λ _. Leads-from _ _ (accept-Kept e) (λ r. Leads-pure _)
  admit-Kept h e (some hold) =
      Leads-then _ _ (Leads-guard _ _)
        λ _. Leads-from _ _ (reject_held-Kept e hold) (λ r. Leads-pure _)

  -- What loadCommandOutcome leaves
  abbrev Looked : Uuid → Option Stored → Work → Type 0
  Looked id o w = P w.db × Found id o w

  load_outcome-Looked : (id : Uuid) → Returns (Kept P) (Looked id) (load_outcome id)
  load_outcome-Looked id = Returns-both _ (load_outcome-keeps id) (load_outcome-Found id)

  decide-Kept :
      (h : Host) (e : Envelope) (o : Option Stored)
      → Returns (Looked e.command_id o) (λ _. Kept P) (decide h e o)
  decide-Kept h e (some o) =
      Returns-weaken _ (λ w p. p.0) (Returns-of_Leads _ (search leads_rules depth 10))
  decide-Kept h e none = Returns-of_Leads _ (
      Leads-then _ _ (authorize_object-keeps e)
        λ _. Leads-then _ _ (covering_hold-keeps e.body) (λ o. admit-Kept h e o))

  command_tx-Kept :
      (t : Trust) (h : Host) (e : Envelope) → Returns (Kept P) (λ _. Kept P) (command_tx t h e)
  unfolding command_tx
  command_tx-Kept t h e = Returns-then _ _ (load_state-Kept P) λ s.
      Returns-then _ _ (Leads-gets _) λ c.
        Returns-then _ _ (Leads-guard _ _)
          λ _. Returns-bind _ _ (load_outcome-Looked e.command_id) (λ o. decide-Kept h e o)

  settle-Kept :
      (h : Host) (db : Db) (r : Result (Verdict × Work))
      → P db
      → Ends (λ _ w. Kept P w) r
      → P (settle h db r).1
  settle-Kept h db (err e) p q = p
  settle-Kept h db (ok (replayed o, w)) p q = p
  settle-Kept h db (ok (admitted r, w)) p q = conclude-keeps P h _ db w.db p q
  settle-Kept h db (ok (held r, w)) p q = conclude-keeps P h _ db w.db p q

  pub submit_command-keeps :
      (c : Config) (t : Trust) (e : Option Envelope) (h : Host) (db : Db)
      → P db
      → P (submit_command c t e h db).1
  unfolding submit_command
  submit_command-keeps c t none h db p = elim (Bool-cases (t.transport_node_id == c.node_id)) [
    | inl q ↦ rw q p
    | inr q ↦ rw q p
  ]
  submit_command-keeps c t (some e) h db p =
      entered (t.transport_node_id == c.node_id) (is_delete e.body)
    where
      entered :
          (here delete : Bool)
          → P
              (if here
                then (if delete
                    then (refusal 403 Code.forbidden, db)
                    else settle h db (command_tx t h e (begin c h db)))
                else (refusal 404 Code.not_found, db)).1
      entered true true = p
      entered true false = settle-Kept h db _ p ((command_tx-Kept t h e).at (begin c h db) p)
      entered false delete = p
