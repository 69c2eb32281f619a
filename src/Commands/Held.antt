-- ===== src/Commands/Held.antt =====
-- A command that a hold covers.
use harness_codex.Prelude.{
  ◌≡◌, refl, Bool, true, false, Option, none, some, List, [], ◌∷◌, ◌==◌, any, if◌then◌else◌,
  Bool-cases, inl, inr, arith,
}
use harness_codex.Ledger.Types.{Uuid, Hold}
use harness_codex.Ledger.Wire.{Envelope}
use harness_codex.Ledger.Db.{Db, CommandRejection}
use harness_codex.Ledger.Tx.{Config, Work, Code, Result, err, ok, load_state, new_id, take_id}
use harness_codex.Ledger.Leads.{
  Ends, Leads, Leads-gets, Leads-guard, Leads-weaken, leads_rules, Returns, Returns-bind,
  Returns-then, Returns-pure,
}
use harness_codex.Commands.Keeps.{authorize_object-keeps, load_outcome-keeps}
use harness_codex.Commands.Lookup.{Stored, covering_hold}
use harness_codex.Commands.Host.{Host, Trust}
use harness_codex.Commands.Reply.{Reply, conclude, refusal}
use harness_codex.Commands.Submit.{
  Verdict, replayed, admitted, held, insert_rejection, rejection_clash, reject_held, admit, decide,
  command_tx, settle, begin, is_delete, submit_command,
}

-- The ledgers differ in the rejections at most.
abbrev pub SameButRejections : Db → Db → Type 0
SameButRejections db after = record after { command_rejections = db.command_rejections } ≡ db

abbrev Rejecting : Db → Work → Type 0
Rejecting db w = SameButRejections db w.db

-- A verdict that is no replay has changed the rejections at most.
abbrev Harmless : Db → Verdict → Work → Type 0
Harmless db (replayed o) w = Unit
Harmless db (admitted r) w = ⊥
Harmless db (held r) w = Rejecting db w

new_id-Rejecting : (db : Db) → Leads (Rejecting db) (Rejecting db) new_id
unfolding new_id
new_id-Rejecting db = record { at = λ w h. taken w.ids w h }
  where
    taken :
        (ids : List Uuid) (w : Work) → Rejecting db w → Ends (λ _ v. Rejecting db v) (take_id ids w)
    taken [] w h = tt
    taken (i ∷ rest) w h = h

insert_rejection-Rejecting :
    (db : Db) (r : CommandRejection) → Leads (Rejecting db) (Rejecting db) (insert_rejection r)
unfolding insert_rejection
insert_rejection-Rejecting db r = record {
  at = λ w h. elim (Bool-cases (any (rejection_clash r) w.db.command_rejections)) [
    | inl e ↦ rw e tt
    | inr e ↦ rw e h
  ];
}

reject_held-Rejecting :
    (db : Db) (e : Envelope) (h : Hold) → Leads (Rejecting db) (Rejecting db) (reject_held e h)
unfolding reject_held
reject_held-Rejecting db e h =
    search (leads_rules, new_id-Rejecting, insert_rejection-Rejecting) depth 20

admit-Harmless :
    (h : Host) (e : Envelope) (w0 : Work) (hold : Hold) (o : Option Hold)
    → Returns (λ w. (o ≡ some hold) × (w ≡ w0)) (Harmless w0.db) (admit h e o)
admit-Harmless h e w0 hold none = record { at = λ w p. absurd (ground (arith, p.0)) }
admit-Harmless h e w0 hold (some k) = Returns-then _ _ (Leads-guard _ _) λ _.
    Returns-then _ _ (Leads-weaken _ (λ w p. rw p.1 refl) (reject_held-Rejecting w0.db e k))
      (λ r. Returns-pure _ (λ w p. p))

covering_hold-is :
    (e : Envelope) (w0 : Work) (hold : Hold)
    → covering_hold e.body w0 ≡ ok (some hold, w0)
    → Returns (λ w. w ≡ w0) (λ o w. (o ≡ some hold) × (w ≡ w0)) (covering_hold e.body)
covering_hold-is e w0 hold q = record { at = λ w p. rw (p, q) (refl, refl) }

decide-Harmless :
    (h : Host) (e : Envelope) (w0 : Work) (hold : Hold) (o : Option Stored)
    → covering_hold e.body w0 ≡ ok (some hold, w0)
    → Returns (λ w. w ≡ w0) (Harmless w0.db) (decide h e o)
decide-Harmless h e w0 hold (some o) q = Returns-then _ _ (Leads-guard _ _) λ _.
    Returns-then _ _ (Leads-gets _)
      λ db. Returns-then _ _ (Leads-guard _ _) (λ _. Returns-pure (replayed o) (λ w p. tt))
decide-Harmless h e w0 hold none q =
    Returns-then _ _ (authorize_object-keeps e)
      λ _. Returns-bind _ _ (covering_hold-is e w0 hold q) (λ o. admit-Harmless h e w0 hold o)

load_state-begin :
    (c : Config) (h : Host) (db : Db)
    → Leads (λ w. w ≡ begin c h db) (λ w. w ≡ begin c h db) load_state
unfolding load_state
load_state-begin c h db = record { at = λ w p. rw p refl }

command_tx-Harmless :
    (c : Config) (t : Trust) (h : Host) (e : Envelope) (db : Db) (hold : Hold)
    → covering_hold e.body (begin c h db) ≡ ok (some hold, begin c h db)
    → Returns (λ w. w ≡ begin c h db) (Harmless db) (command_tx t h e)
unfolding command_tx
command_tx-Harmless c t h e db hold q = Returns-then _ _ (load_state-begin c h db) λ s.
    Returns-then _ _ (Leads-gets _) λ config. Returns-then _ _ (Leads-guard _ _) λ _.
      Returns-then _ _ (load_outcome-keeps e.command_id)
        (λ o. decide-Harmless h e (begin c h db) hold o q)

conclude-SameButRejections :
    (h : Host) (r : Reply) (before after : Db)
    → SameButRejections before after
    → SameButRejections before (conclude h r before after).1
conclude-SameButRejections h r before after p =
    ended h.fault_before_commit h.commits h.fault_after_commit
  where
    ended :
        (f c g : Bool)
        → SameButRejections before
            (conclude
              (record h { fault_before_commit = f; commits = c; fault_after_commit = g })
              r
              before
              after).1
    ended true c g = refl
    ended false false g = refl
    ended false true true = p
    ended false true false = p

settle-SameButRejections :
    (h : Host) (db : Db) (r : Result (Verdict × Work))
    → Ends (Harmless db) r
    → SameButRejections db (settle h db r).1
settle-SameButRejections h db (err e) p = refl
settle-SameButRejections h db (ok (replayed o, w)) p = refl
settle-SameButRejections h db (ok (admitted r, w)) p = absurd p
settle-SameButRejections h db (ok (held r, w)) p = conclude-SameButRejections h _ db w.db p

-- A submission of a command that an active hold covers admits no work: whether it is refused, rejected
-- by the hold or answered from a stored outcome, the ledger stays the same but for the table of
-- rejections.
pub submit_command-SameButRejections :
    (c : Config) (t : Trust) (e : Envelope) (h : Host) (db : Db) (hold : Hold)
    → covering_hold e.body (begin c h db) ≡ ok (some hold, begin c h db)
    → SameButRejections db (submit_command c t (some e) h db).1
unfolding submit_command
submit_command-SameButRejections c t e h db hold q =
    entered (t.transport_node_id == c.node_id) (is_delete e.body)
  where
    run : SameButRejections db (settle h db (command_tx t h e (begin c h db))).1
    run =
        settle-SameButRejections h db _
          ((command_tx-Harmless c t h e db hold q).at (begin c h db) refl)

    entered :
        (here delete : Bool)
        → SameButRejections db
            (if here
              then (if delete
                  then (refusal 403 Code.forbidden, db)
                  else settle h db (command_tx t h e (begin c h db)))
              else (refusal 404 Code.not_found, db)).1
    entered true true = refl
    entered true false = run
    entered false delete = refl
