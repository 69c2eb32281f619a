-- ===== src/Commands/History.antt =====
-- No command leaves a gap in the event history.
use harness_codex.Prelude.{
  Bool, true, false, Option, none, some, Bool-cases, not, ◌||◌, if◌then◌else◌, inl, inr, List, [],
  ◌∷◌, any, ◌==◌, arith,
}
use harness_codex.Ledger.Types.{Uuid, Hold}
use harness_codex.Ledger.Wire.{Body, dialog_create, Envelope, kind_of}
use harness_codex.Ledger.Db.{Db, CommandRow, CommandRejection}
use harness_codex.Ledger.Tx.{
  Config, Work, Result, err, ok, load_state, Code, refused, new_id, take_id,
}
use harness_codex.Ledger.Leads.{
  Ends, Leads, Leads-guard, Leads-pure, Leads-bind, Leads-weaken, Leads-from, leads_rules,
}
use harness_codex.Ledger.History.{
  History, Open, Saved, save_state-Saved, history_rules, unless-Ends,
}
use harness_codex.Commands.Envelope.{PostCommit, is_admission}
use harness_codex.Commands.Handlers.{
  apply_dialog_create, apply_message_enqueue, apply_request_cancel, apply_queue_resume,
}
use harness_codex.Commands.Control.{
  apply_attempt_stop, apply_message_steer, apply_approval, apply_input,
}
use harness_codex.Commands.Retry.{apply_attempt_retry}
use harness_codex.Commands.Keeps.{lookup_keeps}
use harness_codex.Commands.Lookup.{Stored}
use harness_codex.Commands.Host.{Host, Trust, below_floor}
use harness_codex.Commands.Reply.{Reply, conclude}
use harness_codex.Commands.Submit.{
  Verdict, replayed, admitted, held, admit, decide, command_tx, settle, begin, is_delete,
  submit_command, rejection_clash, apply_command, block_storage, check_storage, record_action,
  insert_command, insert_rejection, reject_held, accept,
}

apply_command-Open : (e : Envelope) (b : Body) → Leads Open Open (apply_command e b)
unfolding apply_command apply_dialog_create apply_message_enqueue apply_request_cancel
    apply_queue_resume apply_attempt_stop apply_message_steer apply_approval apply_input
    apply_attempt_retry
apply_command-Open e (dialog_create _ _) = search (leads_rules, history_rules) depth 40
apply_command-Open e _ = search (leads_rules, history_rules) depth 40

record_action-Open : (id : Uuid) (a : Option PostCommit) → Leads Open Open (record_action id a)
unfolding record_action
record_action-Open id none = record { at = λ w h. h }
record_action-Open id (some a) = record { at = λ w h. unless-Ends _ _ h }

insert_command-Open : (c : CommandRow) → Leads Open Open (insert_command c)
unfolding insert_command
insert_command-Open c = record { at = λ w h. unless-Ends _ _ h }

ruleset accept_rules =
    (leads_rules, history_rules, apply_command-Open, record_action-Open, insert_command-Open)

accept-Saved : (e : Envelope) → Leads Open Saved (accept e)
unfolding accept
accept-Saved e = search (accept_rules, Leads-from, save_state-Saved) depth 40

-- The state that a transaction has loaded and not yet changed
abbrev pub Loaded : Work → Type 0
Loaded w = Saved w × Open w

pub load_state-Loaded : Leads Saved Loaded load_state
unfolding load_state
load_state-Loaded = record { at = λ w h. (h, h) }

check_storage-Open : (h : Host) (admission : Bool) → Leads Loaded Open (check_storage h admission)
unfolding check_storage
check_storage-Open h true = record {
  at = λ w p.
      (Leads-guard {P = Open} (not (below_floor h.probe)) (refused 503 Code.not_durable)).at w p.1;
}
check_storage-Open h false = record {
  at = λ w p. elim (Bool-cases h.reserve_released) [
    | inl e ↦ rw e (stored (below_floor h.probe || below_floor h.physical) w p.1)
    | inr e ↦ rw e tt
  ];
}
  where
    stored :
        (low : Bool) (w : Work)
        → Open w
        → Open (if low then record w { state = block_storage w.state } else w)
    stored true w p = p
    stored false w p = p

new_id-Saved : Leads Saved Saved new_id
unfolding new_id
new_id-Saved = record { at = λ w h. taken w.ids w h }
  where
    taken : (ids : List Uuid) (w : Work) → Saved w → Ends (λ _ v. Saved v) (take_id ids w)
    taken [] w h = tt
    taken (i ∷ rest) w h = h

insert_rejection-Saved : (c : CommandRejection) → Leads Saved Saved (insert_rejection c)
unfolding insert_rejection
insert_rejection-Saved c = record {
  at = λ w h. elim (Bool-cases (any (rejection_clash c) w.db.command_rejections)) [
    | inl e ↦ rw e tt
    | inr e ↦ rw e h
  ];
}

reject_held-Saved : (e : Envelope) (h : Hold) → Leads Saved Saved (reject_held e h)
unfolding reject_held
reject_held-Saved e h = search (leads_rules, new_id-Saved, insert_rejection-Saved) depth 40

admit-Saved : (h : Host) (e : Envelope) (o : Option Hold) → Leads Loaded Saved (admit h e o)
admit-Saved h e none =
    Leads-bind _ _ (check_storage-Open h (is_admission (kind_of e.body)))
      λ _. Leads-bind _ _ (accept-Saved e) (λ r. Leads-pure (admitted r))
admit-Saved h e (some hold) =
    Leads-weaken _ (λ w p. p.0) (search (leads_rules, reject_held-Saved) depth 10)

decide-Saved : (h : Host) (e : Envelope) (o : Option Stored) → Leads Loaded Saved (decide h e o)
decide-Saved h e (some o) = Leads-weaken _ (λ w p. p.0) (search leads_rules depth 10)
decide-Saved h e none = search (lookup_keeps, admit-Saved) depth 10

command_tx-Saved : (t : Trust) (h : Host) (e : Envelope) → Leads Saved Saved (command_tx t h e)
unfolding command_tx
command_tx-Saved t h e =
    Leads-bind _ _ load_state-Loaded (λ s. search (lookup_keeps, decide-Saved) depth 10)

conclude-History :
    (h : Host) (r : Reply) (before after : Db)
    → History before
    → History after
    → History (conclude h r before after).1
conclude-History h r before after p q = ground arith

settle-History :
    (h : Host) (db : Db) (r : Result (Verdict × Work))
    → History db
    → Ends (λ _ w. Saved w) r
    → History (settle h db r).1
settle-History h db (err e) p q = p
settle-History h db (ok (replayed o, w)) p q = p
settle-History h db (ok (admitted r, w)) p q = conclude-History h _ db w.db p q
settle-History h db (ok (held r, w)) p q = conclude-History h _ db w.db p q

-- Whatever the bytes, the caller and the host, a submitted command leaves the ledger with the
-- events numbered from one on without a gap, if they were so before.
pub submit_command-History :
    (c : Config) (t : Trust) (e : Option Envelope) (h : Host) (db : Db)
    → History db
    → History (submit_command c t e h db).1
unfolding submit_command
submit_command-History c t none h db p = elim (Bool-cases (t.transport_node_id == c.node_id)) [
  | inl q ↦ rw q p
  | inr q ↦ rw q p
]
submit_command-History c t (some e) h db p = elim (Bool-cases (t.transport_node_id == c.node_id)) [
  | inr q ↦ rw q p
  | inl q ↦ rw q (elim (Bool-cases (is_delete e.body)) [
    | inl d ↦ rw d p
    | inr d ↦ rw d (
        settle-History h db (command_tx t h e (begin c h db)) p
          ((command_tx-Saved t h e).at (begin c h db) p))
  ])
]
