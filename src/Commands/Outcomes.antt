-- ===== src/Commands/Outcomes.antt =====
-- Each admitted command has one durable outcome, which a repeated command is answered from.
use harness_codex.Prelude.{
  ◌≡◌, refl, Bool, true, false, not, ◌||◌, Option, none, some, [], ◌∷◌, ◌++◌, if◌then◌else◌, any,
  find?-append_new, Bool-cases, inl, inr,
}
use harness_codex.Ledger.Types.{Uuid, Hold}
use harness_codex.Ledger.Wire.{Body, dialog_create, Envelope, kind_of, Receipt, RejectionReceipt}
use harness_codex.Ledger.Db.{Db, CommandRow, CommandRejection}
use harness_codex.Ledger.Tx.{Work, refused, Code, load_state, save_state, ◌>>=◌}
use harness_codex.Ledger.Leads.{
  Ends, Leads, Leads-gets, Leads-guard, leads_rules, Returns, Returns-bind, Returns-then,
  Returns-pure,
}
use harness_codex.Ledger.Frame.{
  Stable, frame_rules, unless-keeps, insert_action-keeps, new_id-keeps,
}
use harness_codex.Ledger.Durable.{command_row, rejection_row, IsUnused}
use harness_codex.Commands.Envelope.{PostCommit, is_admission}
use harness_codex.Commands.Handlers.{
  apply_dialog_create, apply_message_enqueue, apply_request_cancel, apply_queue_resume,
}
use harness_codex.Commands.Control.{
  apply_attempt_stop, apply_message_steer, apply_approval, apply_input,
}
use harness_codex.Commands.Retry.{apply_attempt_retry}
use harness_codex.Commands.Keeps.{authorize_object-keeps, covering_hold-keeps}
use harness_codex.Commands.Lookup.{Stored, load_outcome, one_outcome}
use harness_codex.Commands.Host.{Host, Trust, below_floor}
use harness_codex.Commands.Submit.{
  Verdict, replayed, admitted, held, apply_command, record_action, insert_command, insert_rejection,
  command_clash, rejection_clash, pending_action, block_storage, check_storage, accept, reject_held,
  admit, decide, command_tx,
}

pub apply_command-keeps :
    {P : Work → Type 0} (stable : Stable P) (e : Envelope) (b : Body)
    → Leads P P (apply_command e b)
unfolding apply_command apply_dialog_create apply_message_enqueue apply_request_cancel
    apply_queue_resume apply_attempt_stop apply_message_steer apply_approval apply_input
    apply_attempt_retry
apply_command-keeps stable e (dialog_create _ _) = search (leads_rules, frame_rules) depth 40
apply_command-keeps stable e _ = search (leads_rules, frame_rules) depth 40

-- No outcome of this identifier is stored.
abbrev pub IsFresh : Uuid → Work → Type 0
IsFresh id w = IsUnused id w.db

IsFresh-Stable : (id : Uuid) → Stable (IsFresh id)
IsFresh-Stable id = record {
  ids = λ w x h. h;
  state = λ w x h. h;
  dialogs = λ w x h. h;
  messages = λ w x h. h;
  requests = λ w x h. h;
  attempts = λ w x h. h;
  control_actions = λ w x h. h;
  events = λ w x h. h;
  approvals = λ w x h. h;
  input_requests = λ w x h. h;
}

abbrev pub accepted_row : Envelope → Receipt → CommandRow
accepted_row e r = record {
  command_id = e.command_id;
  canonical = e.body;
  payload_hash = e.digest;
  receipt = r;
}

-- The one outcome of the command is this receipt.
abbrev pub IsAccepted : Envelope → Receipt → Db → Type 0
IsAccepted e r db =
    (command_row e.command_id db ≡ some (accepted_row e r)) × (rejection_row e.command_id db ≡ none)

insert_command-stores :
    (e : Envelope) (r : Receipt)
    → Leads (IsFresh e.command_id) (λ w. IsAccepted e r w.db) (insert_command (accepted_row e r))
unfolding insert_command
insert_command-stores e r = record {
  at = λ w h.
      let row = accepted_row e r in
      unless-keeps (λ v. IsAccepted e r v.db) (any (command_clash row) w.db.commands)
        (record w { db = record w.db { commands = w.db.commands ++ row ∷ [] } })
        (
          find?-append_new (λ (x : CommandRow). x.command_id) e.command_id w.db.commands row h.0
              refl,
          h.1,
        );
}

save_state-keeps :
    (e : Envelope) (r : Receipt)
    → Leads (λ w. IsAccepted e r w.db) (λ w. IsAccepted e r w.db) save_state
unfolding save_state
save_state-keeps e r = record { at = λ w h. h }

pub record_action-keeps :
    {P : Work → Type 0} (stable : Stable P) (id : Uuid) (a : Option PostCommit)
    → Leads P P (record_action id a)
unfolding record_action
record_action-keeps stable id none = record { at = λ w h. h }
record_action-keeps stable id (some a) = insert_action-keeps stable (pending_action id a)

accept-stores :
    (e : Envelope) → Returns (IsFresh e.command_id) (λ r w. IsAccepted e r w.db) (accept e)
unfolding accept
accept-stores e =
    let stable = IsFresh-Stable e.command_id in
    Returns-then _ _ (apply_command-keeps stable e e.body) λ a.
      Returns-then _ _ (new_id-keeps stable) λ id. Returns-then _ _ (Leads-gets _) λ s.
        Returns-then _ _ (Leads-gets _) λ now. Returns-then _ _ (Leads-gets _) λ valid.
          Returns-then _ _ (Leads-guard _ _) λ _.
            Returns-then _ _ (record_action-keeps stable e.command_id a.action) λ _.
              Returns-then _ _ (insert_command-stores e _)
                λ _. Returns-then _ _ (save_state-keeps e _) (λ _. Returns-pure _ (λ w h. h))

pub check_storage-keeps :
    {P : Work → Type 0} (stable : Stable P) (h : Host) (admission : Bool)
    → Leads P P (check_storage h admission)
unfolding check_storage
check_storage-keeps {P} stable h true = record {
  at = λ w p.
      (Leads-guard {P = P} (not (below_floor h.probe)) (refused 503 Code.not_durable)).at w p;
}
check_storage-keeps {P} stable h false = record {
  at = λ w p. elim (Bool-cases h.reserve_released) [
    | inl e ↦ rw e (noted (below_floor h.probe || below_floor h.physical) w p)
    | inr e ↦ rw e tt
  ];
}
  where
    noted :
        (low : Bool) (w : Work)
        → P w
        → P (if low then record w { state = block_storage w.state } else w)
    noted true w p = stable.state w (block_storage w.state) p
    noted false w p = p

abbrev pub rejected_row : Envelope → Hold → RejectionReceipt → CommandRejection
rejected_row e h r = record {
  command_id = e.command_id;
  canonical = e.body;
  payload_hash = e.digest;
  receipt = r;
  hold_operation_id = h.operation_id;
}

-- The one outcome of the command is this rejection.
abbrev pub IsRejected : Envelope → Hold → RejectionReceipt → Db → Type 0
IsRejected e h r db =
    (command_row e.command_id db ≡ none)
    × (rejection_row e.command_id db ≡ some (rejected_row e h r))

insert_rejection-stores :
    (e : Envelope) (h : Hold) (r : RejectionReceipt)
    → Leads
        (IsFresh e.command_id)
        (λ w. IsRejected e h r w.db)
        (insert_rejection (rejected_row e h r))
unfolding insert_rejection
insert_rejection-stores e h r = record {
  at = λ w p.
      let row = rejected_row e h r in
      unless-keeps (λ v. IsRejected e h r v.db) (any (rejection_clash row) w.db.command_rejections)
        (record w { db = record w.db { command_rejections = w.db.command_rejections ++ row ∷ [] } })
        (
          p.0,
          find?-append_new (λ (x : CommandRejection). x.command_id) e.command_id
              w.db.command_rejections row p.1 refl,
        );
}

reject_held-stores :
    (e : Envelope) (h : Hold)
    → Returns (IsFresh e.command_id) (λ r w. IsRejected e h r w.db) (reject_held e h)
unfolding reject_held
reject_held-stores e h =
    let stable = IsFresh-Stable e.command_id in
    Returns-then _ _ (new_id-keeps stable) λ id. Returns-then _ _ (Leads-gets _) λ now.
      Returns-then _ _ (Leads-gets _) λ valid.
        Returns-then _ _ (Leads-guard _ _)
          λ _. Returns-then _ _ (insert_rejection-stores e h _) (λ _. Returns-pure _ (λ w p. p))

-- What the ledger holds after each verdict of the transaction
abbrev pub Stores : Envelope → Verdict → Work → Type 0
Stores e (replayed o) w = Unit {0}
Stores e (admitted r) w = IsAccepted e r w.db
Stores e (held r) w = (h : Hold) × IsRejected e h r w.db

admit-Stores :
    (h : Host) (e : Envelope) (o : Option Hold)
    → Returns (IsFresh e.command_id) (Stores e) (admit h e o)
admit-Stores h e none =
    Returns-then _ _
      (check_storage-keeps (IsFresh-Stable e.command_id) h (is_admission (kind_of e.body)))
      λ _. Returns-bind _ _ (accept-stores e) (λ r. Returns-pure (admitted r) (λ w p. p))
admit-Stores h e (some hold) = Returns-then _ _ (Leads-guard _ _) λ _.
    Returns-bind _ _ (reject_held-stores e hold) (λ r. Returns-pure (held r) (λ w p. (hold, p)))

-- What loadCommandOutcome says of the ledger
abbrev pub Found : Uuid → Option Stored → Work → Type 0
Found id none w = IsFresh id w
Found id (some o) w = Unit {0}

one_outcome-Found :
    (id : Uuid) (w : Work) (a : Option CommandRow) (r : Option CommandRejection)
    → command_row id w.db ≡ a
    → rejection_row id w.db ≡ r
    → Ends (Found id) (one_outcome a r w)
unfolding ◌>>=◌
one_outcome-Found id w none none p q = (p, q)
one_outcome-Found id w (some a) none p q = tt
one_outcome-Found id w none (some r) p q = tt
one_outcome-Found id w (some a) (some r) p q = tt

pub load_outcome-Found : {P : Work → Type 0} (id : Uuid) → Returns P (Found id) (load_outcome id)
unfolding load_outcome
load_outcome-Found id = record { at = λ w h. one_outcome-Found id w _ _ refl refl }

decide-Stores :
    (h : Host) (e : Envelope) (o : Option Stored)
    → Returns (Found e.command_id o) (Stores e) (decide h e o)
decide-Stores h e (some o) = Returns-then _ _ (Leads-guard _ _) λ _.
    Returns-then _ _ (Leads-gets _)
      λ db. Returns-then _ _ (Leads-guard _ _) (λ _. Returns-pure (replayed o) (λ w p. tt))
decide-Stores h e none =
    Returns-then _ _ (authorize_object-keeps e)
      λ _. Returns-then _ _ (covering_hold-keeps e.body) (λ o. admit-Stores h e o)

abbrev pub Any : Work → Type 0
Any w = Unit {0}

pub load_state-Any : Leads Any Any load_state
unfolding load_state
load_state-Any = record { at = λ w h. tt }

pub command_tx-Stores :
    (t : Trust) (h : Host) (e : Envelope) → Returns Any (Stores e) (command_tx t h e)
unfolding command_tx
command_tx-Stores t h e = Returns-then _ _ load_state-Any λ s. Returns-then _ _ (Leads-gets _) λ c.
    Returns-then _ _ (Leads-guard _ _)
      λ _. Returns-bind _ _ (load_outcome-Found e.command_id) (λ o. decide-Stores h e o)
