-- ===== src/Ledger/Durable.antt =====
-- Conditions on the ledger that last: no write of a transaction outside the tables of the holds breaks
-- them, where a command or a rejection is only ever added, and under an identifier that has neither.
use harness_codex.Prelude.{◌≡◌, Option, none, find?, List, [], ◌∷◌, ◌++◌}
use harness_codex.Ledger.Types.{
  Uuid, Digest, DurableState, Dialog, Message, Request, Attempt, ControlAction, Approval,
  InputRequest, LateObservation,
}
use harness_codex.Ledger.Db.{Db, Event, CommandRow, CommandRejection}
use harness_codex.Ledger.Tx.{Work, load_state, save_state}
use harness_codex.Ledger.Leads.{Leads, leads_rules}
use harness_codex.Ledger.Frame.{Stable, frame_rules}

abbrev pub command_row : Uuid → Db → Option CommandRow
command_row id db = find? (λ (r : CommandRow). r.command_id) id db.commands

abbrev pub rejection_row : Uuid → Db → Option CommandRejection
rejection_row id db = find? (λ (r : CommandRejection). r.command_id) id db.command_rejections

-- No outcome of this identifier is stored.
abbrev pub IsUnused : Uuid → Db → Type 0
IsUnused id db = (command_row id db ≡ none) × (rejection_row id db ≡ none)

pub record Durable (P : Db → Type 0) : Type 0 where
  pub node_state : (db : Db) (x : DurableState) → P db → P (record db { node_state = x })
  pub dialogs : (db : Db) (x : List Dialog) → P db → P (record db { dialogs = x })
  pub messages : (db : Db) (x : List Message) → P db → P (record db { messages = x })
  pub requests : (db : Db) (x : List Request) → P db → P (record db { requests = x })
  pub attempts : (db : Db) (x : List Attempt) → P db → P (record db { attempts = x })
  pub control_actions :
      (db : Db) (x : List ControlAction) → P db → P (record db { control_actions = x })
  pub events : (db : Db) (x : List Event) → P db → P (record db { events = x })
  pub approvals : (db : Db) (x : List Approval) → P db → P (record db { approvals = x })
  pub input_requests :
      (db : Db) (x : List InputRequest) → P db → P (record db { input_requests = x })
  pub late_observations :
      (db : Db) (x : List LateObservation) → P db → P (record db { late_observations = x })
  pub policy_snapshots : (db : Db) (x : List Digest) → P db → P (record db { policy_snapshots = x })
  pub command :
      (db : Db) (c : CommandRow)
      → IsUnused c.command_id db
      → P db
      → P (record db { commands = db.commands ++ c ∷ [] })
  pub rejection :
      (db : Db) (c : CommandRejection)
      → IsUnused c.command_id db
      → P db
      → P (record db { command_rejections = db.command_rejections ++ c ∷ [] })

-- The condition on the ledger of a running transaction
abbrev pub Kept : (Db → Type 0) → Work → Type 0
Kept P w = P w.db

pub Durable-Stable : {P : Db → Type 0} → Durable P → Stable (Kept P)
Durable-Stable d = record {
  ids = λ w x h. h;
  state = λ w x h. h;
  dialogs = λ w x h. d.dialogs w.db x h;
  messages = λ w x h. d.messages w.db x h;
  requests = λ w x h. d.requests w.db x h;
  attempts = λ w x h. d.attempts w.db x h;
  control_actions = λ w x h. d.control_actions w.db x h;
  events = λ w x h. d.events w.db x h;
  approvals = λ w x h. d.approvals w.db x h;
  input_requests = λ w x h. d.input_requests w.db x h;
}

pub load_state-Kept : (P : Db → Type 0) → Leads (Kept P) (Kept P) load_state
unfolding load_state
load_state-Kept P = record { at = λ w h. h }

pub save_state-Kept : {P : Db → Type 0} → Durable P → Leads (Kept P) (Kept P) save_state
unfolding save_state
save_state-Kept d = record { at = λ w h. d.node_state w.db w.state h }

pub ruleset durable_rules =
    (leads_rules, frame_rules, Durable-Stable, load_state-Kept, save_state-Kept)
