-- ===== src/Attempts/Late.antt =====
-- Observations of an attempt that no longer has the node's slot.
use harness_codex.Prelude.{
  ℕ, ◌≡◌, refl, Bool, true, false, ◌&&◌, Option, none, some, List, [], ◌∷◌, ◌++◌, ◌+◌, any, ◌==◌,
  find?, arith, Bool-cases, inl, inr,
}
use harness_codex.Ledger.Types.{Uuid, Attempt, LateObservation}
use harness_codex.Ledger.Db.{Db, Payload}
use harness_codex.Ledger.Tx.{
  Config, Work, Result, err, ok, load_state, query, gets, guard, save_state, ◌>>=◌,
}
use harness_codex.Ledger.Events.{append_event, event_clash, new_event}
use harness_codex.Ledger.Leads.{Ends, Leads, Leads-fail, leads_rules}
use harness_codex.Ledger.Frame.{push-keeps}
use harness_codex.Commands.Control.{holds_slot}
use harness_codex.Dispatch.Next.{begin, kept}
use harness_codex.Attempts.Observe.{
  Observation, insert_late, archive_payload, archive_late_observation, observe_attempt, observe,
}
use harness_codex.Commands.Lookup.{dialog_deleted}
use harness_codex.Node.Steps.{run}

-- The two ledgers agree on the work: its requests, attempts, messages and control actions, and which
-- attempt has the slot.
pub record SameWork (db after : Db) : Type 0 where
  pub requests : after.requests ≡ db.requests
  pub attempts : after.attempts ≡ db.attempts
  pub messages : after.messages ≡ db.messages
  pub actions : after.control_actions ≡ db.control_actions
  pub slot : after.node_state.active_attempt_id ≡ db.node_state.active_attempt_id

-- The transaction has not changed the work of `db`.
record Untouched (db : Db) (w : Work) : Type 0 where
  tables : SameWork (record db { node_state = w.db.node_state }) w.db
  active : w.state.active_attempt_id ≡ db.node_state.active_attempt_id

append_event-Untouched :
    (db : Db) (entity : Uuid) (version : ℕ) (attempt dialog : Option Uuid) (payload : Payload)
    (late : Bool)
    → Leads (Untouched db) (Untouched db) (append_event entity version attempt dialog payload late)
unfolding append_event
append_event-Untouched db entity version attempt dialog payload late = record {
  at = λ w h.
      let e = new_event entity version attempt dialog payload late w in
      push-keeps (Untouched db) (w.config.validates e) (any (event_clash e) w.db.events)
        (record w {
          db = record w.db { events = w.db.events ++ e ∷ [] };
          state = record w.state { last_event_seq = w.state.last_event_seq + 1 };
        })
        (record {
          tables = record {
            requests = h.tables.requests;
            attempts = h.tables.attempts;
            messages = h.tables.messages;
            actions = h.tables.actions;
            slot = refl;
          };
          active = h.active;
        });
}

insert_late-Untouched :
    (db : Db) (o : LateObservation) → Leads (Untouched db) (Untouched db) (insert_late o)
unfolding insert_late
insert_late-Untouched db o = record {
  at = λ w h. record {
    tables = record {
      requests = h.tables.requests;
      attempts = h.tables.attempts;
      messages = h.tables.messages;
      actions = h.tables.actions;
      slot = refl;
    };
    active = h.active;
  };
}

abbrev Kept : Db → Work → Type 0
Kept db w = SameWork db w.db

save_state-Kept : (db : Db) → Leads (Untouched db) (Kept db) save_state
unfolding save_state
save_state-Kept db = record {
  at = λ w h. record {
    requests = h.tables.requests;
    attempts = h.tables.attempts;
    messages = h.tables.messages;
    actions = h.tables.actions;
    slot = h.active;
  };
}

archive_payload-Kept :
    (db : Db) (o : Observation) (version : ℕ) (dialog : Uuid) (p : Option Payload)
    → Leads (Untouched db) (Kept db) (archive_payload o version dialog p)
archive_payload-Kept db o version dialog none = Leads-fail _
archive_payload-Kept db o version dialog (some p) =
    search (leads_rules, append_event-Untouched, insert_late-Untouched, save_state-Kept) depth 10

observe_attempt-Kept :
    (db : Db) (o : Observation) (a : Attempt) (b : Bool)
    → b ≡ false
    → Leads (Untouched db) (Kept db) (observe_attempt o a b)
unfolding archive_late_observation
observe_attempt-Kept db o a true e = absurd (ground arith)
observe_attempt-Kept db o a false e = archive_payload-Kept db o a.version a.dialog_id _

same : (db : Db) → SameWork db db
same db = record { requests = refl; attempts = refl; messages = refl; actions = refl; slot = refl }

unread : (c : Config) (ids : List Uuid) (db : Db) → Untouched db (begin c ids db)
unread c ids db = record { tables = same db; active = refl }

observe-Kept :
    (c : Config) (ids : List Uuid) (db : Db) (o : Observation) (a : Attempt)
    → find? (λ (x : Attempt). x.attempt_id) o.attempt_id db.attempts ≡ some a
    → (o.generation == a.generation && holds_slot db.node_state.active_attempt_id o.attempt_id)
      ≡ false
    → Ends (λ _ w. Kept db w) (observe o (begin c ids db))
unfolding observe ◌>>=◌ load_state query gets guard
observe-Kept c ids db o a found late = elim (Bool-cases (dialog_deleted db a.dialog_id)) [
  | inl d ↦ rw (found, d) tt
  | inr d ↦
      rw (found, d) ((observe_attempt-Kept db o a _ late).at (begin c ids db) (unread c ids db))
]

-- An observation of an older generation, or of an attempt that does not have the node's slot, changes
-- no request, no attempt, no message, no control action and not the slot, whatever it reports.
pub observe-SameWork :
    (c : Config) (ids : List Uuid) (commits : Bool) (db : Db) (o : Observation) (a : Attempt)
    → find? (λ (x : Attempt). x.attempt_id) o.attempt_id db.attempts ≡ some a
    → (o.generation == a.generation && holds_slot db.node_state.active_attempt_id o.attempt_id)
      ≡ false
    → SameWork db (run c ids commits (observe o) db)
unfolding run
observe-SameWork c ids commits db o a found late =
    kept-SameWork commits _ (observe-Kept c ids db o a found late)
  where
    kept-SameWork :
        (commits : Bool) (r : Result (Unit {0} × Work))
        → Ends (λ _ w. Kept db w) r
        → SameWork db (kept commits db r)
    kept-SameWork commits (err e) h = same db
    kept-SameWork true (ok (u, w)) h = h
    kept-SameWork false (ok (u, w)) h = same db
