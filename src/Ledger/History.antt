-- ===== src/Ledger/History.antt =====
-- The event history has no gap: its rows are numbered from one on, for this node and this epoch.
use harness_codex.Prelude.{
  ℕ, suc, ◌+◌, ◌≡◌, refl, Bool, true, false, Option, List, [], ◌∷◌, ◌++◌, if◌then◌else◌, any, arith,
}
use harness_codex.Ledger.Types.{
  Uuid, DurableState, Dialog, Message, Request, Attempt, ControlAction, Approval, InputRequest,
}
use harness_codex.Ledger.Db.{Db, Event, Payload}
use harness_codex.Ledger.Tx.{Work, internal, err, ok, take_id, new_id, modify_state, save_state}
use harness_codex.Ledger.Statements.{
  insert_dialog, insert_message, insert_request, attempt_clash, insert_attempt, insert_action,
  update_dialog, update_message, update_request, update_attempt, update_approval, update_input,
}
use harness_codex.Ledger.Events.{
  new_event, event_clash, append_event, append_node_event, append_queue_event,
}
use harness_codex.Ledger.Leads.{Ends, Leads}

-- The rows after number `n` are n + 1, …, last.
abbrev pub Numbered : Uuid → ℕ → ℕ → List Event → ℕ → Type 0
Numbered node epoch n [] last = n ≡ last
Numbered node epoch n (e ∷ es) last =
    (e.seq ≡ suc n) × (e.node_id ≡ node) × (e.epoch ≡ epoch) × Numbered node epoch (suc n) es last

abbrev pub IsContiguous : DurableState → List Event → Type 0
IsContiguous s es = Numbered s.node_id s.epoch 0 es s.last_event_seq

-- The durable history of a ledger
abbrev pub History : Db → Type 0
History db = IsContiguous db.node_state db.events

-- The history that a running transaction has built
abbrev pub Open : Work → Type 0
Open w = IsContiguous w.state w.db.events

abbrev pub Saved : Work → Type 0
Saved w = History w.db

Numbered-append :
    (node : Uuid) (epoch n : ℕ) (es : List Event) (last : ℕ) (e : Event)
    → Numbered node epoch n es last
    → e.seq ≡ last + 1
    → e.node_id ≡ node
    → e.epoch ≡ epoch
    → Numbered node epoch n (es ++ e ∷ []) (last + 1)
Numbered-append node epoch n [] last e h s k p = (omega arith, k, p, omega arith)
Numbered-append node epoch n (x ∷ es) last e h s k p =
    (h.0, h.1, h.2, Numbered-append node epoch (suc n) es last e h.3 s k p)

push-Ends :
    (valid clash : Bool) (e : Event) (w : Work)
    → IsContiguous
        (record w.state { last_event_seq = w.state.last_event_seq + 1 })
        (w.db.events ++ e ∷ [])
    → Ends {A = Unit {0}}
        (λ _ v. Open v)
        (if valid
          then (if clash
              then err internal
              else ok (
                tt,
                record w {
                  db = record w.db { events = w.db.events ++ e ∷ [] };
                  state = record w.state { last_event_seq = w.state.last_event_seq + 1 };
                },
              ))
          else err internal)
push-Ends true true e w h = tt
push-Ends true false e w h = h
push-Ends false clash e w h = tt

pub append_event-Open :
    (entity : Uuid) (version : ℕ) (attempt dialog : Option Uuid) (payload : Payload) (late : Bool)
    → Leads Open Open (append_event entity version attempt dialog payload late)
unfolding append_event
append_event-Open entity version attempt dialog payload late = record {
  at = λ w h.
      let e = new_event entity version attempt dialog payload late w in
      push-Ends (w.config.validates e) (any (event_clash e) w.db.events) e w (
        Numbered-append w.state.node_id w.state.epoch 0 w.db.events w.state.last_event_seq e h refl
          refl refl);
}

pub append_node_event-Open : Leads Open Open append_node_event
unfolding append_node_event
append_node_event-Open = record { at = λ w h. (append_event-Open _ _ _ _ _ _).at w h }

pub append_queue_event-Open : Leads Open Open append_queue_event
unfolding append_queue_event
append_queue_event-Open = record { at = λ w h. (append_event-Open _ _ _ _ _ _).at w h }

pub new_id-Open : Leads Open Open new_id
unfolding new_id
new_id-Open = record { at = λ w h. taken w.ids w h }
  where
    taken : (ids : List Uuid) (w : Work) → Open w → Ends (λ _ v. Open v) (take_id ids w)
    taken [] w h = tt
    taken (i ∷ rest) w h = h

pub unless-Ends :
    (clash : Bool) (v : Work)
    → Open v
    → Ends {A = Unit {0}} (λ _ u. Open u) (if clash then err internal else ok (tt, v))
unless-Ends true v h = tt
unless-Ends false v h = h

pub when-Ends :
    (fits : Bool) (v : Work)
    → Open v
    → Ends {A = Unit {0}} (λ _ u. Open u) (if fits then ok (tt, v) else err internal)
when-Ends true v h = h
when-Ends false v h = tt

pub modify_state-Open :
    (f : DurableState → DurableState)
    → ((s : DurableState) (es : List Event) → IsContiguous s es → IsContiguous (f s) es)
    → Leads Open Open (modify_state f)
unfolding modify_state
modify_state-Open f keeps = record { at = λ w h. keeps w.state w.db.events h }

pub insert_dialog-Open : (d : Dialog) → Leads Open Open (insert_dialog d)
unfolding insert_dialog
insert_dialog-Open d = record { at = λ w h. unless-Ends _ _ h }

pub insert_message-Open : (m : Message) → Leads Open Open (insert_message m)
unfolding insert_message
insert_message-Open m = record { at = λ w h. unless-Ends _ _ h }

pub insert_request-Open : (r : Request) → Leads Open Open (insert_request r)
unfolding insert_request
insert_request-Open r = record { at = λ w h. unless-Ends _ _ h }

pub insert_action-Open : (c : ControlAction) → Leads Open Open (insert_action c)
unfolding insert_action
insert_action-Open c = record { at = λ w h. unless-Ends _ _ h }

pub insert_attempt-Open : (a : Attempt) → Leads Open Open (insert_attempt a)
unfolding insert_attempt
insert_attempt-Open a = record { at = λ w h. fits (any (attempt_clash a) w.db.attempts) _ _ h }
  where
    fits :
        (clash one : Bool) (v : Work)
        → Open v
        → Ends {A = Unit {0}}
            (λ _ u. Open u)
            (if clash then err internal else if one then ok (tt, v) else err internal)
    fits true one v h = tt
    fits false one v h = when-Ends one v h

pub update_attempt-Open :
    (id : Uuid) (f : Attempt → Attempt) → Leads Open Open (update_attempt id f)
unfolding update_attempt
update_attempt-Open id f = record { at = λ w h. when-Ends _ _ h }

pub update_dialog-Open : (id : Uuid) (f : Dialog → Dialog) → Leads Open Open (update_dialog id f)
unfolding update_dialog
update_dialog-Open id f = record { at = λ w h. h }

pub update_message-Open :
    (id : Uuid) (f : Message → Message) → Leads Open Open (update_message id f)
unfolding update_message
update_message-Open id f = record { at = λ w h. h }

pub update_request-Open :
    (id : Uuid) (f : Request → Request) → Leads Open Open (update_request id f)
unfolding update_request
update_request-Open id f = record { at = λ w h. h }

pub update_approval-Open :
    (id : Uuid) (f : Approval → Approval) → Leads Open Open (update_approval id f)
unfolding update_approval
update_approval-Open id f = record { at = λ w h. h }

pub update_input-Open :
    (id : Uuid) (f : InputRequest → InputRequest) → Leads Open Open (update_input id f)
unfolding update_input
update_input-Open id f = record { at = λ w h. h }

-- saveState makes the transaction's history durable.
pub save_state-Saved : Leads Open Saved save_state
unfolding save_state
save_state-Saved = record { at = λ w h. h }

pub ruleset history_rules = (
  append_event-Open, append_node_event-Open, append_queue_event-Open, new_id-Open,
  modify_state-Open, insert_dialog-Open, insert_message-Open, insert_request-Open,
  insert_attempt-Open, insert_action-Open, update_dialog-Open, update_message-Open,
  update_request-Open, update_attempt-Open, update_approval-Open, update_input-Open,
)
