-- ===== src/Ledger/Frame.antt =====
-- What the handlers' statements leave alone: a condition on the remaining columns and tables (the
-- commands, the rejections, the holds and their outcomes, node_state, the configuration) is kept.
use harness_codex.Prelude.{
  ℕ, ◌+◌, Bool, true, false, Option, List, [], ◌∷◌, ◌++◌, if◌then◌else◌, any, update_at, none,
}
use harness_codex.Ledger.Types.{
  Uuid, DurableState, Dialog, Message, Request, Attempt, ControlAction, Approval, InputRequest,
}
use harness_codex.Ledger.Db.{Event, Payload, node_state_changed, queue_changed}
use harness_codex.Ledger.Tx.{Work, internal, err, ok, new_id, take_id, modify_state}
use harness_codex.Ledger.Statements.{
  dialog_clash, message_clash, request_clash, action_clash, one_active, insert_dialog,
  insert_message, insert_request, attempt_clash, insert_attempt, insert_action, update_dialog,
  update_message, update_request, update_attempt, update_approval, update_input,
}
use harness_codex.Ledger.Events.{
  node_payload, new_event, event_clash, append_event, append_node_event, append_queue_event,
}
use harness_codex.Ledger.Put
use harness_codex.Ledger.Leads.{Ends, Leads}

-- `P` survives any change of the working state and of the tables that the handlers write.
pub record Stable (P : Work → Type 0) : Type 0 where
  pub ids : (w : Work) (x : List Uuid) → P w → P (record w { ids = x })
  pub state : (w : Work) (x : DurableState) → P w → P (record w { state = x })
  pub dialogs : (w : Work) (x : List Dialog) → P w → P (Put.dialogs w x)
  pub messages : (w : Work) (x : List Message) → P w → P (Put.messages w x)
  pub requests : (w : Work) (x : List Request) → P w → P (Put.requests w x)
  pub attempts : (w : Work) (x : List Attempt) → P w → P (Put.attempts w x)
  pub control_actions : (w : Work) (x : List ControlAction) → P w → P (Put.control_actions w x)
  pub events : (w : Work) (x : List Event) → P w → P (Put.events w x)
  pub approvals : (w : Work) (x : List Approval) → P w → P (Put.approvals w x)
  pub input_requests : (w : Work) (x : List InputRequest) → P w → P (Put.input_requests w x)

module _ (P : Work → Type 0) where
  pub unless-keeps :
      (clash : Bool) (v : Work)
      → P v
      → Ends {A = Unit {0}} (λ _ u. P u) (if clash then err internal else ok (tt, v))
  unless-keeps true v h = tt
  unless-keeps false v h = h

  pub when-keeps :
      (fits : Bool) (v : Work)
      → P v
      → Ends {A = Unit {0}} (λ _ u. P u) (if fits then ok (tt, v) else err internal)
  when-keeps true v h = h
  when-keeps false v h = tt

  fits-keeps :
      (clash one : Bool) (v : Work)
      → P v
      → Ends {A = Unit {0}}
          (λ _ u. P u)
          (if clash then err internal else if one then ok (tt, v) else err internal)
  fits-keeps true one v h = tt
  fits-keeps false one v h = when-keeps one v h

  taken-keeps :
      (stable : Stable P) (ids : List Uuid) (w : Work) → P w → Ends (λ _ v. P v) (take_id ids w)
  taken-keeps stable [] w h = tt
  taken-keeps stable (i ∷ rest) w h = stable.ids w rest h

  pub push-keeps :
      (valid clash : Bool) (v : Work)
      → P v
      → Ends {A = Unit {0}}
          (λ _ u. P u)
          (if valid then (if clash then err internal else ok (tt, v)) else err internal)
  push-keeps true clash v h = unless-keeps clash v h
  push-keeps false clash v h = tt

module _ {P : Work → Type 0} (stable : Stable P) where
  pub new_id-keeps : Leads P P new_id
  unfolding new_id
  new_id-keeps = record { at = λ w h. taken-keeps P stable w.ids w h }

  pub modify_state-keeps : (f : DurableState → DurableState) → Leads P P (modify_state f)
  unfolding modify_state
  modify_state-keeps f = record { at = λ w h. stable.state w (f w.state) h }

  pub append_event-keeps :
      (entity : Uuid) (version : ℕ) (attempt dialog : Option Uuid) (payload : Payload) (late : Bool)
      → Leads P P (append_event entity version attempt dialog payload late)
  unfolding append_event
  append_event-keeps entity version attempt dialog payload late = record {
    at = λ w h.
        let e = new_event entity version attempt dialog payload late w in
        let s = record w.state { last_event_seq = w.state.last_event_seq + 1 } in
        let v = Put.events w (w.db.events ++ e ∷ []) in
        push-keeps P (w.config.validates e) (any (event_clash e) w.db.events)
          (record v { state = s }) (stable.state v s (stable.events w (w.db.events ++ e ∷ []) h));
  }

  pub append_node_event-keeps : Leads P P append_node_event
  unfolding append_node_event
  append_node_event-keeps = record {
    at = λ w h.
        (append_event-keeps w.state.node_id w.state.state_version none none
            (node_state_changed (node_payload w.state)) false).at
          w h;
  }

  pub append_queue_event-keeps : Leads P P append_queue_event
  unfolding append_queue_event
  append_queue_event-keeps = record {
    at = λ w h.
        (append_event-keeps w.state.node_id w.state.queue_version none none
            (queue_changed w.state.queue_version w.state.pending_count w.state.active_attempt_id
              w.state.queue_paused)
            false).at
          w h;
  }

  pub insert_dialog-keeps : (d : Dialog) → Leads P P (insert_dialog d)
  unfolding insert_dialog
  insert_dialog-keeps d = record {
    at = λ w h.
        let rows = w.db.dialogs ++ d ∷ [] in
        unless-keeps P (any (dialog_clash d) w.db.dialogs) (Put.dialogs w rows)
          (stable.dialogs w rows h);
  }

  pub insert_message-keeps : (m : Message) → Leads P P (insert_message m)
  unfolding insert_message
  insert_message-keeps m = record {
    at = λ w h.
        let rows = w.db.messages ++ m ∷ [] in
        unless-keeps P (any (message_clash m) w.db.messages) (Put.messages w rows)
          (stable.messages w rows h);
  }

  pub insert_request-keeps : (r : Request) → Leads P P (insert_request r)
  unfolding insert_request
  insert_request-keeps r = record {
    at = λ w h.
        let rows = w.db.requests ++ r ∷ [] in
        unless-keeps P (any (request_clash r) w.db.requests) (Put.requests w rows)
          (stable.requests w rows h);
  }

  pub insert_action-keeps : (c : ControlAction) → Leads P P (insert_action c)
  unfolding insert_action
  insert_action-keeps c = record {
    at = λ w h.
        let rows = w.db.control_actions ++ c ∷ [] in
        unless-keeps P (any (action_clash c) w.db.control_actions) (Put.control_actions w rows)
          (stable.control_actions w rows h);
  }

  pub insert_attempt-keeps : (a : Attempt) → Leads P P (insert_attempt a)
  unfolding insert_attempt
  insert_attempt-keeps a = record {
    at = λ w h.
        let rows = w.db.attempts ++ a ∷ [] in
        fits-keeps P (any (attempt_clash a) w.db.attempts) (one_active a.node_id rows)
          (Put.attempts w rows) (stable.attempts w rows h);
  }

  pub update_attempt-keeps : (id : Uuid) (f : Attempt → Attempt) → Leads P P (update_attempt id f)
  unfolding update_attempt
  update_attempt-keeps id f = record {
    at = λ w h.
        let rows = update_at (λ (a : Attempt). a.attempt_id) id f w.db.attempts in
        when-keeps P (one_active w.state.node_id rows) (Put.attempts w rows)
          (stable.attempts w rows h);
  }

  pub update_dialog-keeps : (id : Uuid) (f : Dialog → Dialog) → Leads P P (update_dialog id f)
  unfolding update_dialog
  update_dialog-keeps id f = record {
    at = λ w h. stable.dialogs w (update_at (λ (x : Dialog). x.dialog_id) id f w.db.dialogs) h;
  }

  pub update_message-keeps : (id : Uuid) (f : Message → Message) → Leads P P (update_message id f)
  unfolding update_message
  update_message-keeps id f = record {
    at = λ w h. stable.messages w (update_at (λ (x : Message). x.message_id) id f w.db.messages) h;
  }

  pub update_request-keeps : (id : Uuid) (f : Request → Request) → Leads P P (update_request id f)
  unfolding update_request
  update_request-keeps id f = record {
    at = λ w h. stable.requests w (update_at (λ (x : Request). x.request_id) id f w.db.requests) h;
  }

  pub update_approval-keeps :
      (id : Uuid) (f : Approval → Approval) → Leads P P (update_approval id f)
  unfolding update_approval
  update_approval-keeps id f = record {
    at = λ w h.
        stable.approvals w (update_at (λ (x : Approval). x.approval_id) id f w.db.approvals) h;
  }

  pub update_input-keeps :
      (id : Uuid) (f : InputRequest → InputRequest) → Leads P P (update_input id f)
  unfolding update_input
  update_input-keeps id f = record {
    at = λ w h.
        stable.input_requests w
          (update_at (λ (x : InputRequest). x.input_request_id) id f w.db.input_requests) h;
  }

pub ruleset frame_rules = (
  new_id-keeps, modify_state-keeps, append_event-keeps, append_node_event-keeps,
  append_queue_event-keeps, insert_dialog-keeps, insert_message-keeps, insert_request-keeps,
  insert_action-keeps, insert_attempt-keeps, update_attempt-keeps, update_dialog-keeps,
  update_message-keeps, update_request-keeps, update_approval-keeps, update_input-keeps,
)
