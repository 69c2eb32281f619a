-- ===== src/Ledger/Statements.antt =====
-- The INSERT and UPDATE statements of the handlers, with the constraints that runtime/schema.go puts
-- on the tables: a statement that breaks a key or a unique index fails.
use harness_codex.Prelude.{
  Bool, ◌&&◌, ◌||◌, List, [], ◌∷◌, ◌++◌, ◌==◌, leb, if◌then◌else◌, any, count_if, update_at,
}
use harness_codex.Ledger.Types.{
  Uuid, is_active, Dialog, Message, Request, Attempt, ControlAction, Approval, InputRequest,
}
use harness_codex.Ledger.Tx.{internal, err, ok, Tx}

-- INSERT INTO dialogs
unfoldable pub dialog_clash : Dialog → Dialog → Bool
dialog_clash d x = x.dialog_id == d.dialog_id

unfoldable pub insert_dialog : Dialog → Tx (Unit {0})
insert_dialog d w =
    if any (dialog_clash d) w.db.dialogs
    then err internal
    else ok (tt, record w { db = record w.db { dialogs = w.db.dialogs ++ d ∷ [] } })

-- INSERT INTO messages, with UNIQUE(dialog_id,sequence)
unfoldable pub message_clash : Message → Message → Bool
message_clash m x =
    x.message_id == m.message_id || (x.dialog_id == m.dialog_id && x.sequence == m.sequence)

unfoldable pub insert_message : Message → Tx (Unit {0})
insert_message m w =
    if any (message_clash m) w.db.messages
    then err internal
    else ok (tt, record w { db = record w.db { messages = w.db.messages ++ m ∷ [] } })

-- INSERT INTO requests, with queue_sequence UNIQUE
unfoldable pub request_clash : Request → Request → Bool
request_clash r x = x.request_id == r.request_id || x.queue_sequence == r.queue_sequence

unfoldable pub insert_request : Request → Tx (Unit {0})
insert_request r w =
    if any (request_clash r) w.db.requests
    then err internal
    else ok (tt, record w { db = record w.db { requests = w.db.requests ++ r ∷ [] } })

-- The unique index `one_active_attempt` on attempts(node_id).
abbrev pub active_on : Uuid → Attempt → Bool
active_on node a = a.node_id == node && is_active a.state

unfoldable pub one_active : Uuid → List Attempt → Bool
one_active node rows = leb (count_if (active_on node) rows) 1

-- INSERT INTO attempts, with UNIQUE(request_id,generation)
unfoldable pub attempt_clash : Attempt → Attempt → Bool
attempt_clash a x =
    x.attempt_id == a.attempt_id || (x.request_id == a.request_id && x.generation == a.generation)

unfoldable pub insert_attempt : Attempt → Tx (Unit {0})
insert_attempt a w =
    if any (attempt_clash a) w.db.attempts
    then err internal
    else if one_active a.node_id (w.db.attempts ++ a ∷ [])
    then ok (tt, record w { db = record w.db { attempts = w.db.attempts ++ a ∷ [] } })
    else err internal

-- UPDATE attempts … WHERE attempt_id=?
unfoldable pub update_attempt : Uuid → (Attempt → Attempt) → Tx (Unit {0})
update_attempt id f w =
    let rows = update_at (λ (a : Attempt). a.attempt_id) id f w.db.attempts in
    if one_active w.state.node_id rows
    then ok (tt, record w { db = record w.db { attempts = rows } })
    else err internal

-- INSERT INTO control_actions
unfoldable pub action_clash : ControlAction → ControlAction → Bool
action_clash c x = x.command_id == c.command_id

unfoldable pub insert_action : ControlAction → Tx (Unit {0})
insert_action c w =
    if any (action_clash c) w.db.control_actions
    then err internal
    else ok (tt, record w { db = record w.db { control_actions = w.db.control_actions ++ c ∷ [] } })

-- UPDATE dialogs … WHERE dialog_id=?
unfoldable pub update_dialog : Uuid → (Dialog → Dialog) → Tx (Unit {0})
update_dialog id f w = ok (
  tt,
  record w {
    db = record w.db { dialogs = update_at (λ (d : Dialog). d.dialog_id) id f w.db.dialogs };
  },
)

-- UPDATE messages … WHERE message_id=?
unfoldable pub update_message : Uuid → (Message → Message) → Tx (Unit {0})
update_message id f w = ok (
  tt,
  record w {
    db = record w.db { messages = update_at (λ (m : Message). m.message_id) id f w.db.messages };
  },
)

-- UPDATE requests … WHERE request_id=?
unfoldable pub update_request : Uuid → (Request → Request) → Tx (Unit {0})
update_request id f w = ok (
  tt,
  record w {
    db = record w.db { requests = update_at (λ (r : Request). r.request_id) id f w.db.requests };
  },
)

-- UPDATE approvals … WHERE approval_id=?
unfoldable pub update_approval : Uuid → (Approval → Approval) → Tx (Unit {0})
update_approval id f w = ok (
  tt,
  record w {
    db = record w.db {
      approvals = update_at (λ (p : Approval). p.approval_id) id f w.db.approvals;
    };
  },
)

-- UPDATE input_requests … WHERE input_request_id=?
unfoldable pub update_input : Uuid → (InputRequest → InputRequest) → Tx (Unit {0})
update_input id f w = ok (
  tt,
  record w {
    db = record w.db {
      input_requests =
          update_at (λ (i : InputRequest). i.input_request_id) id f w.db.input_requests;
    };
  },
)
