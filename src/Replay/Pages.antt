-- ===== src/Replay/Pages.antt =====
-- ReplayEvents of runtime/replay.go and the event stream of api/server.go.
use harness_codex.Prelude.{
  ℕ, ◌+◌, Bool, true, false, ◌&&◌, ◌||◌, Option, none, some, List, [], ◌∷◌, ◌++◌, ◌==◌,
  if◌then◌else◌, any, ltb, leb, suc, zero,
}
use harness_codex.Ledger.Types.{Uuid, Message}
use harness_codex.Ledger.Db.{
  Db, Event, Payload, message_accepted, message_disposition_changed, dialog_deleted,
}
use harness_codex.Ledger.Tx.{Config, Code}
use harness_codex.Commands.Host.{Trust}
use harness_codex.Commands.Reply.{Reply, refusal}

-- EventReplay
pub record EventReplay : Type 0 where
  pub epoch : ℕ
  pub last_event_seq : ℕ
  pub events : List Event

pub data ReplayResult : Type 0 where
  denied : Reply → ReplayResult
  page : EventReplay → ReplayResult

abbrev pub stale : ReplayResult
stale = denied (refusal 409 Code.stale)

-- harnessprotocol.MaximumWireBytes - 1024
abbrev pub window_bytes : ℕ
window_bytes = 8387584

-- `ORDER BY seq`
unfoldable pub insert_by_seq : Event → List Event → List Event
insert_by_seq e [] = e ∷ []
insert_by_seq e (x ∷ xs) = if ltb e.seq x.seq then e ∷ x ∷ xs else x ∷ insert_by_seq e xs

-- `SELECT … WHERE node_id=? AND seq>? ORDER BY seq`
unfoldable pub rows_after : Uuid → ℕ → List Event → List Event
unfolding insert_by_seq
rows_after node after [] = []
rows_after node after (e ∷ es) =
    let rest = rows_after node after es in
    if e.node_id == node && ltb after e.seq then insert_by_seq e rest else rest

-- `LIMIT ?`
unfoldable pub take : ℕ → List Event → List Event
take zero es = []
take (suc k) [] = []
take (suc k) (e ∷ es) = e ∷ take k es

abbrev pub add_row : Event → Option (List Event) → Option (List Event)
add_row e none = none
add_row e (some es) = some (e ∷ es)

-- The loop over the rows: the next row must carry the next number, and rows are taken while the page
-- has room. `size` is the length of a row's JSON text; `none` is a gap.
unfoldable pub scan_window :
    (Event → Bool) → (Event → ℕ) → Uuid → ℕ → ℕ → ℕ → List Event → Option (List Event)
scan_window validates size node epoch expected total [] = some []
scan_window validates size node epoch expected total (e ∷ es) =
    let rest = scan_window validates size node epoch (expected + 1) (total + size e) es in
    if validates e && e.node_id == node && e.epoch == epoch && e.seq == expected
    then (if ltb window_bytes (total + size e) then some [] else add_row e rest)
    else none

abbrev of_dialog : (Uuid → Bool) → Option Uuid → Bool
of_dialog deleted none = false
of_dialog deleted (some d) = deleted d

-- deletedMessageScopes, for one message
unfoldable pub deleted_message : (Uuid → Bool) → List Message → Uuid → Bool
deleted_message deleted ms id = any (λ (m : Message). m.message_id == id && deleted m.dialog_id) ms

abbrev payload_deleted : (Uuid → Bool) → List Message → Event → Payload → Bool
payload_deleted deleted ms e (message_disposition_changed _ _ _ _) =
    deleted_message deleted ms e.entity_id
payload_deleted deleted ms e (message_accepted d _ _ _) = deleted d
payload_deleted deleted ms e _ = false

-- eventBelongsToDeletedDialog
unfoldable pub belongs_to_deleted : (Uuid → Bool) → List Message → Event → Bool
unfolding deleted_message
belongs_to_deleted deleted ms e = elim e.payload [
  | dialog_deleted _ ↦ false
  | p ↦ of_dialog deleted e.dialog_id || payload_deleted deleted ms e p
]

abbrev pub show_window : (Uuid → Bool) → Db → Option (List Event) → ReplayResult
show_window deleted db none = stale
show_window deleted db (some es) =
    if any (belongs_to_deleted deleted db.messages) es
    then stale
    else page (record {
      epoch = db.node_state.epoch;
      last_event_seq = db.node_state.last_event_seq;
      events = es;
    })

-- What the node keeps beside the ledger: the dialogs whose deletion it has seen, and the length of a
-- row's JSON text
pub record Reader : Type 0 where
  pub deleted : Uuid → Bool
  pub size : Event → ℕ

unfoldable pub window : Config → Reader → ℕ → ℕ → Db → Option (List Event)
unfolding rows_after take scan_window
window c r after limit db =
    scan_window c.validates r.size db.node_state.node_id db.node_state.epoch (after + 1) 0
      (take limit (rows_after db.node_state.node_id after db.events))

-- ReplayEvents
unfoldable pub replay_events : Config → Reader → Trust → ℕ → ℕ → Db → ReplayResult
unfolding window belongs_to_deleted
replay_events c r t after limit db =
    if t.transport_node_id == c.node_id
    then (if ltb 0 limit && leb limit 100
        then (if ltb db.node_state.last_event_seq after
            then stale
            else show_window r.deleted db (window c r after limit db))
        else denied (refusal 400 Code.invalid))
    else denied (refusal 404 Code.not_found)

-- The rows of a batch that are written, the last number, and whether the stream goes on
pub record Written : Type 0 where
  pub events : List Event
  pub last : ℕ
  pub goes_on : Bool

abbrev pub and_then : Event → Written → Written
and_then e w = record w { events = e ∷ w.events }

unfoldable pub write_batch : ℕ → List Event → Written
write_batch last [] = record { events = []; last = last; goes_on = true }
write_batch last (e ∷ es) =
    let rest = write_batch e.seq es in
    if e.seq == last + 1
    then and_then e rest
    else record { events = []; last = last; goes_on = false }

abbrev pub batch_of : ℕ → ReplayResult → Written
batch_of last (denied r) = record { events = []; last = last; goes_on = false }
batch_of last (page p) = write_batch last p.events

-- events, the loop of the stream: one poll for each ledger of the list, and what it writes
unfoldable pub stream_events : Config → Reader → Trust → ℕ → List Db → List Event
unfolding replay_events write_batch
stream_events c r t last [] = []
stream_events c r t last (db ∷ dbs) =
    let w = batch_of last (replay_events c r t last 100 db) in
    let rest = stream_events c r t w.last dbs in if w.goes_on then w.events ++ rest else w.events
