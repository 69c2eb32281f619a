-- ===== src/Dispatch/Queue.antt =====
-- peekDispatch of runtime/dispatch.go: the request that runs next.
use harness_codex.Prelude.{
  ℕ, Bool, true, false, ◌&&◌, ◌||◌, not, Option, none, some, ◌==◌, any, find?, least, if◌then◌else◌,
}
use harness_codex.Ledger.Types.{
  Uuid, is_queued, execution_unknown, DurableState, Message, Request, Scope, Hold,
}
use harness_codex.Ledger.Db.{Db}
use harness_codex.Commands.Reasons.{contains_reason}
use harness_codex.Commands.Lookup.{active_hold}

abbrev covers : Uuid → Scope → Bool
covers d Scope.node = true
covers d (Scope.dialog e) = e == d

-- EXISTS(SELECT 1 FROM administrative_holds …): an active hold of the node or of the dialog
unfoldable pub is_held : Db → Uuid → Uuid → Bool
is_held db node d =
    any (λ (h : Hold). active_hold db node h && covers d h.scope) db.administrative_holds

abbrev is_some : {A : Type 0} → Option A → Bool
is_some none = false
is_some (some _) = true

-- JOIN messages m ON m.message_id=r.input_message_id WHERE r.status='queued' AND NOT EXISTS …
unfoldable pub may_run : Db → Uuid → Request → Bool
unfolding is_held
may_run db node r =
    is_queued r.status
    && is_some (find? (λ (m : Message). m.message_id) r.input_message_id db.messages)
    && not (is_held db node r.dialog_id)

-- ORDER BY r.queue_sequence LIMIT 1
unfoldable pub next_request : Db → Uuid → Option Request
unfolding may_run
next_request db node = least (may_run db node) (λ (r : Request). r.queue_sequence) db.requests

abbrev pub is_zero : ℕ → Bool
is_zero n = n == 0

unfoldable pub is_occupied : DurableState → Bool
is_occupied s = s.queue_paused || is_some s.active_attempt_id || is_zero s.pending_count

-- dispatchCandidate
pub record Candidate : Type 0 where
  pub request : Request
  pub state_version : ℕ

abbrev candidate_of : ℕ → Option Request → Option Candidate
candidate_of version none = none
candidate_of version (some r) = some (record { request = r; state_version = version })

-- peekDispatch
unfoldable pub peek_dispatch : Db → Option Candidate
unfolding next_request is_occupied
peek_dispatch db =
    if is_occupied db.node_state || contains_reason db.node_state.blocked_reasons execution_unknown
    then none
    else candidate_of db.node_state.state_version (next_request db db.node_state.node_id)
