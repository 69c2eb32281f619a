-- ===== src/Commands/Retry.antt =====
-- applyAttemptRetry of runtime/control_handlers.go.
use harness_codex.Prelude.{
  ℕ, ◌+◌, Bool, true, false, ◌&&◌, not, Option, none, List, [], ◌∷◌, ◌==◌, ltb, any, find?,
  if◌then◌else◌,
}
use harness_codex.Ledger.Types.{
  Uuid, AttemptState, EffectStatus, RequestStatus, Role, DurableState, Message, Request, Attempt,
}
use harness_codex.Ledger.Db.{Db}
use harness_codex.Ledger.Wire.{References, admitted}
use harness_codex.Ledger.Tx.{
  Code, CurrentState, outdated, refused, Tx, pure, guard, new_id, gets, modify_state, ◌>>=◌, ◌>>◌,
}
use harness_codex.Ledger.Statements.{insert_request}
use harness_codex.Ledger.Events.{append_node_event, append_queue_event}
use harness_codex.Commands.Envelope.{Applied}
use harness_codex.Commands.Reasons.{blocking_reason}
use harness_codex.Commands.Handlers.{queue_capacity, find_request, queued_request}
use harness_codex.Commands.Control.{find_attempt}

-- state IN('failed','interrupted')
unfoldable pub can_retry : AttemptState → Bool
can_retry AttemptState.failed = true
can_retry AttemptState.interrupted = true
can_retry _ = false

abbrev request_failed : RequestStatus → Bool
request_failed RequestStatus.failed = true
request_failed RequestStatus.interrupted = true
request_failed _ = false

-- status IN('queued','dispatching','active','unknown')
unfoldable pub is_open : RequestStatus → Bool
is_open RequestStatus.queued = true
is_open RequestStatus.dispatching = true
is_open RequestStatus.active = true
is_open RequestStatus.unknown = true
is_open _ = false

unfoldable pub effects_unknown : EffectStatus → Bool
effects_unknown EffectStatus.unknown = true
effects_unknown _ = false

unfoldable pub effects_known : EffectStatus → Bool
effects_known EffectStatus.known = true
effects_known _ = false

abbrev no_effects : EffectStatus → Bool
no_effects EffectStatus.none = true
no_effects _ = false

abbrev max_of : ℕ → ℕ → ℕ
max_of a b = if ltb a b then b else a

-- MAX(queue_sequence) of the requests for an input message
unfoldable pub max_queue_sequence : Uuid → List Request → ℕ
max_queue_sequence m [] = 0
max_queue_sequence m (r ∷ rs) =
    let rest = max_queue_sequence m rs in
    if r.input_message_id == m then max_of r.queue_sequence rest else rest

-- `y.request_id=x.request_id` and `y.input_message_id=m`
abbrev pub answers : Uuid → Uuid → Request → Bool
answers request m r = r.request_id == request && r.input_message_id == m

-- MAX(x.generation) of the attempts at an input message
unfoldable pub max_generation : Uuid → List Request → List Attempt → ℕ
max_generation m rs [] = 0
max_generation m rs (a ∷ xs) =
    let rest = max_generation m rs xs in
    if any (answers a.request_id m) rs then max_of a.generation rest else rest

-- The request and the attempt are the latest ones for the input message.
unfoldable pub is_latest : Db → Uuid → Attempt → Request → Bool
unfolding max_queue_sequence max_generation
is_latest db m a r =
    answers a.request_id m r
    && r.queue_sequence == max_queue_sequence m db.requests
    && a.generation == max_generation m db.requests db.attempts

abbrev settled_tail : Db → Uuid → Attempt → Bool
settled_tail db m a =
    can_retry a.state
    && no_effects a.effect_status
    && any (λ r. request_failed r.status && is_latest db m a r) db.requests

abbrev is_user : Role → Bool
is_user Role.user = true
is_user Role.assistant = false

-- A later original input of the dialog that has not ended without effects
unfoldable pub blocks_retry : Db → Uuid → ℕ → Message → Bool
unfolding is_latest can_retry
blocks_retry db dialog sequence m =
    m.dialog_id == dialog
    && is_user m.role
    && any (λ (r : Request). r.input_message_id == m.message_id) db.requests
    && ltb sequence m.sequence
    && not (any (settled_tail db m.message_id) db.attempts)

abbrev sequence_of : Option Message → Option ℕ
sequence_of none = none
sequence_of (Option.some m) = Option.some m.sequence

-- A comparison with the sequence of a missing message is NULL, which is false.
abbrev tail_blocked : Db → Uuid → Option ℕ → Bool
tail_blocked db dialog none = false
tail_blocked db dialog (Option.some s) = any (blocks_retry db dialog s) db.messages

unfoldable pub retry_eligible : Db → Attempt → Uuid → Bool
unfolding is_latest blocks_retry
retry_eligible db a m =
    any (is_latest db m a) db.requests
    && not (
        tail_blocked db a.dialog_id
          (sequence_of (find? (λ (x : Message). x.message_id) m db.messages)))

abbrev count_retry : DurableState → DurableState
count_retry s = record s {
  next_queue_sequence = s.next_queue_sequence + 1;
  pending_count = s.pending_count + 1;
  queue_version = s.queue_version + 1;
  state_version = s.state_version + 1;
}

abbrev pub still_open : Uuid → Request → Bool
still_open m r = r.input_message_id == m && is_open r.status

-- applyAttemptRetry
unfoldable pub apply_attempt_retry : Uuid → ℕ → Bool → Tx Applied
apply_attempt_retry attempt expected acknowledge = do
  a ← find_attempt attempt
  prior ← find_request a.request_id
  let m = prior.input_message_id
  guard (expected == a.generation) (outdated a.generation (CurrentState.attempt a.state))
  guard (can_retry a.state) (outdated a.generation (CurrentState.attempt a.state))
  guard (not (effects_unknown a.effect_status)) (refused 409 Code.stale)
  guard (not (effects_known a.effect_status && not acknowledge)) (refused 409 Code.stale)
  db ← gets (λ w. w.db)
  guard (retry_eligible db a m) (refused 409 Code.stale)
  s ← gets (λ w. w.state)
  guard (ltb s.pending_count queue_capacity) (refused 429 Code.queue_full)
  guard (not (any (still_open m) db.requests)) (refused 409 Code.stale)
  request ← new_id
  now ← gets (λ w. w.config.now)
  insert_request (queued_request request a.dialog_id m s.next_queue_sequence now)
  modify_state count_retry
  append_queue_event
  append_node_event
  after ← gets (λ w. w.state)
  pure (record {
    references = References.attempt_retry attempt request;
    result = admitted;
    blocking = blocking_reason after;
    action = none;
  })
