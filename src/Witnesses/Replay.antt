-- ===== src/Witnesses/Replay.antt =====
-- The theorems on the event stream and on spent commands at a small ledger.
use harness_codex.Prelude.{
  ℕ, ◌≡◌, ◌≤◌, refl, false, some, none, [], ◌∷◌, inl, inr, IsRow, any, arith,
}
use harness_codex.Ledger.Db.{Db, Event, queue_changed}
use harness_codex.Ledger.History.{History}
use harness_codex.Commands.Submit.{submit_command}
use harness_codex.Dispatch.Next.{dispatch_next}
use harness_codex.Node.Steps.{here, next, dispatch}
use harness_codex.Commands.Lookup.{Stored}
use harness_codex.Commands.Repeat.{Delivers}
use harness_codex.Commands.Acknowledged.{receipt_of, repeat_reply, IsRefused}
use harness_codex.Node.Receipts.{submit_command_spent}
use harness_codex.Node.Replies.{submit_command_acknowledged, submit_command_reserved}
use harness_codex.Replay.Pages.{Reader, replay_events, stream_events, belongs_to_deleted}
use harness_codex.Replay.Bounds.{Given, IsPage, replay_events-IsPage}
use harness_codex.Replay.Numbers.{Consecutive, stream_events-Consecutive}
use harness_codex.Replay.Slices.{drop}
use harness_codex.Replay.Progress.{replicate, Shown, stream_events-whole}
use harness_codex.Samples.{config, trust, host, ledger, idle_state, gate, enqueue, other_enqueue}
use harness_codex.Witnesses.{enqueue_commits}

abbrev queue_event : ℕ → Event
queue_event n = record {
  node_id = 1;
  seq = n;
  epoch = 1;
  entity_id = 1;
  entity_version = n;
  attempt_id = none;
  dialog_id = none;
  payload = queue_changed n 0 none false;
  late = false;
  projection_key = none;
  observed_at = 900;
}

-- A ledger with two events
abbrev told_ledger : Db
told_ledger = record ledger {
  node_state = record idle_state { last_event_seq = 2 };
  events = queue_event 1 ∷ queue_event 2 ∷ [];
}

abbrev reader : Reader
reader = record { deleted = λ d. false; size = λ e. 100 }

told_History : History told_ledger
told_History = (refl, refl, refl, (refl, refl, refl, refl))

told-Shown : (e : Event) → IsRow e told_ledger.events → Shown config reader told_ledger e
unfolding belongs_to_deleted
told-Shown e (inl p) = rw p (refl, refl, omega arith)
told-Shown e (inr (inl p)) = rw p (refl, refl, omega arith)
told-Shown e (inr (inr p)) = absurd p

stream_events-whole_example :
    stream_events config reader trust 0 (replicate 2 told_ledger) ≡ drop 0 told_ledger.events
stream_events-whole_example =
    stream_events-whole config reader trust told_ledger refl told_History told-Shown 2 0
      (omega arith) (omega arith)

stream_events-Consecutive_example :
    Consecutive 0 (stream_events config reader trust 0 (ledger ∷ told_ledger ∷ []))
stream_events-Consecutive_example =
    stream_events-Consecutive config reader trust 0 (ledger ∷ told_ledger ∷ [])

replay_events-IsPage_example :
    Given
      (λ p.
        IsPage reader 0 1 told_ledger p.events
        × (any (belongs_to_deleted reader.deleted told_ledger.messages) p.events ≡ false)
        × (p.last_event_seq ≡ told_ledger.node_state.last_event_seq)
        × (0 ≤ p.last_event_seq))
      (replay_events config reader trust 0 1 told_ledger)
replay_events-IsPage_example = replay_events-IsPage config reader trust 0 1 told_ledger

submit_command_spent_example :
    let after = (submit_command config trust (some enqueue) host ledger).1 in
    let later = (dispatch_next config gate after after).1 in
    (submit_command config trust (some other_enqueue) host later).1 ≡ later
submit_command_spent_example =
    submit_command_spent config config trust trust enqueue other_enqueue host host ledger _
      enqueue_commits
      (next here
        (dispatch config gate _ (submit_command config trust (some enqueue) host ledger).1))
      refl

submit_command_acknowledged_example :
    let first = submit_command config trust (some enqueue) host ledger in
    let later = (dispatch_next config gate first.1 first.1).1 in
    (o : Stored) × Delivers (receipt_of o) first.0
    × (submit_command config trust (some enqueue) host later
        ≡ (repeat_reply config trust o later, later))
submit_command_acknowledged_example =
    submit_command_acknowledged config config trust trust enqueue host host ledger _ enqueue_commits
      (next here
        (dispatch config gate _ (submit_command config trust (some enqueue) host ledger).1))
      refl refl

submit_command_reserved_example :
    let after = (submit_command config trust (some enqueue) host ledger).1 in
    let later = (dispatch_next config gate after after).1 in
    IsRefused later (submit_command config trust (some other_enqueue) host later)
submit_command_reserved_example =
    submit_command_reserved config config trust trust enqueue other_enqueue host host ledger _
      enqueue_commits
      (next here
        (dispatch config gate _ (submit_command config trust (some enqueue) host ledger).1))
      refl (λ p. omega (arith, p))
