-- ===== src/Attempts/Fence.antt =====
-- An attempt of unknown outcome keeps the node's slot.
use harness_codex.Prelude.{
  ℕ, ◌+◌, ◌≡◌, refl, Bool, true, false, Option, some, List, [], ◌∷◌, ◌++◌, any, arith, Bool-cases,
  inl, inr,
}
use harness_codex.Ledger.Types.{Uuid, EffectStatus, DurableState, Request, Attempt}
use harness_codex.Ledger.Db.{Db, Payload, UnknownReason}
use harness_codex.Ledger.Tx.{
  Config, Work, Result, err, ok, internal, guard, modify_state, load_state, save_state,
}
use harness_codex.Ledger.Statements.{update_attempt, update_request}
use harness_codex.Ledger.Events.{new_event, event_clash, append_event, append_node_event}
use harness_codex.Ledger.Leads.{
  Ends, Leads, Always, Leads-pure, Leads-gets, Returns-of_Leads, Leads-then, leads_rules, Returns,
  Returns-bind, Returns-then,
}
use harness_codex.Ledger.Frame.{push-keeps, when-keeps}
use harness_codex.Commands.Control.{holds_slot}
use harness_codex.Dispatch.Queue.{is_occupied}
use harness_codex.Dispatch.Next.{Gate, begin, dispatch_next}
use harness_codex.Dispatch.Occupied.{SameAttempts, dispatch_next-occupied}
use harness_codex.Attempts.Unknown.{AttemptRef, lose, set_attempt_unknown, mark_unknown_tx}

abbrev Taken : Work → Type 0
Taken w = is_occupied w.state ≡ true

append_event-Taken :
    (entity : Uuid) (version : ℕ) (attempt dialog : Option Uuid) (payload : Payload) (late : Bool)
    → Leads Taken Taken (append_event entity version attempt dialog payload late)
unfolding append_event is_occupied
append_event-Taken entity version attempt dialog payload late = record {
  at = λ w h.
      let e = new_event entity version attempt dialog payload late w in
      push-keeps Taken (w.config.validates e) (any (event_clash e) w.db.events)
        (record w {
          db = record w.db { events = w.db.events ++ e ∷ [] };
          state = record w.state { last_event_seq = w.state.last_event_seq + 1 };
        })
        h;
}

append_node_event-Taken : Leads Taken Taken append_node_event
unfolding append_node_event
append_node_event-Taken = record { at = λ w h. (append_event-Taken _ _ _ _ _ _).at w h }

update_attempt-Taken : (id : Uuid) (f : Attempt → Attempt) → Leads Taken Taken (update_attempt id f)
unfolding update_attempt
update_attempt-Taken id f = record { at = λ w h. when-keeps Taken _ _ h }

update_request-Taken : (id : Uuid) (f : Request → Request) → Leads Taken Taken (update_request id f)
unfolding update_request
update_request-Taken id f = record { at = λ w h. h }

occupied_slot : (s : DurableState) (a : Uuid) → s.active_attempt_id ≡ some a → is_occupied s ≡ true
unfolding is_occupied
occupied_slot s a e = ground arith

modify_state-Taken :
    (f : DurableState → DurableState) (a : Uuid)
    → ((s : DurableState) → (f s).active_attempt_id ≡ some a)
    → Leads Taken Taken (modify_state f)
unfolding modify_state
modify_state-Taken f a e = record { at = λ w h. occupied_slot (f w.state) a (e w.state) }

lose-Taken :
    (ref : AttemptRef) (reason : UnknownReason) (effect : EffectStatus) (a : Attempt) (b : Bool)
    → Leads Taken Taken (lose ref reason effect a b)
lose-Taken ref reason effect a true = Leads-pure tt
lose-Taken ref reason effect a false = Leads-then _ _ (update_attempt-Taken _ _) λ _.
    Leads-then _ _ (Leads-gets _) λ now. Leads-then _ _ (update_request-Taken _ _) λ _.
      Leads-then _ _ (modify_state-Taken _ ref.attempt_id (λ s. refl))
        λ _. Leads-then _ _ (append_event-Taken _ _ _ _ _ _) (λ _. append_node_event-Taken)

set_attempt_unknown-Taken :
    (ref : AttemptRef) (reason : UnknownReason) (effect : EffectStatus)
    → Leads Taken Taken (set_attempt_unknown ref reason effect)
unfolding set_attempt_unknown
set_attempt_unknown-Taken ref reason effect = search (leads_rules, lose-Taken) depth 10

abbrev TakenSaved : Work → Type 0
TakenSaved w = is_occupied w.db.node_state ≡ true

save_state-TakenSaved : Leads Taken TakenSaved save_state
unfolding save_state
save_state-TakenSaved = record { at = λ w h. h }

holds_slot-occupied :
    (s : DurableState) (id : Uuid) → holds_slot s.active_attempt_id id ≡ true → is_occupied s ≡ true
unfolding holds_slot is_occupied
holds_slot-occupied s id e = ground arith

-- The loaded state is the one that loadState returned.
abbrev IsLoaded : DurableState → Work → Type 0
IsLoaded s w = w.state ≡ s

load_state-IsLoaded : Returns Always IsLoaded load_state
unfolding load_state
load_state-IsLoaded = record { at = λ w h. refl }

guard-Taken :
    (s : DurableState) (id : Uuid)
    → Leads (IsLoaded s) Taken (guard (holds_slot s.active_attempt_id id) internal)
unfolding guard
guard-Taken s id = record {
  at = λ w h. elim (Bool-cases (holds_slot s.active_attempt_id id)) [
    | inl e ↦ rw (e, h) (holds_slot-occupied s id e)
    | inr e ↦ rw e tt
  ];
}

mark_unknown_tx-TakenSaved :
    (ref : AttemptRef) (reason : UnknownReason) (effect : EffectStatus)
    → Returns Always (λ _. TakenSaved) (mark_unknown_tx ref reason effect)
unfolding mark_unknown_tx
mark_unknown_tx-TakenSaved ref reason effect = Returns-bind _ _ load_state-IsLoaded λ s.
    Returns-then _ _ (guard-Taken s ref.attempt_id) λ _.
      Returns-then _ _ (set_attempt_unknown-Taken ref reason effect)
        λ _. Returns-of_Leads _ save_state-TakenSaved

blocked-Ends :
    (c : Config) (g : Gate) (seen : Db) (r : Result (Unit {0} × Work))
    → Ends (λ _. TakenSaved) r
    → Ends (λ _ w. SameAttempts w.db (dispatch_next c g seen w.db).1) r
blocked-Ends c g seen (err e) h = tt
blocked-Ends c g seen (ok (u, w)) h = dispatch_next-occupied c g seen w.db h

-- After a success of markAttemptUnknown, a round of the dispatcher on the ledger that it leaves adds or
-- changes no attempt, request or control action and leaves the node's active attempt, whatever the round
-- saw before, whatever the rest of the node answers and whatever the round reports.
pub mark_unknown_tx-blocks :
    (c d : Config) (g : Gate) (ids : List Uuid) (seen db : Db) (ref : AttemptRef)
    (reason : UnknownReason) (effect : EffectStatus)
    → Ends
        (λ _ w. SameAttempts w.db (dispatch_next d g seen w.db).1)
        (mark_unknown_tx ref reason effect (begin c ids db))
mark_unknown_tx-blocks c d g ids seen db ref reason effect =
    blocked-Ends d g seen _ ((mark_unknown_tx-TakenSaved ref reason effect).at (begin c ids db) tt)
