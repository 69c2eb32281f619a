-- ===== src/Attempts/Recovery.antt =====
-- What a restart leaves.
use harness_codex.Prelude.{
  ℕ, ◌+◌, ◌≡◌, refl, Bool, true, false, Option, none, some, List, [], ◌∷◌, ◌++◌, any, count_if,
  if◌then◌else◌, Bool-cases, inl, inr, arith,
}
use harness_codex.Ledger.Types.{Uuid, EffectStatus, DurableState, Request, Attempt, ControlAction}
use harness_codex.Ledger.Db.{Db, Payload, UnknownReason}
use harness_codex.Ledger.Tx.{Config, Work, modify_state, load_state, save_state}
use harness_codex.Ledger.Statements.{update_attempt, update_request}
use harness_codex.Ledger.Events.{new_event, event_clash, append_event, append_node_event}
use harness_codex.Ledger.Leads.{
  Ends, Leads, Always, Leads-Always, Leads-pure, Leads-bind, Leads-then, leads_rules,
}
use harness_codex.Ledger.Frame.{push-keeps, when-keeps}
use harness_codex.Dispatch.Next.{begin}
use harness_codex.Attempts.Projection.{update_where}
use harness_codex.Attempts.Unknown.{
  AttemptRef, lose, set_attempt_unknown, interrupted, lose_action, lose_actions, recover_known,
  recover_slot, recover_startup,
}

-- No control action waits for the adapter.
abbrev pub IsSettled : List ControlAction → Type 0
IsSettled actions = count_if interrupted actions ≡ 0

abbrev Quiet : Work → Type 0
Quiet w = IsSettled w.db.control_actions

lost-IsSettled :
    (c : ControlAction) → interrupted (if interrupted c then lose_action c else c) ≡ false
lost-IsSettled c = elim (Bool-cases (interrupted c)) [ inl e ↦ ground arith | inr e ↦ ground arith ]

lose-IsSettled : (xs : List ControlAction) → IsSettled (update_where interrupted lose_action xs)
unfolding update_where count_if
lose-IsSettled [] = refl
lose-IsSettled (c ∷ xs) = rw (lost-IsSettled c) (omega (arith, lose-IsSettled xs))

lose_actions-Quiet : Leads Always Quiet lose_actions
unfolding lose_actions
lose_actions-Quiet = record { at = λ w h. lose-IsSettled w.db.control_actions }

append_event-Quiet :
    (entity : Uuid) (version : ℕ) (attempt dialog : Option Uuid) (payload : Payload) (late : Bool)
    → Leads Quiet Quiet (append_event entity version attempt dialog payload late)
unfolding append_event
append_event-Quiet entity version attempt dialog payload late = record {
  at = λ w h.
      let e = new_event entity version attempt dialog payload late w in
      push-keeps Quiet (w.config.validates e) (any (event_clash e) w.db.events)
        (record w {
          db = record w.db { events = w.db.events ++ e ∷ [] };
          state = record w.state { last_event_seq = w.state.last_event_seq + 1 };
        })
        h;
}

append_node_event-Quiet : Leads Quiet Quiet append_node_event
unfolding append_node_event
append_node_event-Quiet = record { at = λ w h. (append_event-Quiet _ _ _ _ _ _).at w h }

update_attempt-Quiet : (id : Uuid) (f : Attempt → Attempt) → Leads Quiet Quiet (update_attempt id f)
unfolding update_attempt
update_attempt-Quiet id f = record { at = λ w h. when-keeps Quiet _ _ h }

update_request-Quiet : (id : Uuid) (f : Request → Request) → Leads Quiet Quiet (update_request id f)
unfolding update_request
update_request-Quiet id f = record { at = λ w h. h }

modify_state-Quiet : (f : DurableState → DurableState) → Leads Quiet Quiet (modify_state f)
unfolding modify_state
modify_state-Quiet f = record { at = λ w h. h }

save_state-Quiet : Leads Quiet Quiet save_state
unfolding save_state
save_state-Quiet = record { at = λ w h. h }

ruleset quiet_rules = (
  leads_rules, append_event-Quiet, append_node_event-Quiet, update_attempt-Quiet,
  update_request-Quiet, modify_state-Quiet, save_state-Quiet,
)

lose-Quiet :
    (ref : AttemptRef) (reason : UnknownReason) (effect : EffectStatus) (a : Attempt) (b : Bool)
    → Leads Quiet Quiet (lose ref reason effect a b)
lose-Quiet ref reason effect a true = Leads-pure tt
lose-Quiet ref reason effect a false = search quiet_rules depth 20

recover_known-Quiet : (a : Attempt) (b : Bool) → Leads Quiet Quiet (recover_known a b)
unfolding set_attempt_unknown
recover_known-Quiet a true = Leads-pure tt
recover_known-Quiet a false = search (quiet_rules, lose-Quiet) depth 20

recover_slot-Quiet : (o : Option Uuid) → Leads Quiet Quiet (recover_slot o)
recover_slot-Quiet none = Leads-pure tt
recover_slot-Quiet (some id) = search (leads_rules, recover_known-Quiet) depth 10

recover_startup-Quiet : Leads Always Quiet recover_startup
unfolding recover_startup
recover_startup-Quiet =
    Leads-then _ _ (Leads-Always load_state)
      λ s. Leads-bind _ _ lose_actions-Quiet (λ _. recover_slot-Quiet _)

-- A restart that succeeds leaves no control action pending or in flight, so no action of the process
-- that stopped is sent to the adapter again.
pub recover_startup-IsSettled :
    (c : Config) (ids : List Uuid) (db : Db)
    → Ends (λ _ w. IsSettled w.db.control_actions) (recover_startup (begin c ids db))
recover_startup-IsSettled c ids db = recover_startup-Quiet.at (begin c ids db) tt
