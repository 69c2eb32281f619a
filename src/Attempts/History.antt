-- ===== src/Attempts/History.antt =====
-- The transactions on attempts leave no gap in the event history.
use harness_codex.Prelude.{
  ℕ, suc, List, [], ◌∷◌, any, ◌==◌, Bool, true, false, Option, none, some, not, ◌&&◌, Bool-cases,
  inl, inr, count_if,
}
use harness_codex.Ledger.Types.{Uuid, EffectStatus, Decision, LateObservation, Attempt}
use harness_codex.Ledger.Db.{Event, Payload, UnknownReason, ProjectionKey}
use harness_codex.Ledger.Leads.{
  Leads, Leads-pure, Leads-fail, Leads-then, Leads-bind, Leads-weaken, Leads-from, leads_rules,
}
use harness_codex.Ledger.History.{Numbered, Open, Saved, save_state-Saved, history_rules}
use harness_codex.Commands.History.{Loaded, load_state-Loaded}
use harness_codex.Attempts.Projection.{
  update_where, is_unbound, is_projected, bind_key, record_projection,
}
use harness_codex.Attempts.Unknown.{
  AttemptRef, lose, set_attempt_unknown, mark_unknown_tx, lose_actions, recover_known, recover_slot,
  recover_startup,
}
use harness_codex.Attempts.Observe.{
  Observation, ObservationKind, unknown, terminal, unsupported, TerminalState, completed, failed,
  interrupted, apply_terminal, insert_late, archive_payload, archive_late_observation,
  apply_observation, observe_attempt, observe,
}
use harness_codex.Attempts.Actions.{mark_started}
use harness_codex.Attempts.Finish.{
  SteerOutcome, ResponseOutcome, steer_request, lose_on_unknown, finish_steer, resolve_approval,
  end_response, finish_approval, resolve_input, finish_input,
}

Numbered-update :
    (node : Uuid) (epoch n : ℕ) (p : Event → Bool) (k : ProjectionKey) (es : List Event) (last : ℕ)
    → Numbered node epoch n es last
    → Numbered node epoch n (update_where p (bind_key k) es) last
unfolding update_where
Numbered-update node epoch n p k [] last h = h
Numbered-update node epoch n p k (e ∷ es) last h = elim (Bool-cases (p e)) [
  | inl q ↦ rw q (h.0, h.1, h.2, Numbered-update node epoch (suc n) p k es last h.3)
  | inr q ↦ rw q (h.0, h.1, h.2, Numbered-update node epoch (suc n) p k es last h.3)
]

record_projection-Open : (a : Uuid) (k : ProjectionKey) → Leads Open Open (record_projection a k)
unfolding record_projection
record_projection-Open a k = record {
  at = λ w h.
      let here = is_unbound w.state.last_event_seq a in
      elim (Bool-cases
        (count_if here w.db.events == 1 && not (any (is_projected a k) w.db.events))) [
          | inl q ↦ rw q (Numbered-update _ _ 0 here k w.db.events _ h)
          | inr q ↦ rw q tt
        ];
}

lose-Open :
    (ref : AttemptRef) (reason : UnknownReason) (effect : EffectStatus) (a : Attempt) (b : Bool)
    → Leads Open Open (lose ref reason effect a b)
lose-Open ref reason effect a true = search leads_rules depth 5
lose-Open ref reason effect a false = search (leads_rules, history_rules) depth 20

set_attempt_unknown-Open :
    (ref : AttemptRef) (reason : UnknownReason) (effect : EffectStatus)
    → Leads Open Open (set_attempt_unknown ref reason effect)
unfolding set_attempt_unknown
set_attempt_unknown-Open ref reason effect = search (leads_rules, lose-Open) depth 10

ruleset attempt_rules = (
  leads_rules, history_rules, record_projection-Open, set_attempt_unknown-Open, Leads-from,
  save_state-Saved,
)

lose_actions-Loaded : Leads Loaded Loaded lose_actions
unfolding lose_actions
lose_actions-Loaded = record { at = λ w h. h }

pub mark_unknown_tx-Saved :
    (ref : AttemptRef) (reason : UnknownReason) (effect : EffectStatus)
    → Leads Saved Saved (mark_unknown_tx ref reason effect)
unfolding mark_unknown_tx
mark_unknown_tx-Saved ref reason effect =
    Leads-bind _ _ load_state-Loaded
      λ s. Leads-weaken _ (λ w p. p.1) (search attempt_rules depth 20)

recover_known-Saved : (a : Attempt) (b : Bool) → Leads Loaded Saved (recover_known a b)
recover_known-Saved a true = Leads-weaken _ (λ w p. p.0) (Leads-pure tt)
recover_known-Saved a false = Leads-weaken _ (λ w p. p.1) (search attempt_rules depth 20)

recover_slot-Saved : (o : Option Uuid) → Leads Loaded Saved (recover_slot o)
recover_slot-Saved none = Leads-weaken _ (λ w p. p.0) (Leads-pure tt)
recover_slot-Saved (some id) = search (leads_rules, recover_known-Saved) depth 10

pub recover_startup-Saved : Leads Saved Saved recover_startup
unfolding recover_startup
recover_startup-Saved =
    Leads-bind _ _ load_state-Loaded
      λ s. Leads-then _ _ lose_actions-Loaded (λ _. recover_slot-Saved _)

apply_terminal-Open :
    (ref : AttemptRef) (version : ℕ) (t : TerminalState) (effect : EffectStatus)
    → Leads Open Open (apply_terminal ref version t effect)
unfolding apply_terminal
apply_terminal-Open ref version completed effect = search attempt_rules depth 20
apply_terminal-Open ref version failed effect = search attempt_rules depth 20
apply_terminal-Open ref version interrupted effect = search attempt_rules depth 20
apply_terminal-Open ref version unsupported effect = search attempt_rules depth 20

insert_late-Open : (o : LateObservation) → Leads Open Open (insert_late o)
unfolding insert_late
insert_late-Open o = record { at = λ w h. h }

archive_payload-Saved :
    (o : Observation) (version : ℕ) (dialog : Uuid) (p : Option Payload)
    → Leads Open Saved (archive_payload o version dialog p)
archive_payload-Saved o version dialog none = Leads-fail _
archive_payload-Saved o version dialog (some p) = search (attempt_rules, insert_late-Open) depth 20

apply_observation-Open :
    (ref : AttemptRef) (version : ℕ) (effect : EffectStatus) (k : ObservationKind)
    → Leads Open Open (apply_observation ref version effect k)
apply_observation-Open ref version effect (unknown reason) =
    set_attempt_unknown-Open ref reason effect
apply_observation-Open ref version effect (terminal t true) =
    apply_terminal-Open ref version t effect
apply_observation-Open ref version effect (terminal t false) = Leads-fail _
apply_observation-Open ref version effect unsupported = Leads-fail _

observe_attempt-Saved :
    (o : Observation) (a : Attempt) (b : Bool) → Leads Open Saved (observe_attempt o a b)
unfolding archive_late_observation
observe_attempt-Saved o a false = archive_payload-Saved o a.version a.dialog_id _
observe_attempt-Saved o a true = search (attempt_rules, apply_observation-Open) depth 20

pub observe-Saved : (o : Observation) → Leads Saved Saved (observe o)
unfolding observe
observe-Saved o =
    Leads-bind _ _ load_state-Loaded
      λ s. Leads-weaken _ (λ w p. p.1) (search (attempt_rules, observe_attempt-Saved) depth 20)

pub mark_started-Saved : (ref : AttemptRef) → Leads Saved Saved (mark_started ref)
unfolding mark_started
mark_started-Saved ref =
    Leads-bind _ _ load_state-Loaded
      λ s. Leads-weaken _ (λ w p. p.1) (search attempt_rules depth 30)

steer_request-Open : (o : SteerOutcome) (r : Uuid) → Leads Open Open (steer_request o r)
steer_request-Open SteerOutcome.applied r = search attempt_rules depth 20
steer_request-Open SteerOutcome.unknown r = search attempt_rules depth 20
steer_request-Open SteerOutcome.rejected r = Leads-pure tt
steer_request-Open SteerOutcome.fallback_queued r = Leads-pure tt

lose_on_unknown-Open :
    (ref : AttemptRef) (o : SteerOutcome) → Leads Open Open (lose_on_unknown ref o)
lose_on_unknown-Open ref SteerOutcome.applied = Leads-pure tt
lose_on_unknown-Open ref SteerOutcome.unknown = set_attempt_unknown-Open ref _ _
lose_on_unknown-Open ref SteerOutcome.rejected = Leads-pure tt
lose_on_unknown-Open ref SteerOutcome.fallback_queued = Leads-pure tt

pub finish_steer-Saved :
    (ref : AttemptRef) (m : Uuid) (o : SteerOutcome) → Leads Saved Saved (finish_steer ref m o)
unfolding finish_steer
finish_steer-Saved ref m o = Leads-bind _ _ load_state-Loaded λ s.
    Leads-weaken _ (λ w p. p.1)
      (search (attempt_rules, steer_request-Open, lose_on_unknown-Open) depth 30)

end_response-Saved :
    (ref : AttemptRef) (o : ResponseOutcome) → Leads Open Saved (end_response ref o)
end_response-Saved ref ResponseOutcome.applied = save_state-Saved
end_response-Saved ref ResponseOutcome.rejected = save_state-Saved
end_response-Saved ref ResponseOutcome.unknown = search attempt_rules depth 10

resolve_approval-Open :
    (ref : AttemptRef) (actor approval : Uuid) (version : ℕ) (d : Decision) (o : ResponseOutcome)
    → Leads Open Open (resolve_approval ref actor approval version d o)
resolve_approval-Open ref actor approval version d ResponseOutcome.applied =
    search history_rules depth 5
resolve_approval-Open ref actor approval version d ResponseOutcome.rejected = Leads-pure tt
resolve_approval-Open ref actor approval version d ResponseOutcome.unknown = Leads-pure tt

resolve_input-Open :
    (ref : AttemptRef) (m : Option Uuid) (input : Uuid) (version : ℕ) (o : ResponseOutcome)
    → Leads Open Open (resolve_input ref m input version o)
resolve_input-Open ref m input version ResponseOutcome.applied = search history_rules depth 5
resolve_input-Open ref m input version ResponseOutcome.rejected = Leads-pure tt
resolve_input-Open ref m input version ResponseOutcome.unknown = Leads-pure tt

pub finish_approval-Saved :
    (ref : AttemptRef) (actor approval : Uuid) (version : ℕ) (d : Decision) (o : ResponseOutcome)
    → Leads Saved Saved (finish_approval ref actor approval version d o)
unfolding finish_approval
finish_approval-Saved ref actor approval version d o = Leads-bind _ _ load_state-Loaded λ s.
    Leads-weaken _ (λ w p. p.1)
      (search (attempt_rules, resolve_approval-Open, end_response-Saved) depth 20)

pub finish_input-Saved :
    (ref : AttemptRef) (m : Option Uuid) (input : Uuid) (version : ℕ) (o : ResponseOutcome)
    → Leads Saved Saved (finish_input ref m input version o)
unfolding finish_input
finish_input-Saved ref m input version o = Leads-bind _ _ load_state-Loaded λ s.
    Leads-weaken _ (λ w p. p.1)
      (search (attempt_rules, resolve_input-Open, end_response-Saved) depth 20)
