-- ===== src/Attempts/Durable.antt =====
-- The transactions on attempts keep what lasts.
use harness_codex.Prelude.{
  [], ◌∷◌, any, ◌==◌, Bool, true, false, Option, none, some, not, ◌&&◌, Bool-cases, inl, inr,
  count_if, ◌++◌, ℕ,
}
use harness_codex.Ledger.Types.{Uuid, EffectStatus, LateObservation, Attempt}
use harness_codex.Ledger.Db.{Db, Payload, UnknownReason, ProjectionKey}
use harness_codex.Ledger.Leads.{Leads, Leads-fail, leads_rules}
use harness_codex.Ledger.Durable.{Durable, Kept, durable_rules}
use harness_codex.Attempts.Projection.{
  update_where, is_unbound, is_projected, bind_key, record_projection,
}
use harness_codex.Attempts.Unknown.{
  AttemptRef, lose, set_attempt_unknown, mark_unknown_tx, lose_actions, recover_known, recover_slot,
  recover_startup,
}
use harness_codex.Attempts.Observe.{
  Observation, ObservationKind, unknown, terminal, unsupported, TerminalState, completed, failed,
  interrupted, apply_terminal, insert_late, archive_payload, archive_late_observation,
  apply_observation, observe_attempt, observe,
}
use harness_codex.Attempts.Actions.{mark_started}

module _ {P : Db → Type 0} (d : Durable P) where
  record_projection-Kept :
      (a : Uuid) (k : ProjectionKey) → Leads (Kept P) (Kept P) (record_projection a k)
  unfolding record_projection
  record_projection-Kept a k = record {
    at = λ w h.
        let here = is_unbound w.state.last_event_seq a in
        elim (Bool-cases
          (count_if here w.db.events == 1 && not (any (is_projected a k) w.db.events))) [
            | inl q ↦ rw q (d.events w.db (update_where here (bind_key k) w.db.events) h)
            | inr q ↦ rw q tt
          ];
  }

  lose-Kept :
      (ref : AttemptRef) (reason : UnknownReason) (effect : EffectStatus) (a : Attempt) (b : Bool)
      → Leads (Kept P) (Kept P) (lose ref reason effect a b)
  lose-Kept ref reason effect a true = search leads_rules depth 5
  lose-Kept ref reason effect a false = search durable_rules depth 20

  pub set_attempt_unknown-Kept :
      (ref : AttemptRef) (reason : UnknownReason) (effect : EffectStatus)
      → Leads (Kept P) (Kept P) (set_attempt_unknown ref reason effect)
  unfolding set_attempt_unknown
  set_attempt_unknown-Kept ref reason effect = search (leads_rules, lose-Kept) depth 10

  ruleset attempt_rules = (durable_rules, record_projection-Kept, set_attempt_unknown-Kept)

  lose_actions-Kept : Leads (Kept P) (Kept P) lose_actions
  unfolding lose_actions
  lose_actions-Kept = record { at = λ w h. d.control_actions w.db _ h }

  pub mark_unknown_tx-Kept :
      (ref : AttemptRef) (reason : UnknownReason) (effect : EffectStatus)
      → Leads (Kept P) (Kept P) (mark_unknown_tx ref reason effect)
  unfolding mark_unknown_tx
  mark_unknown_tx-Kept ref reason effect = search attempt_rules depth 20

  recover_known-Kept : (a : Attempt) (b : Bool) → Leads (Kept P) (Kept P) (recover_known a b)
  recover_known-Kept a true = search leads_rules depth 5
  recover_known-Kept a false = search attempt_rules depth 20

  recover_slot-Kept : (o : Option Uuid) → Leads (Kept P) (Kept P) (recover_slot o)
  recover_slot-Kept none = search leads_rules depth 5
  recover_slot-Kept (some id) = search (leads_rules, recover_known-Kept) depth 10

  pub recover_startup-Kept : Leads (Kept P) (Kept P) recover_startup
  unfolding recover_startup
  recover_startup-Kept = search (durable_rules, lose_actions-Kept, recover_slot-Kept) depth 10

  apply_terminal-Kept :
      (ref : AttemptRef) (version : ℕ) (t : TerminalState) (effect : EffectStatus)
      → Leads (Kept P) (Kept P) (apply_terminal ref version t effect)
  unfolding apply_terminal
  apply_terminal-Kept ref version completed effect = search attempt_rules depth 20
  apply_terminal-Kept ref version failed effect = search attempt_rules depth 20
  apply_terminal-Kept ref version interrupted effect = search attempt_rules depth 20
  apply_terminal-Kept ref version unsupported effect = search attempt_rules depth 20

  insert_late-Kept : (o : LateObservation) → Leads (Kept P) (Kept P) (insert_late o)
  unfolding insert_late
  insert_late-Kept o = record {
    at = λ w h. d.late_observations w.db (w.db.late_observations ++ o ∷ []) h;
  }

  archive_payload-Kept :
      (o : Observation) (version : ℕ) (dialog : Uuid) (p : Option Payload)
      → Leads (Kept P) (Kept P) (archive_payload o version dialog p)
  archive_payload-Kept o version dialog none = Leads-fail _
  archive_payload-Kept o version dialog (some p) = search (attempt_rules, insert_late-Kept) depth 20

  apply_observation-Kept :
      (ref : AttemptRef) (version : ℕ) (effect : EffectStatus) (k : ObservationKind)
      → Leads (Kept P) (Kept P) (apply_observation ref version effect k)
  apply_observation-Kept ref version effect (unknown reason) =
      set_attempt_unknown-Kept ref reason effect
  apply_observation-Kept ref version effect (terminal t true) =
      apply_terminal-Kept ref version t effect
  apply_observation-Kept ref version effect (terminal t false) = Leads-fail _
  apply_observation-Kept ref version effect unsupported = Leads-fail _

  observe_attempt-Kept :
      (o : Observation) (a : Attempt) (b : Bool) → Leads (Kept P) (Kept P) (observe_attempt o a b)
  unfolding archive_late_observation
  observe_attempt-Kept o a false = archive_payload-Kept o a.version a.dialog_id _
  observe_attempt-Kept o a true = search (attempt_rules, apply_observation-Kept) depth 20

  pub observe-Kept : (o : Observation) → Leads (Kept P) (Kept P) (observe o)
  unfolding observe
  observe-Kept o = search (attempt_rules, observe_attempt-Kept) depth 20

  pub mark_started-Kept : (ref : AttemptRef) → Leads (Kept P) (Kept P) (mark_started ref)
  unfolding mark_started
  mark_started-Kept ref = search attempt_rules depth 30
