-- ===== src/Commands/Keeps.antt =====
-- The lookups of SubmitCommand read the ledger and keep every condition on it.
use harness_codex.Prelude.{Option, none, some, ◌==◌}
use harness_codex.Ledger.Types.{Uuid}
use harness_codex.Ledger.Wire.{Body, Envelope}
use harness_codex.Ledger.Db.{Db, CommandRow, CommandRejection}
use harness_codex.Ledger.Tx.{Config, Work, Code, refused, guard}
use harness_codex.Ledger.Leads.{Leads, Leads-then, Leads-guard, leads_rules}
use harness_codex.Commands.Lookup.{
  Target, unscoped, missing, unsupported, scoped, target_of, admit_target, authorize_object,
  one_outcome, load_outcome, Coverage, coverage, uncovered, node_wide, unresolved, dialog_wide,
  hold_for, covering_hold,
}

module _ {P : Work → Type 0} where
  pub admit_target-keeps : (c : Config) (db : Db) (t : Target) → Leads P P (admit_target c db t)
  admit_target-keeps c db unscoped = search leads_rules
  admit_target-keeps c db missing = search leads_rules
  admit_target-keeps c db unsupported = search leads_rules
  admit_target-keeps c db (scoped d) = search leads_rules

  pub authorize_object-keeps : (e : Envelope) → Leads P P (authorize_object e)
  unfolding authorize_object
  authorize_object-keeps e = record {
    at = λ w h.
        (Leads-then {P = P} {Q = P}
            (guard (e.target_node == w.config.node_id) (refused 404 Code.not_found))
            (λ _. admit_target w.config w.db (target_of w.db e.body)) (Leads-guard _ _)
            (λ _. admit_target-keeps w.config w.db (target_of w.db e.body))).at
          w h;
  }

  pub one_outcome-keeps :
      (a : Option CommandRow) (r : Option CommandRejection) → Leads P P (one_outcome a r)
  one_outcome-keeps none none = search leads_rules
  one_outcome-keeps (some a) none = search leads_rules
  one_outcome-keeps none (some r) = search leads_rules
  one_outcome-keeps (some a) (some r) = search leads_rules

  pub load_outcome-keeps : (id : Uuid) → Leads P P (load_outcome id)
  unfolding load_outcome
  load_outcome-keeps id = record { at = λ w h. (one_outcome-keeps _ _).at w h }

  pub hold_for-keeps : (db : Db) (node : Uuid) (c : Coverage) → Leads P P (hold_for db node c)
  hold_for-keeps db node uncovered = search leads_rules
  hold_for-keeps db node node_wide = search leads_rules
  hold_for-keeps db node unresolved = search leads_rules
  hold_for-keeps db node (dialog_wide d) = search leads_rules

  pub covering_hold-keeps : (b : Body) → Leads P P (covering_hold b)
  unfolding covering_hold
  covering_hold-keeps b = record {
    at = λ w h. (hold_for-keeps w.db w.config.node_id (coverage w.db b)).at w h;
  }

  pub ruleset lookup_keeps =
      (leads_rules, authorize_object-keeps, load_outcome-keeps, covering_hold-keeps)
