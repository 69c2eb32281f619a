-- ===== src/Attempts/DurableFinish.antt =====
-- The outcomes of control actions keep what lasts.
use harness_codex.Prelude.{Option, ℕ}
use harness_codex.Ledger.Types.{Uuid, Decision}
use harness_codex.Ledger.Db.{Db}
use harness_codex.Ledger.Leads.{Leads, Leads-pure}
use harness_codex.Ledger.Durable.{Durable, Kept, durable_rules}
use harness_codex.Attempts.Unknown.{AttemptRef}
use harness_codex.Attempts.Finish.{
  SteerOutcome, ResponseOutcome, steer_request, lose_on_unknown, finish_steer, resolve_approval,
  end_response, finish_approval, resolve_input, finish_input,
}
use harness_codex.Attempts.Durable.{set_attempt_unknown-Kept}

module _ {P : Db → Type 0} (d : Durable P) where
  steer_request-Kept : (o : SteerOutcome) (r : Uuid) → Leads (Kept P) (Kept P) (steer_request o r)
  steer_request-Kept SteerOutcome.applied r = search durable_rules depth 20
  steer_request-Kept SteerOutcome.unknown r = search durable_rules depth 20
  steer_request-Kept SteerOutcome.rejected r = Leads-pure tt
  steer_request-Kept SteerOutcome.fallback_queued r = Leads-pure tt

  lose_on_unknown-Kept :
      (ref : AttemptRef) (o : SteerOutcome) → Leads (Kept P) (Kept P) (lose_on_unknown ref o)
  lose_on_unknown-Kept ref SteerOutcome.applied = Leads-pure tt
  lose_on_unknown-Kept ref SteerOutcome.unknown = set_attempt_unknown-Kept d ref _ _
  lose_on_unknown-Kept ref SteerOutcome.rejected = Leads-pure tt
  lose_on_unknown-Kept ref SteerOutcome.fallback_queued = Leads-pure tt

  pub finish_steer-Kept :
      (ref : AttemptRef) (m : Uuid) (o : SteerOutcome)
      → Leads (Kept P) (Kept P) (finish_steer ref m o)
  unfolding finish_steer
  finish_steer-Kept ref m o =
      search (durable_rules, steer_request-Kept, lose_on_unknown-Kept) depth 30

  end_response-Kept :
      (ref : AttemptRef) (o : ResponseOutcome) → Leads (Kept P) (Kept P) (end_response ref o)
  end_response-Kept ref ResponseOutcome.applied = search durable_rules depth 5
  end_response-Kept ref ResponseOutcome.rejected = search durable_rules depth 5
  end_response-Kept ref ResponseOutcome.unknown =
      search (durable_rules, set_attempt_unknown-Kept) depth 10

  resolve_approval-Kept :
      (ref : AttemptRef) (actor approval : Uuid) (version : ℕ) (v : Decision) (o : ResponseOutcome)
      → Leads (Kept P) (Kept P) (resolve_approval ref actor approval version v o)
  resolve_approval-Kept ref actor approval version v ResponseOutcome.applied =
      search durable_rules depth 5
  resolve_approval-Kept ref actor approval version v ResponseOutcome.rejected = Leads-pure tt
  resolve_approval-Kept ref actor approval version v ResponseOutcome.unknown = Leads-pure tt

  resolve_input-Kept :
      (ref : AttemptRef) (m : Option Uuid) (input : Uuid) (version : ℕ) (o : ResponseOutcome)
      → Leads (Kept P) (Kept P) (resolve_input ref m input version o)
  resolve_input-Kept ref m input version ResponseOutcome.applied = search durable_rules depth 5
  resolve_input-Kept ref m input version ResponseOutcome.rejected = Leads-pure tt
  resolve_input-Kept ref m input version ResponseOutcome.unknown = Leads-pure tt

  pub finish_approval-Kept :
      (ref : AttemptRef) (actor approval : Uuid) (version : ℕ) (v : Decision) (o : ResponseOutcome)
      → Leads (Kept P) (Kept P) (finish_approval ref actor approval version v o)
  unfolding finish_approval
  finish_approval-Kept ref actor approval version v o =
      search (durable_rules, resolve_approval-Kept, end_response-Kept) depth 20

  pub finish_input-Kept :
      (ref : AttemptRef) (m : Option Uuid) (input : Uuid) (version : ℕ) (o : ResponseOutcome)
      → Leads (Kept P) (Kept P) (finish_input ref m input version o)
  unfolding finish_input
  finish_input-Kept ref m input version o =
      search (durable_rules, resolve_input-Kept, end_response-Kept) depth 20
