-- ===== src/Holds/Durable.antt =====
-- What the requests on holds leave alone: every table but those of the holds, to which rows are added.
use harness_codex.Prelude.{
  ℕ, Bool, true, false, Option, none, some, List, [], ◌∷◌, ◌++◌, ◌==◌, any, if◌then◌else◌,
  Bool-cases, inl, inr,
}
use harness_codex.Ledger.Types.{Uuid, Hold, HoldOutcome, ScopeRevision, DurableState}
use harness_codex.Ledger.Db.{Db}
use harness_codex.Ledger.Tx.{Code, Config, Work, Result, err, ok, new_id, take_id, modify_db}
use harness_codex.Ledger.Leads.{Ends, Leads, leads_rules}
use harness_codex.Ledger.Frame.{unless-keeps}
use harness_codex.Ledger.Durable.{Kept, load_state-Kept}
use harness_codex.Commands.Host.{Host}
use harness_codex.Commands.Durable.{conclude-keeps}
use harness_codex.Commands.Reply.{refusal}
use harness_codex.Commands.Submit.{begin}
use harness_codex.Holds.Scopes.{InstallRequest, ReleaseRequest}
use harness_codex.Holds.Checks.{valid_install, valid_release}
use harness_codex.Holds.Install.{
  Installed, installed, advance_clock, hold_clash, insert_hold, commit_hold, install_new,
  install_tx, settle_install, install_hold,
}
use harness_codex.Holds.Release.{
  Released, released, outcome_clash, insert_outcome, commit_release, release_held, release_new,
  release_tx, settle_release, release_hold,
}

pub record HoldTables (P : Db → Type 0) : Type 0 where
  pub hold :
      (db : Db) (h : Hold)
      → P db
      → P (record db { administrative_holds = db.administrative_holds ++ h ∷ [] })
  pub outcome :
      (db : Db) (o : HoldOutcome)
      → P db
      → P (record db { hold_outcomes = db.hold_outcomes ++ o ∷ [] })
  pub revisions :
      (db : Db) (x : List ScopeRevision) → P db → P (record db { hold_scope_revisions = x })
  pub clock : (db : Db) (x : ℕ) → P db → P (record db { hold_clock = x })

module _ {P : Db → Type 0} (t : HoldTables P) where
  new_id-Kept : Leads (Kept P) (Kept P) new_id
  unfolding new_id
  new_id-Kept = record { at = λ w h. taken w.ids w h }
    where
      taken : (ids : List Uuid) (w : Work) → P w.db → Ends (λ _ v. Kept P v) (take_id ids w)
      taken [] w h = tt
      taken (i ∷ rest) w h = h

  advance_clock-Kept : (version : ℕ) → Leads (Kept P) (Kept P) (modify_db (advance_clock version))
  unfolding modify_db
  advance_clock-Kept version = record { at = λ w h. t.clock w.db _ h }

  revisions-Kept :
      (f : Db → List ScopeRevision)
      → Leads (Kept P) (Kept P) (modify_db (λ db. record db { hold_scope_revisions = f db }))
  unfolding modify_db
  revisions-Kept f = record { at = λ w h. t.revisions w.db _ h }

  insert_hold-Kept : (h : Hold) → Leads (Kept P) (Kept P) (insert_hold h)
  unfolding insert_hold
  insert_hold-Kept h = record {
    at = λ w p.
        unless-keeps (Kept P) (any (hold_clash h) w.db.administrative_holds) _ (t.hold w.db h p);
  }

  insert_outcome-Kept : (o : HoldOutcome) → Leads (Kept P) (Kept P) (insert_outcome o)
  unfolding insert_outcome
  insert_outcome-Kept o = record {
    at = λ w p.
        unless-keeps (Kept P) (any (outcome_clash o) w.db.hold_outcomes) _ (t.outcome w.db o p);
  }

  ruleset hold_rules = (
    leads_rules, new_id-Kept, advance_clock-Kept, revisions-Kept, insert_hold-Kept,
    insert_outcome-Kept, load_state-Kept,
  )

  commit_hold-Kept :
      (h : Host) (r : InstallRequest) (s : DurableState) (revision : ℕ)
      → Leads (Kept P) (Kept P) (commit_hold h r s revision)
  unfolding commit_hold
  commit_hold-Kept h r s revision = search hold_rules depth 20

  install_new-Kept :
      (h : Host) (r : InstallRequest) (s : DurableState) (o : Option Hold)
      → Leads (Kept P) (Kept P) (install_new h r s o)
  install_new-Kept h r s (some stored) = search leads_rules depth 10
  install_new-Kept h r s none = search (leads_rules, commit_hold-Kept) depth 20

  install_tx-Kept : (h : Host) (r : InstallRequest) → Leads (Kept P) (Kept P) (install_tx h r)
  unfolding install_tx
  install_tx-Kept h r = search (hold_rules, install_new-Kept) depth 10

  settle_install-keeps :
      (h : Host) (db : Db) (r : Result (Installed × Work))
      → P db
      → Ends (λ _ w. Kept P w) r
      → P (settle_install h db r).1
  settle_install-keeps h db (err e) p q = p
  settle_install-keeps h db (ok (Installed.replayed r, w)) p q = p
  settle_install-keeps h db (ok (installed r, w)) p q = conclude-keeps P h _ db w.db p q

  pub install_hold-keeps :
      (c : Config) (transport : Uuid) (r : Option InstallRequest) (h : Host) (db : Db)
      → P db
      → P (install_hold c transport r h db).1
  unfolding install_hold
  install_hold-keeps c transport none h db p = elim (Bool-cases (transport == c.node_id)) [
    | inl e ↦ rw e p
    | inr e ↦ rw e p
  ]
  install_hold-keeps c transport (some r) h db p =
      entered (transport == c.node_id) (valid_install r) (r.node_id == c.node_id)
    where
      entered :
          (here valid ours : Bool)
          → P
              (if here
                then (if valid
                    then (if ours
                        then settle_install h db (install_tx h r (begin c h db))
                        else (refusal 404 Code.not_found, db))
                    else (refusal 400 Code.invalid, db))
                else (refusal 404 Code.not_found, db)).1
      entered true true true =
          settle_install-keeps h db _ p ((install_tx-Kept h r).at (begin c h db) p)
      entered true true false = p
      entered true false ours = p
      entered false valid ours = p

  commit_release-Kept :
      (h : Host) (r : ReleaseRequest) (s : DurableState) (hold : Hold) (revision : ℕ)
      → Leads (Kept P) (Kept P) (commit_release h r s hold revision)
  unfolding commit_release
  commit_release-Kept h r s hold revision = search hold_rules depth 20

  release_held-Kept :
      (h : Host) (r : ReleaseRequest) (s : DurableState) (o : Option Hold)
      → Leads (Kept P) (Kept P) (release_held h r s o)
  release_held-Kept h r s none = search leads_rules depth 5
  release_held-Kept h r s (some hold) = search (leads_rules, commit_release-Kept) depth 10

  release_new-Kept :
      (h : Host) (r : ReleaseRequest) (s : DurableState) (o : Option HoldOutcome)
      → Leads (Kept P) (Kept P) (release_new h r s o)
  release_new-Kept h r s (some o) = search leads_rules depth 10
  release_new-Kept h r s none = search (leads_rules, release_held-Kept) depth 10

  release_tx-Kept : (h : Host) (r : ReleaseRequest) → Leads (Kept P) (Kept P) (release_tx h r)
  unfolding release_tx
  release_tx-Kept h r = search (hold_rules, release_new-Kept) depth 10

  settle_release-keeps :
      (h : Host) (db : Db) (r : Result (Released × Work))
      → P db
      → Ends (λ _ w. Kept P w) r
      → P (settle_release h db r).1
  settle_release-keeps h db (err e) p q = p
  settle_release-keeps h db (ok (Released.replayed r, w)) p q = p
  settle_release-keeps h db (ok (released r, w)) p q = conclude-keeps P h _ db w.db p q

  pub release_hold-keeps :
      (c : Config) (transport : Uuid) (r : Option ReleaseRequest) (h : Host) (db : Db)
      → P db
      → P (release_hold c transport r h db).1
  unfolding release_hold
  release_hold-keeps c transport none h db p = elim (Bool-cases (transport == c.node_id)) [
    | inl e ↦ rw e p
    | inr e ↦ rw e p
  ]
  release_hold-keeps c transport (some r) h db p =
      entered (transport == c.node_id) (valid_release r) (r.node_id == c.node_id)
    where
      entered :
          (here valid ours : Bool)
          → P
              (if here
                then (if valid
                    then (if ours
                        then settle_release h db (release_tx h r (begin c h db))
                        else (refusal 404 Code.not_found, db))
                    else (refusal 400 Code.invalid, db))
                else (refusal 404 Code.not_found, db)).1
      entered true true true =
          settle_release-keeps h db _ p ((release_tx-Kept h r).at (begin c h db) p)
      entered true true false = p
      entered true false ours = p
      entered false valid ours = p
