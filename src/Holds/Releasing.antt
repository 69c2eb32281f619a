-- ===== src/Holds/Releasing.antt =====
-- A release only ends a hold: the others stay as they are.
use harness_codex.Prelude.{
  ℕ, ◌≡◌, inl, inr, Bool, true, false, Option, none, some, [], ◌∷◌, ◌++◌, ◌==◌, if◌then◌else◌, any,
  any-append_new, Bool-cases, arith,
}
use harness_codex.Ledger.Types.{Uuid, Hold, HoldOutcome, DurableState}
use harness_codex.Ledger.Db.{Db}
use harness_codex.Ledger.Tx.{Code, Config, Work, Result, err, ok, modify_db}
use harness_codex.Ledger.Leads.{Ends, Leads, leads_rules}
use harness_codex.Commands.Lookup.{active_hold}
use harness_codex.Commands.Host.{Host}
use harness_codex.Commands.Durable.{conclude-keeps}
use harness_codex.Commands.Reply.{refusal}
use harness_codex.Commands.Submit.{begin}
use harness_codex.Holds.Scopes.{ReleaseRequest}
use harness_codex.Holds.Checks.{valid_release}
use harness_codex.Holds.Release.{
  Released, replayed, released, outcome_clash, insert_outcome, commit_release, release_held,
  release_new, release_tx, settle_release, release_hold,
}
use harness_codex.Holds.Exclusion.{Exclusive, Unshared, new_id-Unshared, load_state-Unshared}

-- A hold that is active after one more release was active before.
still_active :
    (db : Db) (o : HoldOutcome) (node : Uuid) (h : Hold)
    → active_hold (record db { hold_outcomes = db.hold_outcomes ++ o ∷ [] }) node h ≡ true
    → active_hold db node h ≡ true
unfolding active_hold
still_active db o node h a = ground (
  arith,
  any-append_new (λ (x : HoldOutcome). x.operation_id == h.operation_id) db.hold_outcomes o,
)

insert_outcome-Unshared : (o : HoldOutcome) → Leads Unshared Unshared (insert_outcome o)
unfolding insert_outcome
insert_outcome-Unshared o = record {
  at = λ w p. elim (Bool-cases (any (outcome_clash o) w.db.hold_outcomes)) [
    | inl e ↦ rw e tt
    | inr e ↦ rw e (λ node h k r s a b.
        p node h k r s (still_active w.db o node h a) (still_active w.db o node k b))
  ];
}

modify_db-Unshared :
    (f : Db → Db)
    → ((w : Work) → Unshared w → Unshared (record w { db = f w.db }))
    → Leads Unshared Unshared (modify_db f)
unfolding modify_db
modify_db-Unshared f h = record { at = h }

commit_release-Unshared :
    (h : Host) (r : ReleaseRequest) (s : DurableState) (hold : Hold) (revision : ℕ)
    → Leads Unshared Unshared (commit_release h r s hold revision)
unfolding commit_release active_hold
commit_release-Unshared h r s hold revision =
    search (leads_rules, new_id-Unshared, insert_outcome-Unshared, modify_db-Unshared) depth 20

release_held-Unshared :
    (h : Host) (r : ReleaseRequest) (s : DurableState) (o : Option Hold)
    → Leads Unshared Unshared (release_held h r s o)
release_held-Unshared h r s none = search leads_rules depth 5
release_held-Unshared h r s (some hold) = search (leads_rules, commit_release-Unshared) depth 10

release_new-Unshared :
    (h : Host) (r : ReleaseRequest) (s : DurableState) (o : Option HoldOutcome)
    → Leads Unshared Unshared (release_new h r s o)
release_new-Unshared h r s (some o) = search leads_rules depth 10
release_new-Unshared h r s none = search (leads_rules, release_held-Unshared) depth 10

release_tx-Unshared : (h : Host) (r : ReleaseRequest) → Leads Unshared Unshared (release_tx h r)
unfolding release_tx
release_tx-Unshared h r = search (leads_rules, load_state-Unshared, release_new-Unshared) depth 10

settle_release-Exclusive :
    (h : Host) (db : Db) (r : Result (Released × Work))
    → Exclusive db
    → Ends (λ _ w. Unshared w) r
    → Exclusive (settle_release h db r).1
settle_release-Exclusive h db (err e) p q = p
settle_release-Exclusive h db (ok (replayed r, w)) p q = p
settle_release-Exclusive h db (ok (released r, w)) p q = conclude-keeps Exclusive h _ db w.db p q

-- A release never gives two active holds of a node whose scopes overlap.
pub release_hold-Exclusive :
    (c : Config) (transport : Uuid) (r : Option ReleaseRequest) (h : Host) (db : Db)
    → Exclusive db
    → Exclusive (release_hold c transport r h db).1
unfolding release_hold
release_hold-Exclusive c transport none h db p = elim (Bool-cases (transport == c.node_id)) [
  | inl e ↦ rw e p
  | inr e ↦ rw e p
]
release_hold-Exclusive c transport (some r) h db p =
    entered (transport == c.node_id) (valid_release r) (r.node_id == c.node_id)
  where
    entered :
        (here valid ours : Bool)
        → Exclusive
            (if here
              then (if valid
                  then (if ours
                      then settle_release h db (release_tx h r (begin c h db))
                      else (refusal 404 Code.not_found, db))
                  else (refusal 400 Code.invalid, db))
              else (refusal 404 Code.not_found, db)).1
    entered true true true =
        settle_release-Exclusive h db _ p ((release_tx-Unshared h r).at (begin c h db) p)
    entered true true false = p
    entered true false ours = p
    entered false valid ours = p
