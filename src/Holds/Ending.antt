-- ===== src/Holds/Ending.antt =====
-- What a release changes: the hold that it names is no longer active, and nothing else is touched.
use harness_codex.Prelude.{
  ℕ, ◌≡◌, refl, ap, inl, inr, true, ◌&&◌, Option, none, some, List, [], ◌∷◌, ◌++◌, ◌==◌, not, any,
  any-append, Bool-cases, arith,
}
use harness_codex.Ledger.Types.{Uuid, Hold, HoldOutcome, DurableState}
use harness_codex.Ledger.Db.{Db}
use harness_codex.Ledger.Tx.{
  Config, Work, Result, err, ok, outdated, stale_state, refused, internal, new_id, take_id,
  modify_db, load_state,
}
use harness_codex.Ledger.Leads.{
  Ends, Leads, Leads-guard, Leads-gets, Leads-bind, Leads-pure, Returns, Returns-fail, Returns-then,
  Returns-pure, Leads-then,
}
use harness_codex.Commands.Lookup.{active_hold}
use harness_codex.Commands.Host.{Host}
use harness_codex.Commands.Repeat.{conclude-committed}
use harness_codex.Commands.Submit.{begin}
use harness_codex.Holds.Scopes.{ReleaseRequest}
use harness_codex.Holds.Checks.{valid_release}
use harness_codex.Holds.Release.{
  Released, replayed, released, outcome_clash, insert_outcome, commit_release, release_held,
  release_new, release_tx, settle_release, release_hold,
}

-- The ledgers agree but for the outcomes of holds and the revisions of scopes.
abbrev pub SameButReleases : Db → Db → Type 0
SameButReleases db after =
    record after {
      hold_outcomes = db.hold_outcomes;
      hold_scope_revisions = db.hold_scope_revisions;
    }
    ≡ db

abbrev Untouched : Db → Work → Type 0
Untouched db w = SameButReleases db w.db × (w.db.hold_outcomes ≡ db.hold_outcomes)

-- One outcome more, for the operation
abbrev Ending : Db → Uuid → Db → Type 0
Ending db id after =
    SameButReleases db after
    × ((o : HoldOutcome) × (after.hold_outcomes ≡ db.hold_outcomes ++ o ∷ [])
        × (o.operation_id ≡ id))

new_id-Untouched : (db : Db) → Leads (Untouched db) (Untouched db) new_id
unfolding new_id
new_id-Untouched db = record { at = λ w h. taken w.ids w h }
  where
    taken :
        (ids : List Uuid) (w : Work) → Untouched db w → Ends (λ _ v. Untouched db v) (take_id ids w)
    taken [] w h = tt
    taken (i ∷ rest) w h = h

modify_db-Untouched :
    (db : Db) (f : Db → Db)
    → ((w : Work) → Untouched db w → Untouched db (record w { db = f w.db }))
    → Leads (Untouched db) (Untouched db) (modify_db f)
unfolding modify_db
modify_db-Untouched db f h = record { at = h }

insert_outcome-Ending :
    (db : Db) (o : HoldOutcome)
    → Leads (Untouched db) (λ w. Ending db o.operation_id w.db) (insert_outcome o)
unfolding insert_outcome
insert_outcome-Ending db o = record {
  at = λ w p. elim (Bool-cases (any (outcome_clash o) w.db.hold_outcomes)) [
    | inl e ↦ rw e tt
    | inr e ↦ rw e (p.0, (o, ap (λ (xs : List HoldOutcome). xs ++ o ∷ []) p.1, refl))
  ];
}

commit_release-Ending :
    (db : Db) (h : Host) (r : ReleaseRequest) (s : DurableState) (hold : Hold) (revision : ℕ)
    → Leads (Untouched db) (λ w. Ending db r.operation_id w.db) (commit_release h r s hold revision)
unfolding commit_release
commit_release-Ending db h r s hold revision = Leads-then _ _ (new_id-Untouched db) λ id.
    Leads-then _ _ (Leads-gets _) λ now. Leads-then _ _ (Leads-guard _ _) λ _.
      Leads-then _ _ (Leads-guard _ _) λ _.
        Leads-then _ _ (modify_db-Untouched db _ (λ w p. p))
          λ _. Leads-bind _ _ (insert_outcome-Ending db _) (λ _. Leads-pure _)

abbrev Releases : Db → Uuid → Released → Work → Type 0
Releases db id (replayed x) w = Unit
Releases db id (released x) w = Ending db id w.db

release_new-Releases :
    (db : Db) (h : Host) (r : ReleaseRequest) (s : DurableState) (o : Option HoldOutcome)
    → Returns (Untouched db) (Releases db r.operation_id) (release_new h r s o)
release_new-Releases db h r s (some o) =
    Returns-then _ _ (Leads-guard _ _) (λ _. Returns-pure (replayed _) (λ w p. tt))
release_new-Releases db h r s none = Returns-then _ _ (Leads-gets _) λ hold. held hold
  where
    held :
        (o : Option Hold)
        → Returns (Untouched db) (Releases db r.operation_id) (release_held h r s o)
    held none = Returns-fail _
    held (some hold) = Returns-then _ _ (Leads-guard _ _) λ _.
        Returns-then _ _ (Leads-gets _) λ revision. Returns-then _ _ (Leads-guard _ _) λ _.
          Returns-then _ _ (commit_release-Ending db h r s hold _)
            (λ x. Returns-pure (released x) (λ w p. p))

load_state-Untouched : (db : Db) → Leads (Untouched db) (Untouched db) load_state
unfolding load_state
load_state-Untouched db = record { at = λ w h. h }

release_tx-Releases :
    (db : Db) (h : Host) (r : ReleaseRequest)
    → Returns (Untouched db) (Releases db r.operation_id) (release_tx h r)
unfolding release_tx
release_tx-Releases db h r =
    Returns-then _ _ (load_state-Untouched db)
      λ s. Returns-then _ _ (Leads-gets _) (λ o. release_new-Releases db h r s o)

settle_release-Ending :
    (h : Host) (id : Uuid) (db : Db) (o : Result (Released × Work))
    → Ends (Releases db id) o
    → (settle_release h db o).0.committed ≡ true
    → Ending db id (settle_release h db o).1
settle_release-Ending h id db (err (outdated v s)) p q = cc
settle_release-Ending h id db (err (stale_state s)) p q = cc
settle_release-Ending h id db (err (refused v s)) p q = cc
settle_release-Ending h id db (err internal) p q = cc
settle_release-Ending h id db (ok (replayed x, w)) p q = cc
settle_release-Ending h id db (ok (released x, w)) p q = rw (conclude-committed h _ db w.db q) p

release_hold-Ending :
    (c : Config) (transport : Uuid) (r : ReleaseRequest) (h : Host) (db : Db)
    → (release_hold c transport (some r) h db).0.committed ≡ true
    → Ending db r.operation_id (release_hold c transport (some r) h db).1
unfolding release_hold
release_hold-Ending c transport r h db q = elim (Bool-cases (transport == c.node_id)) [
  | inr n ↦ cc
  | inl n ↦ elim (Bool-cases (valid_release r)) [
    | inr v ↦ cc
    | inl v ↦ elim (Bool-cases (r.node_id == c.node_id)) [
      | inr m ↦ cc
      | inl m ↦
          rw (n, v, m)
            (settle_release-Ending h r.operation_id db (release_tx h r (begin c h db))
              ((release_tx-Releases db h r).at (begin c h db) (refl, refl)) (rw (n, v, m) at q))
    ]
  ]
]

Ending-active :
    (db after : Db) (id node : Uuid) (k : Hold)
    → Ending db id after
    → active_hold after node k ≡ (active_hold db node k && not (k.operation_id == id))
unfolding active_hold
Ending-active db after id node k (same, (o, e, i)) = rw e (
    ground (
      arith,
      any-append (λ (x : HoldOutcome). x.operation_id == k.operation_id) db.hold_outcomes o,
      i,
    ))

-- A release that is committed ends the hold that it names and no other: exactly that operation's hold
-- stops being active, and the ledger is the same but for the outcomes of holds and the scope
-- revisions, so the manual pause of the queue, the requests and the attempts stay as they were.
pub release_hold-ends :
    (c : Config) (transport : Uuid) (r : ReleaseRequest) (h : Host) (db : Db)
    → (release_hold c transport (some r) h db).0.committed ≡ true
    → let after = (release_hold c transport (some r) h db).1 in
      SameButReleases db after
      × ((node : Uuid) (k : Hold)
          → active_hold after node k
            ≡ (active_hold db node k && not (k.operation_id == r.operation_id)))
release_hold-ends c transport r h db q =
    let e = release_hold-Ending c transport r h db q in
    (e.0, λ node k. Ending-active db _ r.operation_id node k e)
