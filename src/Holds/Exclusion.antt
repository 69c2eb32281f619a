-- ===== src/Holds/Exclusion.antt =====
-- No two active holds of a node overlap.
use harness_codex.Prelude.{
  ℕ, ◌≡◌, refl, sym, ap, ◌∙◌, ◌⊎◌, inl, inr, Bool, true, false, ◌&&◌, Option, none, some, List, [],
  ◌∷◌, ◌++◌, ◌==◌, if◌then◌else◌, any, IsRow, IsRow-append, count_if-none, Bool-cases, arith,
}
use harness_codex.Ledger.Types.{Uuid, Hold, DurableState, Scope}
use harness_codex.Ledger.Db.{Db}
use harness_codex.Ledger.Tx.{
  Code, Config, Work, Result, err, ok, new_id, take_id, modify_db, load_state,
}
use harness_codex.Ledger.Leads.{
  Ends, Leads, Leads-guard, Leads-test, Leads-bind, Leads-then, Leads-weaken, Leads-pure,
  Leads-gets, leads_rules, Returns, Returns-bind, Returns-then, Returns-pure, Returns-gets,
  Returns-of_Leads,
}
use harness_codex.Commands.Lookup.{active_hold}
use harness_codex.Commands.Host.{Host}
use harness_codex.Commands.Durable.{conclude-keeps}
use harness_codex.Commands.Reply.{refusal}
use harness_codex.Commands.Submit.{begin}
use harness_codex.Holds.Scopes.{InstallRequest, overlaps, overlaps_sym}
use harness_codex.Holds.Checks.{valid_install}
use harness_codex.Holds.Install.{
  Installed, replayed, installed, install_new, hold_conflicts, hold_clash, insert_hold, commit_hold,
  install_tx, install_hold, settle_install,
}

-- Active holds with overlapping scopes are one hold.
abbrev pub Exclusive : Db → Type 0
Exclusive db =
    (node : Uuid) (h k : Hold)
    → IsRow h db.administrative_holds
    → IsRow k db.administrative_holds
    → active_hold db node h ≡ true
    → active_hold db node k ≡ true
    → overlaps h.scope k.scope ≡ true
    → h.operation_id ≡ k.operation_id

abbrev pub Unshared : Work → Type 0
Unshared w = Exclusive w.db

-- The scope is free for a new hold.
abbrev Clear : Uuid → Scope → Work → Type 0
Clear node scope w = Exclusive w.db × (hold_conflicts w.db node scope ≡ 0)

clear_row :
    (db : Db) (node : Uuid) (scope : Scope) (h : Hold)
    → hold_conflicts db node scope ≡ 0
    → IsRow h db.administrative_holds
    → active_hold db node h ≡ true
    → overlaps h.scope scope ≡ true
    → ⊥
unfolding hold_conflicts
clear_row db node scope h z r a o =
    count_if-none (λ (x : Hold). active_hold db node x && overlaps x.scope scope)
      db.administrative_holds h z r (rw (a, o) refl)

active_node : (db : Db) (node : Uuid) (h : Hold) → active_hold db node h ≡ true → h.node_id ≡ node
unfolding active_hold
active_node db node h a = ground arith

-- One more hold in a free scope
grown :
    (h : Hold) (w : Work)
    → Clear h.node_id h.scope w
    → Exclusive (record w.db { administrative_holds = w.db.administrative_holds ++ h ∷ [] })
unfolding active_hold
grown h w p node a b r s x y o =
    pair (IsRow-append a w.db.administrative_holds h r)
      (IsRow-append b w.db.administrative_holds h s)
  where
    taken :
        (k : Hold)
        → IsRow k w.db.administrative_holds
        → active_hold w.db node k ≡ true
        → active_hold w.db node h ≡ true
        → overlaps k.scope h.scope ≡ true
        → ⊥
    taken k row act mine meets =
        clear_row w.db h.node_id h.scope k p.1 row (rw (active_node w.db node h mine) act) meets

    pair :
        IsRow a w.db.administrative_holds ⊎ (a ≡ h)
        → IsRow b w.db.administrative_holds ⊎ (b ≡ h)
        → a.operation_id ≡ b.operation_id
    pair (inl i) (inl j) = p.0 node a b i j x y o
    pair (inl i) (inr j) = absurd (taken a i x (rw (sym j) y) (rw (sym j) o))
    pair (inr i) (inl j) =
        absurd (taken b j y (rw (sym i) x) (rw (sym i) (overlaps_sym b.scope a.scope ∙ o)))
    pair (inr i) (inr j) = ap (λ (k : Hold). k.operation_id) (i ∙ sym j)

insert_hold-Clear : (h : Hold) → Leads (Clear h.node_id h.scope) Unshared (insert_hold h)
unfolding insert_hold
insert_hold-Clear h = record {
  at = λ w p. elim (Bool-cases (any (hold_clash h) w.db.administrative_holds)) [
    | inl e ↦ rw e tt
    | inr e ↦ rw e (grown h w p)
  ];
}

new_id-Clear : (node : Uuid) (scope : Scope) → Leads (Clear node scope) (Clear node scope) new_id
unfolding new_id
new_id-Clear node scope = record { at = λ w h. taken w.ids w h }
  where
    taken :
        (ids : List Uuid) (w : Work)
        → Clear node scope w
        → Ends (λ _ v. Clear node scope v) (take_id ids w)
    taken [] w h = tt
    taken (i ∷ rest) w h = h

-- A change of the clock or of the revisions
modify_db-Clear :
    (node : Uuid) (scope : Scope) (f : Db → Db)
    → ((w : Work) → Clear node scope w → Clear node scope (record w { db = f w.db }))
    → Leads (Clear node scope) (Clear node scope) (modify_db f)
unfolding modify_db
modify_db-Clear node scope f h = record { at = h }

commit_hold-Unshared :
    (h : Host) (r : InstallRequest) (s : DurableState) (revision : ℕ)
    → Leads (Clear s.node_id r.scope) Unshared (commit_hold h r s revision)
unfolding commit_hold hold_conflicts active_hold
commit_hold-Unshared h r s revision = Leads-then _ _ (Leads-gets _) λ version.
    Leads-then _ _ (new_id-Clear _ _) λ id. Leads-then _ _ (Leads-gets _) λ now.
      Leads-then _ _ (Leads-guard _ _) λ _. Leads-then _ _ (Leads-guard _ _) λ _.
        Leads-then _ _ (modify_db-Clear _ _ _ (λ w p. p)) λ _.
          Leads-then _ _ (modify_db-Clear _ _ _ (λ w p. p))
            λ _. Leads-bind _ _ (insert_hold-Clear _) (λ _. Leads-pure _)

free :
    (db : Db) (w : Work) (node : Uuid) (scope : Scope)
    → db ≡ w.db
    → (hold_conflicts db node scope == 0) ≡ true
    → hold_conflicts w.db node scope ≡ 0
free db w node scope e z = rw (sym e) (ground arith)

install_new-Unshared :
    (h : Host) (r : InstallRequest) (s : DurableState) (o : Option Hold)
    → Returns Unshared (λ _ w. Unshared w) (install_new h r s o)
install_new-Unshared h r s (some stored) = Returns-of_Leads _ (search leads_rules depth 10)
install_new-Unshared h r s none = Returns-then _ _ (Leads-guard _ _) λ _.
    Returns-bind _ _ (Returns-gets _) λ db. Returns-then _ _ (Leads-guard _ _) λ _.
      Returns-then _ _ (Leads-guard _ _) λ _. Returns-then _ _ (Leads-test _ _) λ _.
        Returns-then _ _ (Leads-guard _ _) λ _.
          Returns-then _ _
            (Leads-weaken _ (λ w p. (p.0.0, free db w s.node_id r.scope p.0.1 p.1))
              (commit_hold-Unshared h r s _))
            (λ x. Returns-pure _ (λ w p. p))

pub new_id-Unshared : Leads Unshared Unshared new_id
unfolding new_id
new_id-Unshared = record { at = λ w h. taken w.ids w h }
  where
    taken : (ids : List Uuid) (w : Work) → Unshared w → Ends (λ _ v. Unshared v) (take_id ids w)
    taken [] w h = tt
    taken (i ∷ rest) w h = h

pub load_state-Unshared : Leads Unshared Unshared load_state
unfolding load_state
load_state-Unshared = record { at = λ w h. h }

install_tx-Unshared :
    (h : Host) (r : InstallRequest) → Returns Unshared (λ _ w. Unshared w) (install_tx h r)
unfolding install_tx
install_tx-Unshared h r =
    Returns-then _ _ load_state-Unshared
      λ s. Returns-then _ _ (Leads-gets _) (λ o. install_new-Unshared h r s o)

settle_install-Exclusive :
    (h : Host) (db : Db) (r : Result (Installed × Work))
    → Exclusive db
    → Ends (λ _ w. Unshared w) r
    → Exclusive (settle_install h db r).1
settle_install-Exclusive h db (err e) p q = p
settle_install-Exclusive h db (ok (replayed r, w)) p q = p
settle_install-Exclusive h db (ok (installed r, w)) p q = conclude-keeps Exclusive h _ db w.db p q

-- An installation never gives two active holds of a node whose scopes overlap.
pub install_hold-Exclusive :
    (c : Config) (transport : Uuid) (r : Option InstallRequest) (h : Host) (db : Db)
    → Exclusive db
    → Exclusive (install_hold c transport r h db).1
unfolding install_hold
install_hold-Exclusive c transport none h db p = elim (Bool-cases (transport == c.node_id)) [
  | inl e ↦ rw e p
  | inr e ↦ rw e p
]
install_hold-Exclusive c transport (some r) h db p =
    entered (transport == c.node_id) (valid_install r) (r.node_id == c.node_id)
  where
    entered :
        (here valid ours : Bool)
        → Exclusive
            (if here
              then (if valid
                  then (if ours
                      then settle_install h db (install_tx h r (begin c h db))
                      else (refusal 404 Code.not_found, db))
                  else (refusal 400 Code.invalid, db))
              else (refusal 404 Code.not_found, db)).1
    entered true true true =
        settle_install-Exclusive h db _ p ((install_tx-Unshared h r).at (begin c h db) p)
    entered true true false = p
    entered true false ours = p
    entered false valid ours = p
