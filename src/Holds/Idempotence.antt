-- ===== src/Holds/Idempotence.antt =====
-- A request that is sent again after its acknowledgement was lost.
use harness_codex.Prelude.{
  ℕ, ◌≡◌, refl, sym, inl, inr, true, false, Option, none, some, List, [], ◌∷◌, ◌==◌, any,
  find?-append_new, Bool-cases, ==_refl, arith,
}
use harness_codex.Ledger.Types.{Uuid, Hold, HoldReceipt, DurableState}
use harness_codex.Ledger.Db.{Db}
use harness_codex.Ledger.Tx.{
  Config, Work, Result, err, ok, outdated, stale_state, refused, internal, new_id, take_id,
  modify_db, load_state, guard, gets, ◌>>=◌,
}
use harness_codex.Ledger.Leads.{
  Ends, Leads, Leads-guard, Leads-gets, Returns, Returns-bind, Returns-then, Returns-pure,
  Returns-gets, Returns-weaken, Always, Leads-Always,
}
use harness_codex.Commands.Host.{Host}
use harness_codex.Commands.Reply.{ReplyBody, Reply}
use harness_codex.Commands.Submit.{begin}
use harness_codex.Commands.Repeat.{conclude-committed, Delivers, conclude-Delivers}
use harness_codex.Holds.Scopes.{InstallRequest}
use harness_codex.Holds.Checks.{valid_install}
use harness_codex.Holds.Install.{
  Installed, replayed, installed, stored_hold, hold_clash, insert_hold, commit_hold, install_new,
  install_tx, settle_install, install_hold,
}

-- The request's operation has a row with its bytes and the receipt.
abbrev pub Recorded : InstallRequest → HoldReceipt → Db → Type 0
Recorded r x db =
    (row : Hold) × (stored_hold db r.operation_id ≡ some row)
    × (row.payload_hash ≡ r.digest)
    × (row.receipt ≡ x)

abbrev IsFresh : Uuid → Work → Type 0
IsFresh id w = stored_hold w.db id ≡ none

new_id-IsFresh : (id : Uuid) → Leads (IsFresh id) (IsFresh id) new_id
unfolding new_id
new_id-IsFresh id = record { at = λ w h. taken w.ids w h }
  where
    taken : (ids : List Uuid) (w : Work) → IsFresh id w → Ends (λ _ v. IsFresh id v) (take_id ids w)
    taken [] w h = tt
    taken (i ∷ rest) w h = h

modify_db-IsFresh :
    (id : Uuid) (f : Db → Db)
    → ((w : Work) → IsFresh id w → IsFresh id (record w { db = f w.db }))
    → Leads (IsFresh id) (IsFresh id) (modify_db f)
unfolding modify_db
modify_db-IsFresh id f h = record { at = h }

insert_hold-stores :
    (h : Hold)
    → Leads (IsFresh h.operation_id) (λ w. stored_hold w.db h.operation_id ≡ some h) (insert_hold h)
unfolding insert_hold stored_hold
insert_hold-stores h = record {
  at = λ w p. elim (Bool-cases (any (hold_clash h) w.db.administrative_holds)) [
    | inl e ↦ rw e tt
    | inr e ↦ rw e (
        find?-append_new (λ (x : Hold). x.operation_id) h.operation_id w.db.administrative_holds h p
          refl)
  ];
}

commit_hold-Recorded :
    (h : Host) (r : InstallRequest) (s : DurableState) (revision : ℕ)
    → Returns (IsFresh r.operation_id) (λ x w. Recorded r x w.db) (commit_hold h r s revision)
unfolding commit_hold stored_hold
commit_hold-Recorded h r s revision = Returns-then _ _ (Leads-gets _) λ version.
    Returns-then _ _ (new_id-IsFresh _) λ id. Returns-then _ _ (Leads-gets _) λ now.
      Returns-then _ _ (Leads-guard _ _) λ _. Returns-then _ _ (Leads-guard _ _) λ _.
        Returns-then _ _ (modify_db-IsFresh _ _ (λ w p. p)) λ _.
          Returns-then _ _ (modify_db-IsFresh _ _ (λ w p. p)) λ _.
            Returns-then _ _ (insert_hold-stores _)
              (λ _. Returns-pure _ (λ w p. (_, p, refl, refl)))

abbrev Remembers : InstallRequest → Installed → Work → Type 0
Remembers r (replayed x) w = Unit
Remembers r (installed x) w = Recorded r x w.db

install_new-Remembers :
    (h : Host) (r : InstallRequest) (s : DurableState) (o : Option Hold)
    → Returns (λ w. o ≡ stored_hold w.db r.operation_id) (Remembers r) (install_new h r s o)
install_new-Remembers h r s (some stored) =
    Returns-then _ _ (Leads-guard _ _) (λ _. Returns-pure (replayed _) (λ w p. tt))
install_new-Remembers h r s none = Returns-then _ _ (Leads-guard _ _) λ _.
    Returns-then _ _ (Leads-gets _) λ db. Returns-then _ _ (Leads-guard _ _) λ _.
      Returns-then _ _ (Leads-guard _ _) λ _. Returns-then _ _ (Leads-guard _ _) λ _.
        Returns-then _ _ (Leads-guard _ _) λ _.
          Returns-bind _ _ (Returns-weaken _ (λ w p. sym p) (commit_hold-Recorded h r s _))
            (λ x. Returns-pure (installed x) (λ w p. p))

load_state-Always : Leads Always Always load_state
load_state-Always = Leads-Always load_state

install_tx-Remembers :
    (h : Host) (r : InstallRequest) → Returns Always (Remembers r) (install_tx h r)
unfolding install_tx
install_tx-Remembers h r = Returns-then _ _ load_state-Always λ s.
    Returns-bind _ _ (Returns-gets _)
      (λ o. Returns-weaken _ (λ w p. p.1) (install_new-Remembers h r s o))

-- After the reply the request is recorded with a receipt that the reply delivers, if it does.
abbrev pub Acknowledged : InstallRequest → Reply × Db → Type 0
Acknowledged r o = (x : HoldReceipt) × Recorded r x o.1 × Delivers (ReplyBody.hold x) o.0

settle_install-Acknowledged :
    (h : Host) (r : InstallRequest) (db : Db) (o : Result (Installed × Work))
    → Ends (Remembers r) o
    → (settle_install h db o).0.committed ≡ true
    → Acknowledged r (settle_install h db o)
settle_install-Acknowledged h r db (err (outdated v s)) p q = cc
settle_install-Acknowledged h r db (err (stale_state s)) p q = cc
settle_install-Acknowledged h r db (err (refused v s)) p q = cc
settle_install-Acknowledged h r db (err internal) p q = cc
settle_install-Acknowledged h r db (ok (replayed x, w)) p q = cc
settle_install-Acknowledged h r db (ok (installed x, w)) p q = (
  x,
  rw (conclude-committed h _ db w.db q) p,
  conclude-Delivers h (ReplyBody.hold x) 201 db w.db q,
)

pub install_hold-replay :
    (c : Config) (transport : Uuid) (r : InstallRequest) (x : HoldReceipt) (h : Host) (db : Db)
    → Recorded r x db
    → (transport == c.node_id) ≡ true
    → valid_install r ≡ true
    → (r.node_id == c.node_id) ≡ true
    → install_hold c transport (some r) h db
      ≡ (record { http_status = 200; body = ReplyBody.hold x; committed = false }, db)
unfolding install_hold install_tx ◌>>=◌ gets guard load_state
install_hold-replay c transport r x h db (row, p, q, s) a b d = ground (arith, ==_refl r.digest)

-- A reply is committed only past the checks of the request.
pub entry :
    (c : Config) (transport : Uuid) (r : InstallRequest) (h : Host) (db : Db)
    → (install_hold c transport (some r) h db).0.committed ≡ true
    → ((transport == c.node_id) ≡ true)
      × (valid_install r ≡ true)
      × ((r.node_id == c.node_id) ≡ true)
      × (install_hold c transport (some r) h db
          ≡ settle_install h db (install_tx h r (begin c h db)))
unfolding install_hold
entry c transport r h db q = elim (Bool-cases (transport == c.node_id)) [
  | inr n ↦ cc
  | inl n ↦ elim (Bool-cases (valid_install r)) [
    | inr v ↦ cc
    | inl v ↦ elim (Bool-cases (r.node_id == c.node_id)) [
      | inr m ↦ cc
      | inl m ↦ (n, v, m, rw (n, v, m) refl)
    ]
  ]
]

pub install_hold-Acknowledged :
    (c : Config) (transport : Uuid) (r : InstallRequest) (h : Host) (db : Db)
    → (install_hold c transport (some r) h db).0.committed ≡ true
    → Acknowledged r (install_hold c transport (some r) h db)
install_hold-Acknowledged c transport r h db q =
    let e = (entry c transport r h db q).3 in
    rw e (
      settle_install-Acknowledged h r db (install_tx h r (begin c h db))
        ((install_tx-Remembers h r).at (begin c h db) tt) (rw e at q))
