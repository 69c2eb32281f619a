-- ===== src/Holds/Soundness.antt =====
-- A quiescence proof is given only for a scope that is held and parked.
use harness_codex.Prelude.{
  ℕ, ◌≡◌, refl, subst, ◌∙◌, Bool, true, false, ◌&&◌, not, Option, none, some, List, ◌==◌, map,
  first-passes, IsRow, arith,
}
use harness_codex.Ledger.Types.{Uuid, Scope, Request, Hold, DurableState}
use harness_codex.Ledger.Db.{Db}
use harness_codex.Ledger.Tx.{Work, load_state, ok}
use harness_codex.Ledger.Leads.{
  Ends, Leads, Leads-guard, Leads-gets, Leads-test, Returns, Returns-fail, Returns-pure,
  Returns-gets, Returns-bind, Returns-then,
}
use harness_codex.Commands.Lookup.{active_hold}
use harness_codex.Holds.Quiescence.{
  QuiescenceProof, Checkpoint, active_named, parked_requests, proof_of, prove_settled, prove_held,
  quiescence_proof,
}
use harness_codex.Holds.Settled.{Parked, quiet-Parked}
use harness_codex.Holds.Listing.{
  InOrder, Waits, parked_requests-InOrder, parked_requests-Waits, parked_requests-has,
}

-- The identifiers are those of the waiting requests of the scope, in the order of the queue.
abbrev pub Lists : List Request → Scope → List Uuid → Type 0
Lists requests s ids =
    (rs : List Request) × (ids ≡ map (λ (r : Request). r.request_id) rs)
    × InOrder rs
    × ((r : Request) → IsRow r rs → IsRow r requests × Waits s r)
    × ((r : Request) → IsRow r requests → Waits s r → IsRow r rs)

-- What the proof claims holds of the ledger.
abbrev pub Proves : Db → Uuid → QuiescenceProof → Type 0
Proves db operation p =
    ((h : Hold) × IsRow h db.administrative_holds
      × (h.operation_id ≡ operation)
      × (active_hold db p.node_id h ≡ true)
      × (h.scope ≡ p.scope)
      × (h.hold_version ≡ p.hold_version)
      × (h.scope_revision ≡ p.scope_revision))
    × Parked db p.node_id p.scope
    × Lists db.requests p.scope p.parked

-- The hold that the query finds
abbrev Found : Db → Uuid → Uuid → Hold → Type 0
Found db node operation h =
    IsRow h db.administrative_holds × (h.operation_id ≡ operation) × (active_hold db node h ≡ true)

listed :
    (s : Scope) (rs : List Request)
    → Lists rs s (map (λ (r : Request). r.request_id) (parked_requests s rs))
listed s rs = (
  parked_requests s rs,
  refl,
  parked_requests-InOrder s rs,
  parked_requests-Waits s rs,
  parked_requests-has s rs,
)

is_quiet : (b : Bool) → not b ≡ true → b ≡ false
is_quiet b h = ground arith

is_zero : (n : ℕ) → (n == 0) ≡ true → n ≡ 0
is_zero n h = ground arith

prove_settled-Proves :
    (s : DurableState) (db : Db) (operation : Uuid) (h : Hold) (c : Option Checkpoint)
    → Found db s.node_id operation h
    → Returns (λ w. Unit {0}) (λ p w. Proves db operation p) (prove_settled s db h c)
prove_settled-Proves s db operation h none f = Returns-fail _
prove_settled-Proves s db operation h (some c) f = Returns-then _ _ (Leads-test _ _) λ _.
    Returns-then _ _ (Leads-test _ _) λ _. Returns-then _ _ (Leads-guard _ _) λ _.
      Returns-pure (proof_of s h c db) λ w p. (
        (h, f.0, f.1, f.2, refl, refl, refl),
        quiet-Parked db s.node_id h.scope (is_quiet _ p.0.1) (is_zero _ p.1),
        listed h.scope db.requests,
      )

prove_held-Proves :
    (checkpoint : Scope → Option Checkpoint) (s : DurableState) (db : Db) (operation : Uuid)
    (o : Option Hold)
    → ((h : Hold) → o ≡ some h → Found db s.node_id operation h)
    → Returns (λ w. Unit {0}) (λ p w. Proves db operation p) (prove_held checkpoint s db o)
prove_held-Proves checkpoint s db operation none f = Returns-fail _
prove_held-Proves checkpoint s db operation (some h) f = Returns-then _ _ (Leads-guard _ _) λ _.
    Returns-then _ _ (Leads-guard _ _)
      (λ _. prove_settled-Proves s db operation h (checkpoint h.scope) (f h refl))

active_named-Found :
    (db : Db) (node operation : Uuid) (h : Hold)
    → active_named db node operation ≡ some h
    → Found db node operation h
unfolding active_named
active_named-Found db node operation h e =
    let p =
      first-passes (λ (x : Hold). x.operation_id == operation && active_hold db node x)
        db.administrative_holds h e in
    (p.0, ground (arith, p.1), ground (arith, p.1))

load_state-same : (db : Db) → Leads (λ w. w.db ≡ db) (λ w. w.db ≡ db) load_state
unfolding load_state
load_state-same db = record { at = λ w p. p }

quiescence_proof-Returns :
    (db : Db) (transport operation : Uuid) (checkpoint : Scope → Option Checkpoint)
    → Returns
        (λ w. w.db ≡ db)
        (λ p w. Proves db operation p)
        (quiescence_proof transport operation checkpoint)
unfolding quiescence_proof
quiescence_proof-Returns db transport operation checkpoint = Returns-then _ _ (Leads-gets _) λ c.
    Returns-then _ _ (Leads-guard _ _) λ _.
      Returns-then _ _ (load_state-same db) λ s. Returns-bind _ _ (Returns-gets _) (λ d. read s d)
  where
    read :
        (s : DurableState) (d : Db)
        → Returns
            (λ w. (w.db ≡ db) × (d ≡ w.db))
            (λ p w. Proves db operation p)
            (prove_held checkpoint s d (active_named d s.node_id operation))
    read s d = record {
      at = λ w p.
          subst
            (λ x.
              Ends (λ (q : QuiescenceProof) (u : Work). Proves x operation q)
                (prove_held checkpoint s d (active_named d s.node_id operation) w))
            (p.1 ∙ p.0)
            ((prove_held-Proves checkpoint s d operation _
                (λ h. active_named-Found d s.node_id operation h)).at
              w tt);
    }

-- A quiescence proof is sound: when one is given, the operation's hold is active on the proof's node
-- with the scope, the version and the revision that the proof names; every attempt of the node in that
-- scope has ended with a certain effect; no request in it is dispatching, active or unknown; every
-- control action, tool call, approval and input request of such an attempt is settled; and the proof
-- lists the requests that wait in the scope, exactly them, in the order of the queue.
pub quiescence_proof-Proves :
    (transport operation : Uuid) (checkpoint : Scope → Option Checkpoint) (w v : Work)
    (p : QuiescenceProof)
    → quiescence_proof transport operation checkpoint w ≡ ok (p, v)
    → Proves w.db operation p
quiescence_proof-Proves transport operation checkpoint w v p e =
    subst (Ends (λ (q : QuiescenceProof) (u : Work). Proves w.db operation q)) (e)
      ((quiescence_proof-Returns w.db transport operation checkpoint).at w refl)
