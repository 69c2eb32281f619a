-- ===== src/Dispatch/Durable.antt =====
-- Dispatch keeps what lasts.
use harness_codex.Prelude.{
  any, ◌==◌, Bool, true, false, Option, none, some, [], ◌∷◌, ◌++◌, not, ◌&&◌, if◌then◌else◌,
  Bool-cases, inl, inr,
}
use harness_codex.Ledger.Types.{Uuid, Digest, Message, Request, policy_unavailable}
use harness_codex.Ledger.Db.{Db}
use harness_codex.Ledger.Tx.{Config, Work, Result, err, ok}
use harness_codex.Ledger.Leads.{Ends, Leads, leads_rules}
use harness_codex.Ledger.Durable.{Durable, Kept, durable_rules}
use harness_codex.Commands.Reasons.{contains_reason}
use harness_codex.Dispatch.Queue.{Candidate, peek_dispatch}
use harness_codex.Dispatch.Next.{
  Gate, blocked, Choice, moved, parked, started, keep_policy, settle_message, proved, tail_proof,
  announce, start_attempt, same_request, choose, attempt_start, dispatch_tx, finish,
  block_policy_tx, is_blocked, begin, kept, block_policy, dispatch_with, dispatch_peeked,
  dispatch_next,
}

pub kept-keeps :
    {A : Type 0} (P : Db → Type 0) (commits : Bool) (db : Db) (r : Result (A × Work))
    → P db
    → Ends (λ _ w. Kept P w) r
    → P (kept commits db r)
kept-keeps P commits db (err e) p q = p
kept-keeps P true db (ok (a, w)) p q = q
kept-keeps P false db (ok (a, w)) p q = p

module _ {P : Db → Type 0} (d : Durable P) where
  keep_policy-Kept : (hash : Digest) → Leads (Kept P) (Kept P) (keep_policy hash)
  unfolding keep_policy
  keep_policy-Kept hash = record {
    at = λ w h. elim (Bool-cases (any (λ (x : Digest). x == hash) w.db.policy_snapshots)) [
      | inl e ↦ rw e h
      | inr e ↦ rw e (d.policy_snapshots w.db (w.db.policy_snapshots ++ hash ∷ []) h)
    ];
  }

  settle_message-Kept :
      (attempt : Uuid) (m : Message) (q : Bool)
      → Leads (Kept P) (Kept P) (settle_message attempt m q)
  unfolding settle_message
  settle_message-Kept attempt m false = search leads_rules depth 10
  settle_message-Kept attempt m true = search durable_rules depth 10

  tail_proof-Kept : (g : Gate) (x m : Uuid) → Leads (Kept P) (Kept P) (tail_proof g x m)
  unfolding tail_proof
  tail_proof-Kept g x m = record { at = λ w h. found (g.tail_proof w.db x m) w h }
    where
      found : (r : Result (Option Uuid)) (w : Work) → P w.db → Ends (λ _ v. Kept P v) (proved r w)
      found (err e) w h = tt
      found (ok a) w h = h

  start_attempt-Kept :
      (g : Gate) (policy : Digest) (r : Request)
      → Leads (Kept P) (Kept P) (start_attempt g policy r)
  unfolding start_attempt announce
  start_attempt-Kept g policy r =
      search (durable_rules, keep_policy-Kept, settle_message-Kept, tail_proof-Kept) depth 40

  choose-Kept :
      (g : Gate) (policy : Digest) (c : Candidate) (o : Option Request)
      → Leads (Kept P) (Kept P) (choose g policy c o)
  choose-Kept g policy c none = search leads_rules depth 5
  choose-Kept g policy c (some r) = elim (Bool-cases (same_request r c.request)) [
    | inl e ↦ rw e (start_attempt-Kept g policy r)
    | inr e ↦ rw e (search leads_rules depth 5)
  ]

  attempt_start-Kept :
      (g : Gate) (policy : Digest) (c : Candidate) (b : Bool)
      → Leads (Kept P) (Kept P) (attempt_start g policy c b)
  attempt_start-Kept g policy c false = search leads_rules depth 5
  attempt_start-Kept g policy c true = search (leads_rules, choose-Kept) depth 10

  dispatch_tx-Kept :
      (g : Gate) (policy : Digest) (c : Candidate)
      → Leads (Kept P) (Kept P) (dispatch_tx g policy c)
  unfolding dispatch_tx
  dispatch_tx-Kept g policy c = search (durable_rules, attempt_start-Kept) depth 10

  block_policy_tx-Kept : Leads (Kept P) (Kept P) block_policy_tx
  unfolding block_policy_tx
  block_policy_tx-Kept = search durable_rules depth 20

  block_policy-keeps : (c : Config) (g : Gate) (db : Db) → P db → P (block_policy c g db)
  unfolding block_policy
  block_policy-keeps c g db p =
      elim (Bool-cases (
        is_blocked db.node_state.engine_readiness
        && contains_reason db.node_state.blocked_reasons policy_unavailable)) [
          | inl e ↦ rw e p
          | inr e ↦
              rw e (kept-keeps P g.commits db _ p (block_policy_tx-Kept.at (begin c g.ids db) p))
        ]

  finish-keeps :
      (g : Gate) (db : Db) (r : Result (Choice × Work))
      → P db
      → Ends (λ _ w. Kept P w) r
      → P (finish g db r).1
  finish-keeps g db (err e) p q = p
  finish-keeps g db (ok (moved, w)) p q = p
  finish-keeps g db (ok (parked, w)) p q = p
  finish-keeps g db (ok (started a r, w)) p q = elim (Bool-cases g.commits) [
    | inl e ↦ rw e q
    | inr e ↦ rw e p
  ]

  dispatch_with-keeps :
      (c : Config) (g : Gate) (k : Candidate) (o : Option Digest) (db : Db)
      → P db
      → P (dispatch_with c g k o db).1
  dispatch_with-keeps c g k none db p = block_policy-keeps c g db p
  dispatch_with-keeps c g k (some policy) db p =
      elim (Bool-cases (g.auth_ready && not g.settings_fenced)) [
        | inl e ↦
            rw e (finish-keeps g db _ p ((dispatch_tx-Kept g policy k).at (begin c g.ids db) p))
        | inr e ↦ rw e p
      ]

  dispatch_peeked-keeps :
      (c : Config) (g : Gate) (o : Option Candidate) (db : Db)
      → P db
      → P (dispatch_peeked c g o db).1
  dispatch_peeked-keeps c g none db p = p
  dispatch_peeked-keeps c g (some k) db p = dispatch_with-keeps c g k g.policy db p

  pub dispatch_next-keeps :
      (c : Config) (g : Gate) (seen db : Db) → P db → P (dispatch_next c g seen db).1
  unfolding dispatch_next
  dispatch_next-keeps c g seen db p = opened g.auth_open
    where
      opened :
          (open_ : Bool)
          → P (if open_ then dispatch_peeked c g (peek_dispatch seen) db else (blocked, db)).1
      opened true = dispatch_peeked-keeps c g (peek_dispatch seen) db p
      opened false = p
