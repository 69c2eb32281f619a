-- ===== src/Dispatch/History.antt =====
-- Dispatch leaves no gap in the event history.
use harness_codex.Prelude.{
  any, ◌==◌, Bool, true, false, Option, none, some, not, ◌&&◌, if◌then◌else◌, Bool-cases, inl, inr,
}
use harness_codex.Ledger.Types.{Uuid, Digest, Message, Request, policy_unavailable}
use harness_codex.Ledger.Db.{Db}
use harness_codex.Ledger.Tx.{Config, Work, Result, err, ok}
use harness_codex.Ledger.Leads.{
  Ends, Leads, Leads-pure, Leads-bind, Leads-weaken, Leads-from, leads_rules,
}
use harness_codex.Ledger.History.{History, Open, Saved, save_state-Saved, history_rules}
use harness_codex.Commands.Reasons.{contains_reason}
use harness_codex.Commands.History.{Loaded, load_state-Loaded}
use harness_codex.Dispatch.Queue.{Candidate, peek_dispatch}
use harness_codex.Dispatch.Next.{
  Gate, blocked, Choice, moved, parked, started, keep_policy, settle_message, proved, tail_proof,
  announce, start_attempt, same_request, choose, attempt_start, dispatch_tx, finish,
  block_policy_tx, is_blocked, begin, kept, block_policy, dispatch_with, dispatch_peeked,
  dispatch_next,
}

keep_policy-Open : (hash : Digest) → Leads Open Open (keep_policy hash)
unfolding keep_policy
keep_policy-Open hash = record {
  at = λ w h. elim (Bool-cases (any (λ (x : Digest). x == hash) w.db.policy_snapshots)) [
    | inl e ↦ rw e h
    | inr e ↦ rw e h
  ];
}

settle_message-Open :
    (attempt : Uuid) (m : Message) (q : Bool) → Leads Open Open (settle_message attempt m q)
unfolding settle_message
settle_message-Open attempt m false = search (leads_rules, history_rules) depth 10
settle_message-Open attempt m true = search (leads_rules, history_rules) depth 10

tail_proof-Open : (g : Gate) (d m : Uuid) → Leads Open Open (tail_proof g d m)
unfolding tail_proof
tail_proof-Open g d m = record { at = λ w h. found (g.tail_proof w.db d m) w h }
  where
    found : (r : Result (Option Uuid)) (w : Work) → Open w → Ends (λ _ v. Open v) (proved r w)
    found (err e) w h = tt
    found (ok a) w h = h

start_attempt-Saved :
    (g : Gate) (policy : Digest) (r : Request) → Leads Open Saved (start_attempt g policy r)
unfolding start_attempt announce
start_attempt-Saved g policy r =
    search
      (
        leads_rules, history_rules, keep_policy-Open, settle_message-Open, tail_proof-Open,
        Leads-from, save_state-Saved,
      )
      depth 40

choose-Saved :
    (g : Gate) (policy : Digest) (c : Candidate) (o : Option Request)
    → Leads Loaded Saved (choose g policy c o)
choose-Saved g policy c none = Leads-weaken _ (λ w p. p.0) (Leads-pure parked)
choose-Saved g policy c (some r) = elim (Bool-cases (same_request r c.request)) [
  | inl e ↦ rw e (Leads-weaken _ (λ w p. p.1) (start_attempt-Saved g policy r))
  | inr e ↦ rw e (Leads-weaken _ (λ w p. p.0) (Leads-pure moved))
]

attempt_start-Saved :
    (g : Gate) (policy : Digest) (c : Candidate) (b : Bool)
    → Leads Loaded Saved (attempt_start g policy c b)
attempt_start-Saved g policy c false = Leads-weaken _ (λ w p. p.0) (Leads-pure moved)
attempt_start-Saved g policy c true = search (leads_rules, choose-Saved) depth 10

dispatch_tx-Saved :
    (g : Gate) (policy : Digest) (c : Candidate) → Leads Saved Saved (dispatch_tx g policy c)
unfolding dispatch_tx
dispatch_tx-Saved g policy c =
    Leads-bind _ _ load_state-Loaded (λ s. attempt_start-Saved g policy c _)

block_policy_tx-Saved : Leads Open Saved block_policy_tx
unfolding block_policy_tx
block_policy_tx-Saved = search (leads_rules, history_rules, Leads-from, save_state-Saved) depth 20

pub kept-History :
    {A : Type 0} (commits : Bool) (db : Db) (r : Result (A × Work))
    → History db
    → Ends (λ _ w. Saved w) r
    → History (kept commits db r)
kept-History commits db (err e) p q = p
kept-History true db (ok (a, w)) p q = q
kept-History false db (ok (a, w)) p q = p

block_policy-History :
    (c : Config) (g : Gate) (db : Db) → History db → History (block_policy c g db)
unfolding block_policy
block_policy-History c g db p =
    elim (Bool-cases (
      is_blocked db.node_state.engine_readiness
      && contains_reason db.node_state.blocked_reasons policy_unavailable)) [
        | inl e ↦ rw e p
        | inr e ↦
            rw e (kept-History g.commits db _ p (block_policy_tx-Saved.at (begin c g.ids db) p))
      ]

finish-History :
    (g : Gate) (db : Db) (r : Result (Choice × Work))
    → History db
    → Ends (λ _ w. Saved w) r
    → History (finish g db r).1
finish-History g db (err e) p q = p
finish-History g db (ok (moved, w)) p q = p
finish-History g db (ok (parked, w)) p q = p
finish-History g db (ok (started a r, w)) p q = elim (Bool-cases g.commits) [
  | inl e ↦ rw e q
  | inr e ↦ rw e p
]

dispatch_with-History :
    (c : Config) (g : Gate) (k : Candidate) (o : Option Digest) (db : Db)
    → History db
    → History (dispatch_with c g k o db).1
dispatch_with-History c g k none db p = block_policy-History c g db p
dispatch_with-History c g k (some policy) db p =
    elim (Bool-cases (g.auth_ready && not g.settings_fenced)) [
      | inl e ↦
          rw e (finish-History g db _ p ((dispatch_tx-Saved g policy k).at (begin c g.ids db) p))
      | inr e ↦ rw e p
    ]

dispatch_peeked-History :
    (c : Config) (g : Gate) (o : Option Candidate) (db : Db)
    → History db
    → History (dispatch_peeked c g o db).1
dispatch_peeked-History c g none db p = p
dispatch_peeked-History c g (some k) db p = dispatch_with-History c g k g.policy db p

-- Whatever the dispatcher saw before and whatever the rest of the node answers, one round of it
-- leaves the ledger with the events numbered from one on without a gap, if they were so before.
pub dispatch_next-History :
    (c : Config) (g : Gate) (seen db : Db) → History db → History (dispatch_next c g seen db).1
unfolding dispatch_next
dispatch_next-History c g seen db p = opened g.auth_open
  where
    opened :
        (open_ : Bool)
        → History (if open_ then dispatch_peeked c g (peek_dispatch seen) db else (blocked, db)).1
    opened true = dispatch_peeked-History c g (peek_dispatch seen) db p
    opened false = p
