-- ===== src/Commands/Repeat.antt =====
-- A command that is submitted again.
use harness_codex.Prelude.{
  ℕ, Bool, ◌≡◌, refl, true, false, Option, none, some, ◌==◌, Bool-cases, inl, inr, ◌⊎◌, arith,
}
use harness_codex.Ledger.Types.{Uuid}
use harness_codex.Ledger.Wire.{Envelope}
use harness_codex.Ledger.Db.{Db, CommandRow, CommandRejection}
use harness_codex.Ledger.Tx.{
  Config, Work, Code, outdated, stale_state, refused, internal, Result, err, ok, load_state, ◌>>=◌,
}
use harness_codex.Ledger.Leads.{
  Ends, Leads, Leads-gets, Leads-guard, Returns, Returns-bind, Returns-then, Returns-pure,
}
use harness_codex.Ledger.Durable.{command_row, rejection_row}
use harness_codex.Commands.Lookup.{Stored, accepted, rejected, load_outcome, one_outcome}
use harness_codex.Commands.Host.{Host, Trust}
use harness_codex.Commands.Reply.{Reply, ReplyBody, conclude}
use harness_codex.Commands.Submit.{
  Verdict, replayed, admitted, held, decide, command_tx, settle, begin, is_delete, submit_command,
}
use harness_codex.Commands.Outcomes.{accepted_row, rejected_row, Stores, command_tx-Stores}

abbrev IsSome : Option Stored → Type 0
IsSome none = ⊥
IsSome (some o) = Unit {0}

abbrev IsReplay : Verdict → Work → Type 0
IsReplay (replayed o) w = Unit {0}
IsReplay (admitted r) w = ⊥
IsReplay (held r) w = ⊥

abbrev pub IsKnown : Uuid → Db → Type 0
IsKnown id db =
    ((r : CommandRow) × (command_row id db ≡ some r))
    ⊎ ((r : CommandRejection) × (rejection_row id db ≡ some r))

known_outcome :
    (a : Option CommandRow) (r : Option CommandRejection) (w : Work)
    → ((x : CommandRow) × (a ≡ some x)) ⊎ ((x : CommandRejection) × (r ≡ some x))
    → Ends (λ o _. IsSome o) (one_outcome a r w)
unfolding ◌>>=◌
known_outcome none none w (inl (x, p)) = cc
known_outcome none none w (inr (x, p)) = cc
known_outcome (some a) none w p = tt
known_outcome none (some r) w p = tt
known_outcome (some a) (some r) w p = tt

load_outcome-IsKnown :
    (id : Uuid) → Returns (λ w. IsKnown id w.db) (λ o _. IsSome o) (load_outcome id)
unfolding load_outcome
load_outcome-IsKnown id = record { at = λ w h. known_outcome _ _ w h }

decide-replays :
    (h : Host) (e : Envelope) (o : Option Stored) → Returns (λ _. IsSome o) IsReplay (decide h e o)
decide-replays h e (some o) = Returns-then _ _ (Leads-guard _ _) λ _.
    Returns-then _ _ (Leads-gets _)
      λ db. Returns-then _ _ (Leads-guard _ _) (λ _. Returns-pure (replayed o) (λ w p. tt))
decide-replays h e none = record { at = λ w p. absurd p }

load_state-IsKnown : (id : Uuid) → Leads (λ w. IsKnown id w.db) (λ w. IsKnown id w.db) load_state
unfolding load_state
load_state-IsKnown id = record { at = λ w h. h }

command_tx-replays :
    (t : Trust) (h : Host) (e : Envelope)
    → Returns (λ w. IsKnown e.command_id w.db) IsReplay (command_tx t h e)
unfolding command_tx
command_tx-replays t h e = Returns-then _ _ (load_state-IsKnown e.command_id) λ s.
    Returns-then _ _ (Leads-gets _) λ c.
      Returns-then _ _ (Leads-guard _ _)
        λ _. Returns-bind _ _ (load_outcome-IsKnown e.command_id) (λ o. decide-replays h e o)

settle-replay :
    (h : Host) (db : Db) (r : Result (Verdict × Work)) → Ends IsReplay r → (settle h db r).1 ≡ db
settle-replay h db (err e) p = refl
settle-replay h db (ok (replayed o, w)) p = refl
settle-replay h db (ok (admitted r, w)) p = absurd p
settle-replay h db (ok (held r, w)) p = absurd p

-- A submission of an identifier whose outcome is stored changes nothing.
pub submit_command-known :
    (c : Config) (t : Trust) (e : Envelope) (h : Host) (db : Db)
    → IsKnown e.command_id db
    → (submit_command c t (some e) h db).1 ≡ db
unfolding submit_command
submit_command-known c t e h db p = ground (
  arith,
  settle-replay h db (command_tx t h e (begin c h db))
      ((command_tx-replays t h e).at (begin c h db) p),
)

pub conclude-committed :
    (h : Host) (r : Reply) (before after : Db)
    → (conclude h r before after).0.committed ≡ true
    → (conclude h r before after).1 ≡ after
conclude-committed h r before after q = ground arith

settle-Stores :
    (e : Envelope) (h : Host) (db : Db) (r : Result (Verdict × Work))
    → Ends (Stores e) r
    → (settle h db r).0.committed ≡ true
    → IsKnown e.command_id (settle h db r).1
settle-Stores e h db (err (outdated v s)) p q = cc
settle-Stores e h db (err (stale_state s)) p q = cc
settle-Stores e h db (err (refused v s)) p q = cc
settle-Stores e h db (err internal) p q = cc
settle-Stores e h db (ok (replayed (accepted r), w)) p q = cc
settle-Stores e h db (ok (replayed (rejected r), w)) p q = cc
settle-Stores e h db (ok (admitted r, w)) p q =
    rw (conclude-committed h _ db w.db q) (inl (accepted_row e r, p.0))
settle-Stores e h db (ok (held r, w)) p q =
    rw (conclude-committed h _ db w.db q) (inr (rejected_row e p.0 r, p.1.1))

pub submit_command-stores :
    (c : Config) (t : Trust) (e : Envelope) (h : Host) (db : Db)
    → (submit_command c t (some e) h db).0.committed ≡ true
    → IsKnown e.command_id (submit_command c t (some e) h db).1
unfolding submit_command
submit_command-stores c t e h db q = elim (Bool-cases (t.transport_node_id == c.node_id)) [
  | inr n ↦ cc
  | inl n ↦ elim (Bool-cases (is_delete e.body)) [
    | inl d ↦ cc (rw (n, d) at q)
    | inr d ↦
        rw (n, d)
          (settle-Stores e h db (command_tx t h e (begin c h db))
            ((command_tx-Stores t h e).at (begin c h db) tt) (rw (n, d) at q))
  ]
]

-- A reply that was committed: the receipt, or the notice that its delivery was interrupted.
abbrev pub Delivers : ReplyBody → Reply → Type 0
Delivers b r = (r.body ≡ b) ⊎ (r.body ≡ ReplyBody.error Code.node_unavailable)

pub conclude-Delivers :
    (h : Host) (b : ReplyBody) (status : ℕ) (before after : Db)
    → let r : Reply = record { http_status = status; body = b; committed = true } in
      (conclude h r before after).0.committed ≡ true → Delivers b (conclude h r before after).0
conclude-Delivers h b status before after =
    ended h.fault_before_commit h.commits h.fault_after_commit
  where
    ended :
        (f c g : Bool)
        → let r : Reply = record { http_status = status; body = b; committed = true } in
          let k = record h { fault_before_commit = f; commits = c; fault_after_commit = g } in
          (conclude k r before after).0.committed ≡ true → Delivers b (conclude k r before after).0
    ended true c g e = cc
    ended false false g e = cc
    ended false true true e = inr refl
    ended false true false e = inl refl
