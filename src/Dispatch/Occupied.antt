-- ===== src/Dispatch/Occupied.antt =====
-- A round of the dispatcher on a node whose slot is taken.
use harness_codex.Prelude.{
  ℕ, ◌+◌, ◌≡◌, refl, sym, subst, Bool, true, false, not, ◌&&◌, arith, Option, none, some, [], ◌∷◌,
  ◌++◌, ◌==◌, any, Bool-cases, inl, inr, if◌then◌else◌,
}
use harness_codex.Ledger.Types.{Uuid, Digest}
use harness_codex.Ledger.Db.{Db, Payload}
use harness_codex.Ledger.Tx.{
  Config, Work, Result, err, ok, modify_state, load_state, save_state, ◌>>=◌, pure,
}
use harness_codex.Ledger.Events.{new_event, event_clash, append_event, append_node_event}
use harness_codex.Ledger.Leads.{Ends, Leads, Leads-then}
use harness_codex.Ledger.Frame.{push-keeps}
use harness_codex.Commands.Reasons.{contains_reason}
use harness_codex.Ledger.Types.{policy_unavailable}
use harness_codex.Dispatch.Queue.{is_occupied, Candidate, peek_dispatch}
use harness_codex.Dispatch.Next.{
  Gate, DispatchResult, blocked, begin, kept, is_blocked, finish, attempt_start, dispatch_tx,
  block_policy_tx, block_policy, dispatch_with, dispatch_peeked, dispatch_next,
}

-- The ledger has the same attempts, requests and control actions, and the node the same active attempt.
abbrev pub SameAttempts : Db → Db → Type 0
SameAttempts db after =
    (after.attempts ≡ db.attempts)
    × (after.requests ≡ db.requests)
    × (after.control_actions ≡ db.control_actions)
    × (after.node_state.active_attempt_id ≡ db.node_state.active_attempt_id)

-- The same of a running transaction, whose state is in memory
abbrev Idle : Db → Work → Type 0
Idle db w =
    (w.db.attempts ≡ db.attempts)
    × (w.db.requests ≡ db.requests)
    × (w.db.control_actions ≡ db.control_actions)
    × (w.state.active_attempt_id ≡ db.node_state.active_attempt_id)

append_event-Idle :
    (db : Db) (entity : Uuid) (version : ℕ) (attempt dialog : Option Uuid) (payload : Payload)
    (late : Bool)
    → Leads (Idle db) (Idle db) (append_event entity version attempt dialog payload late)
unfolding append_event
append_event-Idle db entity version attempt dialog payload late = record {
  at = λ w h.
      let e = new_event entity version attempt dialog payload late w in
      push-keeps (Idle db) (w.config.validates e) (any (event_clash e) w.db.events)
        (record w {
          db = record w.db { events = w.db.events ++ e ∷ [] };
          state = record w.state { last_event_seq = w.state.last_event_seq + 1 };
        })
        h;
}

append_node_event-Idle : (db : Db) → Leads (Idle db) (Idle db) append_node_event
unfolding append_node_event
append_node_event-Idle db = record { at = λ w h. (append_event-Idle db _ _ _ _ _ _).at w h }

block_policy_tx-Idle : (db : Db) → Leads (Idle db) (λ w. SameAttempts db w.db) block_policy_tx
unfolding block_policy_tx modify_state save_state
block_policy_tx-Idle db =
    Leads-then _ _ (record { at = λ w h. h })
      λ _. Leads-then _ _ (append_node_event-Idle db) (λ _. record { at = λ w h. h })

kept-SameAttempts :
    {A : Type 0} (commits : Bool) (db : Db) (r : Result (A × Work))
    → Ends (λ _ w. SameAttempts db w.db) r
    → SameAttempts db (kept commits db r)
kept-SameAttempts commits db (err e) h = (refl, refl, refl, refl)
kept-SameAttempts true db (ok (a, w)) h = h
kept-SameAttempts false db (ok (a, w)) h = (refl, refl, refl, refl)

block_policy-SameAttempts :
    (c : Config) (g : Gate) (db : Db) → SameAttempts db (block_policy c g db)
unfolding block_policy
block_policy-SameAttempts c g db =
    elim (Bool-cases (
      is_blocked db.node_state.engine_readiness
      && contains_reason db.node_state.blocked_reasons policy_unavailable)) [
        | inl e ↦ rw e (refl, refl, refl, refl)
        | inr e ↦ rw e (
            kept-SameAttempts g.commits db (block_policy_tx (begin c g.ids db))
              ((block_policy_tx-Idle db).at (begin c g.ids db) (refl, refl, refl, refl)))
      ]

finish-moved :
    (g : Gate) (policy : Digest) (candidate : Candidate) (db : Db) (start : Bool) (w : Work)
    → start ≡ false
    → (finish g db (attempt_start g policy candidate start w)).1 ≡ db
unfolding pure
finish-moved g policy candidate db true w e = cc
finish-moved g policy candidate db false w e = refl

and_not : (b o : Bool) → o ≡ true → (b && not o) ≡ false
and_not b o e = ground arith

either-SameAttempts :
    (b : Bool) (db : Db) (x y : DispatchResult × Db)
    → SameAttempts db x.1
    → SameAttempts db y.1
    → SameAttempts db (if b then x else y).1
either-SameAttempts true db x y p q = p
either-SameAttempts false db x y p q = q

-- The transaction sees that the slot is taken and writes nothing.
finish-occupied :
    (c : Config) (g : Gate) (policy : Digest) (candidate : Candidate) (db : Db)
    → is_occupied db.node_state ≡ true
    → (finish g db (dispatch_tx g policy candidate (begin c g.ids db))).1 ≡ db
unfolding dispatch_tx load_state ◌>>=◌
finish-occupied c g policy candidate db o =
    finish-moved g policy candidate db
      (db.node_state.state_version == candidate.state_version && not (is_occupied db.node_state))
      (begin c g.ids db) (and_not _ _ o)

dispatch_with-occupied :
    (c : Config) (g : Gate) (candidate : Candidate) (policy : Option Digest) (db : Db)
    → is_occupied db.node_state ≡ true
    → SameAttempts db (dispatch_with c g candidate policy db).1
dispatch_with-occupied c g candidate none db o = block_policy-SameAttempts c g db
dispatch_with-occupied c g candidate (some policy) db o =
    either-SameAttempts (g.auth_ready && not g.settings_fenced) db _ (blocked, db)
      (subst (λ after. SameAttempts db after) (sym (finish-occupied c g policy candidate db o))
        (refl, refl, refl, refl))
      (refl, refl, refl, refl)

dispatch_peeked-occupied :
    (c : Config) (g : Gate) (peeked : Option Candidate) (db : Db)
    → is_occupied db.node_state ≡ true
    → SameAttempts db (dispatch_peeked c g peeked db).1
dispatch_peeked-occupied c g none db o = (refl, refl, refl, refl)
dispatch_peeked-occupied c g (some candidate) db o =
    dispatch_with-occupied c g candidate g.policy db o

-- A round on a node whose slot is taken starts nothing.
pub dispatch_next-occupied :
    (c : Config) (g : Gate) (seen db : Db)
    → is_occupied db.node_state ≡ true
    → SameAttempts db (dispatch_next c g seen db).1
unfolding dispatch_next
dispatch_next-occupied c g seen db o =
    either-SameAttempts g.auth_open db _ (blocked, db)
      (dispatch_peeked-occupied c g (peek_dispatch seen) db o) (refl, refl, refl, refl)
