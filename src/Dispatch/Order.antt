-- ===== src/Dispatch/Order.antt =====
-- Which request the dispatcher starts.
use harness_codex.Prelude.{
  ℕ, ◌≡◌, refl, List, ◌∷◌, ◌++◌, [], any, ◌+◌, Bool, true, false, Option, none, some, not, ◌&&◌,
  if◌then◌else◌, Bool-cases, inl, inr, arith, IsLeast, least-IsLeast,
}
use harness_codex.Ledger.Types.{Uuid, Digest, Request}
use harness_codex.Ledger.Db.{Db, Payload}
use harness_codex.Ledger.Tx.{
  Config, Work, Result, err, ok, Tx, pure, modify_state, load_state, save_state, gets, ◌>>=◌,
}
use harness_codex.Ledger.Statements.{insert_action}
use harness_codex.Ledger.Events.{
  new_event, event_clash, append_event, append_node_event, append_queue_event,
}
use harness_codex.Ledger.Leads.{
  Ends, Leads, Always, Leads-Always, Returns, Returns-then, Returns-pure,
}
use harness_codex.Ledger.Frame.{unless-keeps, push-keeps}
use harness_codex.Dispatch.Queue.{Candidate, peek_dispatch, may_run, next_request, is_occupied}
use harness_codex.Dispatch.Next.{
  Gate, DispatchResult, dispatching, unknown, failed, blocked, Choice, moved, parked, started,
  proved, tail_proof, announce, start_attempt, occupy, same_request, choose, attempt_start,
  dispatch_tx, finish, begin, dispatch_with, dispatch_peeked, dispatch_next,
}

-- The running transaction has given the node's slot to the attempt.
abbrev Slot : Uuid → Work → Type 0
Slot a w = w.state.active_attempt_id ≡ some a

abbrev SlotSaved : Uuid → Work → Type 0
SlotSaved a w = w.db.node_state.active_attempt_id ≡ some a

append_event-Slot :
    (a : Uuid) (entity : Uuid) (version : ℕ) (attempt dialog : Option Uuid) (payload : Payload)
    (late : Bool)
    → Leads (Slot a) (Slot a) (append_event entity version attempt dialog payload late)
unfolding append_event
append_event-Slot a entity version attempt dialog payload late = record {
  at = λ w h.
      let e = new_event entity version attempt dialog payload late w in
      push-keeps (Slot a) (w.config.validates e) (any (event_clash e) w.db.events)
        (record w {
          db = record w.db { events = w.db.events ++ e ∷ [] };
          state = record w.state { last_event_seq = w.state.last_event_seq + 1 };
        })
        h;
}

append_node_event-Slot : (a : Uuid) → Leads (Slot a) (Slot a) append_node_event
unfolding append_node_event
append_node_event-Slot a = record { at = λ w h. (append_event-Slot a _ _ _ _ _ _).at w h }

append_queue_event-Slot : (a : Uuid) → Leads (Slot a) (Slot a) append_queue_event
unfolding append_queue_event
append_queue_event-Slot a = record { at = λ w h. (append_event-Slot a _ _ _ _ _ _).at w h }

tail_proof-Slot : (a : Uuid) (g : Gate) (d m : Uuid) → Leads (Slot a) (Slot a) (tail_proof g d m)
unfolding tail_proof
tail_proof-Slot a g d m = record { at = λ w h. found (g.tail_proof w.db d m) w h }
  where
    found : (r : Result (Option Uuid)) (w : Work) → Slot a w → Ends (λ _ v. Slot a v) (proved r w)
    found (err e) w h = tt
    found (ok x) w h = h

occupy-Slot : (a : Uuid) → Leads Always (Slot a) (modify_state (occupy a))
unfolding modify_state
occupy-Slot a = record { at = λ w h. refl }

insert_action-Slot : (a : Uuid) (c : _) → Leads (Slot a) (Slot a) (insert_action c)
unfolding insert_action
insert_action-Slot a c = record { at = λ w h. unless-keeps (Slot a) _ _ h }

save_state-Slot : (a : Uuid) → Leads (Slot a) (SlotSaved a) save_state
unfolding save_state
save_state-Slot a = record { at = λ w h. h }

-- A start is for the request `r`, and its attempt has the node's slot.
abbrev IsStart : Request → Choice → Work → Type 0
IsStart r moved w = Unit
IsStart r parked w = Unit
IsStart r (started a id) w = (id ≡ r.request_id) × SlotSaved a w

announce-IsStart :
    (g : Gate) (policy : Digest) (r : Request) (a : Uuid) (generation : ℕ)
    → Returns (Slot a) (IsStart r) (announce g policy r a generation)
unfolding announce
announce-IsStart g policy r a generation = Returns-then _ _ (append_event-Slot a _ _ _ _ _ _) λ _.
    Returns-then _ _ (append_queue_event-Slot a) λ _.
      Returns-then _ _ (append_node_event-Slot a) λ _.
        Returns-then _ _ (tail_proof-Slot a g _ _) λ proof.
          Returns-then _ _ (insert_action-Slot a _)
            λ _. Returns-then _ _ (save_state-Slot a) (λ _. Returns-pure _ (λ w h. (refl, h)))

start_attempt-IsStart :
    (g : Gate) (policy : Digest) (r : Request)
    → Returns Always (IsStart r) (start_attempt g policy r)
unfolding start_attempt
start_attempt-IsStart g policy r = Returns-then _ _ (Leads-Always _) λ m.
    Returns-then _ _ (Leads-Always _) λ a. Returns-then _ _ (Leads-Always _) λ generation.
      Returns-then _ _ (Leads-Always _) λ _. Returns-then _ _ (Leads-Always _) λ s.
        Returns-then _ _ (Leads-Always _) λ _. Returns-then _ _ (Leads-Always _) λ now.
          Returns-then _ _ (Leads-Always _) λ _.
            Returns-then _ _ (Leads-Always _)
              λ _. Returns-then _ _ (occupy-Slot a) λ _. announce-IsStart g policy r a generation

-- A start, if it happens, is for the oldest request of `db` that may run, on an idle node.
abbrev IsDue : Db → Choice → Work → Type 0
IsDue db moved w = Unit
IsDue db parked w = Unit
IsDue db (started a id) w =
    (is_occupied db.node_state ≡ false)
    × (r : Request) × (id ≡ r.request_id)
    × IsLeast (may_run db db.node_state.node_id) (λ (x : Request). x.queue_sequence) r db.requests
    × SlotSaved a w

IsStart-IsDue :
    (db : Db) (r : Request) (x : Choice) (w : Work)
    → is_occupied db.node_state ≡ false
    → next_request db db.node_state.node_id ≡ some r
    → IsStart r x w
    → IsDue db x w
unfolding next_request
IsStart-IsDue db r moved w f e h = tt
IsStart-IsDue db r parked w f e h = tt
IsStart-IsDue db r (started a id) w f e h = (f, r, h.0, least-IsLeast _ _ _ r e, h.1)

module _ {A : Type 0} {P : Work → Type 0} {Q R : A → Work → Type 0} where
  Returns-weaken : (m : Tx A) → ((a : A) (w : Work) → Q a w → R a w) → Returns P Q m → Returns P R m
  Returns-weaken m weaker h = record { at = λ w p. ended (m w) (h.at w p) }
    where
      ended : (r : Result (A × Work)) → Ends Q r → Ends R r
      ended (err e) q = tt
      ended (ok (a, w)) q = weaker a w q

choose-IsDue :
    (g : Gate) (policy : Digest) (k : Candidate) (w : Work) (o : Option Request)
    → is_occupied w.db.node_state ≡ false
    → next_request w.db w.db.node_state.node_id ≡ o
    → Ends (IsDue w.db) (choose g policy k o w)
unfolding pure
choose-IsDue g policy k w none f e = tt
choose-IsDue g policy k w (some r) f e = elim (Bool-cases (same_request r k.request)) [
  | inl q ↦ rw q (
      (Returns-weaken (start_attempt g policy r) (λ x v. IsStart-IsDue w.db r x v f e)
          (start_attempt-IsStart g policy r)).at
        w tt)
  | inr q ↦ rw q tt
]

attempt_start-IsDue :
    (g : Gate) (policy : Digest) (k : Candidate) (c : Config) (ids : List Uuid) (db : Db) (b : Bool)
    → (b ≡ true → is_occupied db.node_state ≡ false)
    → Ends (IsDue db) (attempt_start g policy k b (begin c ids db))
unfolding ◌>>=◌ gets pure
attempt_start-IsDue g policy k c ids db false f = tt
attempt_start-IsDue g policy k c ids db true f =
    choose-IsDue g policy k (begin c ids db) _ (f refl) refl

dispatch_tx-IsDue :
    (g : Gate) (policy : Digest) (k : Candidate) (c : Config) (db : Db)
    → Ends (IsDue db) (dispatch_tx g policy k (begin c g.ids db))
unfolding dispatch_tx ◌>>=◌ load_state
dispatch_tx-IsDue g policy k c db = attempt_start-IsDue g policy k c g.ids db _ (λ q. ground arith)

-- What a round that dispatches says of the ledger before it and after it.
pub record Dispatched (db after : Db) (attempt request : Uuid) : Type 0 where
  pub idle : is_occupied db.node_state ≡ false
  pub due : Request
  pub is_due : due.request_id ≡ request
  pub oldest :
      IsLeast (may_run db db.node_state.node_id) (λ (x : Request). x.queue_sequence) due db.requests
  pub holds : after.node_state.active_attempt_id ≡ some attempt

ended-Dispatched :
    (commits fault : Bool) (db : Db) (b r a id : Uuid) (w : Work)
    → IsDue db (started b r) w
    → let end : DispatchResult × Db =
        if commits then (if fault then unknown b r else dispatching b r, w.db) else (failed, db) in
      end.0 ≡ dispatching a id → Dispatched db end.1 a id
ended-Dispatched true true db b r a id w h q = cc
ended-Dispatched false fault db b r a id w h q = cc
ended-Dispatched true false db b r a id w (f, due, e, least, s) q = record {
  idle = f;
  due = due;
  is_due = cc;
  oldest = least;
  holds = cc;
}

finish-Dispatched :
    (g : Gate) (db : Db) (r : Result (Choice × Work)) (a id : Uuid)
    → Ends (IsDue db) r
    → (finish g db r).0 ≡ dispatching a id
    → Dispatched db (finish g db r).1 a id
finish-Dispatched g db (err e) a id h q = cc
finish-Dispatched g db (ok (moved, w)) a id h q = cc
finish-Dispatched g db (ok (parked, w)) a id h q = cc
finish-Dispatched g db (ok (started b r, w)) a id h q =
    ended-Dispatched g.commits g.fault_after_commit db b r a id w h q

dispatch_with-Dispatched :
    (c : Config) (g : Gate) (k : Candidate) (o : Option Digest) (db : Db) (a id : Uuid)
    → (dispatch_with c g k o db).0 ≡ dispatching a id
    → Dispatched db (dispatch_with c g k o db).1 a id
dispatch_with-Dispatched c g k none db a id q = cc
dispatch_with-Dispatched c g k (some policy) db a id q =
    entered (g.auth_ready && not g.settings_fenced) q
  where
    entered :
        (b : Bool)
        → let end : DispatchResult × Db =
            if b then finish g db (dispatch_tx g policy k (begin c g.ids db)) else (blocked, db) in
          end.0 ≡ dispatching a id → Dispatched db end.1 a id
    entered true q = finish-Dispatched g db _ a id (dispatch_tx-IsDue g policy k c db) q
    entered false q = cc

dispatch_peeked-Dispatched :
    (c : Config) (g : Gate) (o : Option Candidate) (db : Db) (a id : Uuid)
    → (dispatch_peeked c g o db).0 ≡ dispatching a id
    → Dispatched db (dispatch_peeked c g o db).1 a id
dispatch_peeked-Dispatched c g none db a id q = cc
dispatch_peeked-Dispatched c g (some k) db a id q =
    dispatch_with-Dispatched c g k g.policy db a id q

-- A round that reports an attempt at a request as dispatching ran on a ledger whose queue was neither
-- paused nor empty and whose slot was free; the request is, of the queued requests that no active
-- hold covers, one with the lowest queue number; and the attempt now has the slot. The ledger that
-- the candidate was chosen on may be an older one.
pub dispatch_next-Dispatched :
    (c : Config) (g : Gate) (seen db : Db) (a id : Uuid)
    → (dispatch_next c g seen db).0 ≡ dispatching a id
    → Dispatched db (dispatch_next c g seen db).1 a id
unfolding dispatch_next
dispatch_next-Dispatched c g seen db a id q = opened g.auth_open q
  where
    opened :
        (b : Bool)
        → let end : DispatchResult × Db =
            if b then dispatch_peeked c g (peek_dispatch seen) db else (blocked, db) in
          end.0 ≡ dispatching a id → Dispatched db end.1 a id
    opened true q = dispatch_peeked-Dispatched c g (peek_dispatch seen) db a id q
    opened false q = cc
