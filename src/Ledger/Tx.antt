-- ===== src/Ledger/Tx.antt =====
-- A transaction of the ledger: `loadState` reads node_state into memory, the handlers change the
-- copy and the tables, `saveState` writes the copy back, and an error rolls everything back, so it
-- carries no state. A SQLite call that the model does not give a failure of its own succeeds.
use harness_codex.Prelude.{ℕ, Bool, true, false, Option, none, some, List, [], ◌∷◌}
use harness_codex.Ledger.Types.{
  Uuid, AttemptState, RequestStatus, Disposition, ResponseStatus, DurableState,
}
use harness_codex.Ledger.Wire.{Receipt, RejectionReceipt}
use harness_codex.Ledger.Db.{Db, Event}

-- `node.config`, the adapter's identity, the clock's reading, and the wire schemas' checks of an event, a
-- receipt and a rejection, which the transactions call and whose verdict they only pass on.
pub record Config : Type 0 where
  pub node_id : Uuid
  pub owner_id : Uuid
  pub adapter : Uuid
  pub now : ℕ
  pub validates : Event → Bool
  pub validates_receipt : Receipt → Bool
  pub validates_rejection : RejectionReceipt → Bool

-- `ids` are the identifiers that the source will give; when none is left, `NewID` fails.
pub record Work : Type 0 where
  pub config : Config
  pub db : Db
  pub state : DurableState
  pub ids : List Uuid

-- commandFailure.code
pub data Code : Type 0 where
  invalid not_found forbidden stale queue_full id_conflict not_durable node_unavailable : Code

-- commandFailure.currentState
pub data CurrentState : Type 0 where
  registry dialog active queue blocked unknown : CurrentState
  attempt : AttemptState → CurrentState
  request : RequestStatus → CurrentState
  message : Disposition → CurrentState
  response : ResponseStatus → CurrentState

-- An error of a transaction: a commandFailure, or any other error, which the caller reports as
-- not_durable.
pub data Failure : Type 0 where
  outdated : ℕ → CurrentState → Failure
  stale_state : CurrentState → Failure
  refused : ℕ → Code → Failure
  internal : Failure

pub data Result {ℓ} (A : Type ℓ) : Type ℓ where
  err : Failure → Result A
  ok : A → Result A

abbrev pub Tx : Type 0 → Type 0
Tx A = Work → Result (A × Work)

unfoldable pub pure : {A : Type 0} → A → Tx A
pure a w = ok (a, w)

unfoldable pub fail : {A : Type 0} → Failure → Tx A
fail e w = err e

abbrev pub continue : {A B : Type 0} → Result (A × Work) → (A → Tx B) → Result (B × Work)
continue (err e) f = err e
continue (ok (a, w)) f = f a w

infixl 5 ◌>>=◌ ◌>>◌
unfoldable pub ◌>>=◌ : {A B : Type 0} → Tx A → (A → Tx B) → Tx B
unfolding pure fail
◌>>=◌ m f w = continue (m w) f

abbrev pub ◌>>◌ : {A B : Type 0} → Tx A → Tx B → Tx B
m >> k = m >>= λ _. k

-- `if !test { return error }`
unfoldable pub guard : Bool → Failure → Tx (Unit {0})
guard true e w = ok (tt, w)
guard false e w = err e

-- `QueryRowContext(…).Scan(…)`, with no row an error
abbrev pub scan : {A : Type 0} → Option A → Tx A
scan none w = err internal
scan (some a) w = ok (a, w)

unfoldable pub query : {A : Type 0} → (Db → Option A) → Tx A
query q w = scan (q w.db) w

-- `node.newID()`
abbrev pub take_id : List Uuid → Work → Result (Uuid × Work)
take_id [] w = err internal
take_id (i ∷ rest) w = ok (i, record w { ids = rest })

unfoldable pub new_id : Tx Uuid
new_id w = take_id w.ids w

unfoldable pub gets : {A : Type 0} → (Work → A) → Tx A
gets f w = ok (f w, w)

unfoldable pub modify_db : (Db → Db) → Tx (Unit {0})
modify_db f w = ok (tt, record w { db = f w.db })

unfoldable pub modify_state : (DurableState → DurableState) → Tx (Unit {0})
modify_state f w = ok (tt, record w { state = f w.state })

-- loadState
unfoldable pub load_state : Tx DurableState
load_state w = ok (w.db.node_state, record w { state = w.db.node_state })

-- saveState
unfoldable pub save_state : Tx (Unit {0})
save_state w = ok (tt, record w { db = record w.db { node_state = w.state } })
