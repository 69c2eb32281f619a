-- ===== src/Attempts/Projection.antt =====
-- recordAdapterProjection of runtime/observe.go, for the keys that the model's transactions record.
use harness_codex.Prelude.{
  ℕ, Bool, true, false, ◌&&◌, not, Option, none, some, List, [], ◌∷◌, ◌==◌, any, count_if,
  if◌then◌else◌,
}
use harness_codex.Ledger.Types.{Uuid}
use harness_codex.Ledger.Db.{
  Event, ProjectionKey, dialog_deleted, started, terminal, tool_completed,
}
use harness_codex.Ledger.Tx.{internal, err, ok, Tx}

-- UPDATE … WHERE p
unfoldable pub update_where : {A : Type 0} → (A → Bool) → (A → A) → List A → List A
update_where p f [] = []
update_where p f (x ∷ xs) = (if p x then f x else x) ∷ update_where p f xs

abbrev same_key : ProjectionKey → ProjectionKey → Bool
same_key dialog_deleted dialog_deleted = true
same_key started started = true
same_key terminal terminal = true
same_key (tool_completed a _) (tool_completed b _) = a == b
same_key _ _ = false

abbrev is_for : Uuid → Option Uuid → Bool
is_for a none = false
is_for a (some b) = b == a

abbrev is_key : ProjectionKey → Option ProjectionKey → Bool
is_key k none = false
is_key k (some l) = same_key k l

abbrev is_none : {A : Type 0} → Option A → Bool
is_none none = true
is_none (some _) = false

-- WHERE seq=? AND attempt_id=? AND projection_key IS NULL
unfoldable pub is_unbound : ℕ → Uuid → Event → Bool
is_unbound seq attempt e = e.seq == seq && is_for attempt e.attempt_id && is_none e.projection_key

-- The unique index `one_event_projection`
unfoldable pub is_projected : Uuid → ProjectionKey → Event → Bool
is_projected attempt key e = is_for attempt e.attempt_id && is_key key e.projection_key

abbrev pub bind_key : ProjectionKey → Event → Event
bind_key key e = record e { projection_key = some key }

-- recordAdapterProjection
unfoldable pub record_projection : Uuid → ProjectionKey → Tx (Unit {0})
unfolding is_unbound is_projected
record_projection attempt key w =
    let here = is_unbound w.state.last_event_seq attempt in
    if count_if here w.db.events == 1 && not (any (is_projected attempt key) w.db.events)
    then ok (
      tt,
      record w { db = record w.db { events = update_where here (bind_key key) w.db.events } },
    )
    else err internal
