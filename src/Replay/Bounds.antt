-- ===== src/Replay/Bounds.antt =====
-- A page is contiguous and bounded, and shows nothing of a deleted dialog.
use harness_codex.Prelude.{
  ℕ, zero, suc, ◌+◌, ◌≤◌, ◌≡◌, refl, inl, inr, Bool, true, false, ◌&&◌, subst, Option, none, some,
  List, [], ◌∷◌, ◌==◌, any, ltb, leb, length, sum_of, Bool-cases, arith,
}
use harness_codex.Ledger.Types.{Uuid}
use harness_codex.Ledger.Db.{Db, Event}
use harness_codex.Ledger.Tx.{Config}
use harness_codex.Ledger.History.{Numbered}
use harness_codex.Commands.Host.{Trust}
use harness_codex.Replay.Pages.{
  EventReplay, ReplayResult, denied, page, window_bytes, take, add_row, scan_window,
  belongs_to_deleted, show_window, Reader, rows_after, window, replay_events,
}

take-length : (k : ℕ) (es : List Event) → length (take k es) ≤ k
unfolding take length
take-length zero es = omega arith
take-length (suc k) [] = omega arith
take-length (suc k) (e ∷ es) = omega (arith, take-length k es)

-- The rows go on from `n`, there are no more than `k`, and they take at most the room that is left.
abbrev Fits : (Event → ℕ) → Uuid → ℕ → ℕ → ℕ → ℕ → List Event → Type 0
Fits size node epoch n k total ws =
    Numbered node epoch n ws (n + length ws)
    × (length ws ≤ k)
    × (total + sum_of size ws ≤ window_bytes)

Fits-add :
    (size : Event → ℕ) (node : Uuid) (epoch n k total : ℕ) (e : Event) (ws : List Event)
    → e.seq ≡ n + 1
    → e.node_id ≡ node
    → e.epoch ≡ epoch
    → Fits size node epoch (suc n) k (total + size e) ws
    → Fits size node epoch n (1 + k) total (e ∷ ws)
unfolding length sum_of
Fits-add size node epoch n k total e ws s a b f = (
  (omega arith, a, b, subst (Numbered node epoch (suc n) ws) (omega arith) f.0),
  omega (arith, f.1),
  omega (arith, f.2),
)

-- The condition holds of the rows, where there is no gap.
abbrev pub Shows : (List Event → Type 0) → Option (List Event) → Type 0
Shows P none = Unit
Shows P (some ws) = P ws

Fits-none :
    (size : Event → ℕ) (node : Uuid) (epoch n k total : ℕ)
    → total ≤ window_bytes
    → Fits size node epoch n k total []
unfolding length sum_of
Fits-none size node epoch n k total le = (omega arith, omega arith, omega arith)

scan_window-Fits :
    (validates : Event → Bool) (size : Event → ℕ) (node : Uuid) (epoch n total : ℕ)
    (es : List Event)
    → total ≤ window_bytes
    → Shows
        (Fits size node epoch n (length es) total)
        (scan_window validates size node epoch (n + 1) total es)
unfolding scan_window length
scan_window-Fits validates size node epoch n total [] le = Fits-none size node epoch n 0 total le
scan_window-Fits validates size node epoch n total (e ∷ es) le =
    elim (Bool-cases (validates e && e.node_id == node && e.epoch == epoch && e.seq == n + 1)) [
      | inr b ↦ rw b tt
      | inl b ↦ elim (Bool-cases (ltb window_bytes (total + size e))) [
        | inl l ↦ rw (b, l) (Fits-none size node epoch n (1 + length es) total le)
        | inr l ↦
            rw (b, l)
              (added b (scan_window validates size node epoch (n + 1 + 1) (total + size e) es) (
                scan_window-Fits validates size node epoch (n + 1) (total + size e) es
                  (ground arith)))
      ]
    ]
  where
    added :
        (validates e && e.node_id == node && e.epoch == epoch && e.seq == n + 1) ≡ true
        → (o : Option (List Event))
        → Shows (Fits size node epoch (n + 1) (length es) (total + size e)) o
        → Shows (Fits size node epoch n (1 + length es) total) (add_row e o)
    added b none f = tt
    added b (some ws) f =
        Fits-add size node epoch n (length es) total e ws (ground arith) (ground arith)
          (ground arith)
          (subst (λ m. Fits size node epoch m (length es) (total + size e) ws) (omega arith) f)

-- What a page promises: the rows are numbered from the one after the cursor, there are at most `limit`
-- of them, and they fit into one message.
abbrev pub IsPage : Reader → ℕ → ℕ → Db → List Event → Type 0
IsPage r after limit db es =
    Numbered db.node_state.node_id db.node_state.epoch after es (after + length es)
    × (length es ≤ limit)
    × (sum_of r.size es ≤ window_bytes)

window-IsPage :
    (c : Config) (r : Reader) (after limit : ℕ) (db : Db)
    → Shows (IsPage r after limit db) (window c r after limit db)
unfolding window
window-IsPage c r after limit db =
    narrowed (window c r after limit db)
      (scan_window-Fits c.validates r.size node db.node_state.epoch after 0 rows (omega arith))
  where
    node : Uuid
    node = db.node_state.node_id

    rows : List Event
    rows = take limit (rows_after node after db.events)

    narrowed :
        (o : Option (List Event))
        → Shows (Fits r.size node db.node_state.epoch after (length rows) 0) o
        → Shows (IsPage r after limit db) o
    narrowed none f = tt
    narrowed (some ws) f = (
      f.0,
      omega (arith, f.1, take-length limit (rows_after node after db.events)),
      omega (arith, f.2),
    )

-- The condition holds of the page, where one is given.
abbrev pub Given : (EventReplay → Type 0) → ReplayResult → Type 0
Given P (denied r) = Unit
Given P (page p) = P p

-- Whatever the ledger holds, a page that ReplayEvents gives is sound: its events are numbered one by one
-- from the one after the cursor, under the node and the epoch of today, there are at most `limit` of
-- them, their texts leave 1024 bytes of the largest message, none of them belongs to a deleted dialog,
-- and the last number that it reports is that of the ledger.
pub replay_events-IsPage :
    (c : Config) (r : Reader) (t : Trust) (after limit : ℕ) (db : Db)
    → Given
        (λ p.
          IsPage r after limit db p.events
          × (any (belongs_to_deleted r.deleted db.messages) p.events ≡ false)
          × (p.last_event_seq ≡ db.node_state.last_event_seq)
          × (after ≤ p.last_event_seq))
        (replay_events c r t after limit db)
unfolding replay_events
replay_events-IsPage c r t after limit db = elim (Bool-cases (t.transport_node_id == c.node_id)) [
  | inr a ↦ rw a tt
  | inl a ↦ elim (Bool-cases (ltb 0 limit && leb limit 100)) [
    | inr b ↦ rw (a, b) tt
    | inl b ↦ elim (Bool-cases (ltb db.node_state.last_event_seq after)) [
      | inl d ↦ rw (a, b, d) tt
      | inr d ↦
          rw (a, b, d) (shown d (window c r after limit db) (window-IsPage c r after limit db))
    ]
  ]
]
  where
    shown :
        ltb db.node_state.last_event_seq after ≡ false
        → (o : Option (List Event)) → Shows (IsPage r after limit db) o
        → Given
            (λ p.
              IsPage r after limit db p.events
              × (any (belongs_to_deleted r.deleted db.messages) p.events ≡ false)
              × (p.last_event_seq ≡ db.node_state.last_event_seq)
              × (after ≤ p.last_event_seq))
            (show_window r.deleted db o)
    shown d none f = tt
    shown d (some es) f = elim (Bool-cases (any (belongs_to_deleted r.deleted db.messages) es)) [
      | inl b ↦ rw b tt
      | inr b ↦ rw b (f, b, refl, ground arith)
    ]
