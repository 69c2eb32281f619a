-- ===== src/Replay/Progress.antt =====
-- A stream that polls often enough writes the whole history.
use harness_codex.Prelude.{
  ℕ, zero, suc, ◌+◌, ◌≤◌, ◌<◌, ◌≡◌, refl, sym, ◌∙◌, ap, subst, inl, inr, ◌⊎◌, true, false, ◌&&◌,
  Option, some, List, [], ◌∷◌, ◌==◌, any, ltb, length, IsRow, Bool-cases, arith,
}
use harness_codex.Ledger.Types.{Uuid}
use harness_codex.Ledger.Db.{Db, Event}
use harness_codex.Ledger.Tx.{Config}
use harness_codex.Ledger.History.{Numbered, History}
use harness_codex.Commands.Host.{Trust}
use harness_codex.Replay.Slices.{
  drop, take-take, take-drop, drop-drop, drop-all, length-take, length-take_within, IsRow-take,
  IsRow-drop, any-false, Numbered-length, Numbered-take, Numbered-drop, write_batch-whole,
}
use harness_codex.Replay.Pages.{
  ReplayResult, page, window_bytes, insert_by_seq, rows_after, take, add_row, scan_window, Reader,
  belongs_to_deleted, window, replay_events, stream_events,
}

-- The ledger `db`, seen by `n` polls
unfoldable pub replicate : ℕ → Db → List Db
replicate zero db = []
replicate (suc n) db = db ∷ replicate n db

insert-front :
    (node : Uuid) (epoch n last : ℕ) (e : Event) (es : List Event)
    → e.seq ≡ suc n
    → Numbered node epoch (suc n) es last
    → insert_by_seq e es ≡ e ∷ es
unfolding insert_by_seq
insert-front node epoch n last e [] s h = refl
insert-front node epoch n last e (x ∷ xs) s h = rw (before (omega (arith, h.0))) refl
  where
    before : e.seq < x.seq → ltb e.seq x.seq ≡ true
    before l = ground arith

-- All rows of a history that starts at the cursor or later
rows_after-all :
    (node : Uuid) (epoch n last after : ℕ) (es : List Event)
    → after ≤ n
    → Numbered node epoch n es last
    → rows_after node after es ≡ es
unfolding rows_after
rows_after-all node epoch n last after [] le h = refl
rows_after-all node epoch n last after (e ∷ es) le h =
    rw
      (
        rows_after-all node epoch (suc n) last after es (omega arith) h.3,
        kept,
        insert-front node epoch n last e es h.0 h.3,
      )
      refl
  where
    kept : (e.node_id == node && ltb after e.seq) ≡ true
    kept = let q = h.1 in let s : after < e.seq = omega (arith, h.0) in ground arith

-- The query of a page finds the rows of the history after the cursor.
rows_after-drop :
    (node : Uuid) (epoch n last k : ℕ) (es : List Event)
    → Numbered node epoch n es last
    → rows_after node (n + k) es ≡ drop k es
unfolding rows_after drop
rows_after-drop node epoch n last zero es h =
    rows_after-all node epoch n last (n + 0) es (omega arith) h
rows_after-drop node epoch n last (suc k) [] h = refl
rows_after-drop node epoch n last (suc k) (e ∷ es) h = rw past (
    subst (λ m. rows_after node m es ≡ drop k es) (omega arith)
      (rows_after-drop node epoch (suc n) last k es h.3))
  where
    past : (e.node_id == node && ltb (n + suc k) e.seq) ≡ false
    past = let q = h.0 in ground arith

-- A row that the page can show
abbrev pub Shown : Config → Reader → Db → Event → Type 0
Shown c r db e =
    (c.validates e ≡ true)
    × (belongs_to_deleted r.deleted db.messages e ≡ false)
    × (r.size e ≤ window_bytes)

-- A window of a history is its first `k` rows, and there is one at least where there is any.
abbrev TakesSome : ℕ → List Event → Option (List Event) → Type 0
TakesSome total es o =
    (k : ℕ) × (o ≡ some (take k es)) × (k ≤ length es) × ((total ≡ 0) → (es ≡ []) ⊎ (1 ≤ k))

scan_window-TakesSome :
    (c : Config) (r : Reader) (db : Db) (node : Uuid) (epoch n last total : ℕ) (es : List Event)
    → Numbered node epoch n es last
    → ((e : Event) → IsRow e es → Shown c r db e)
    → TakesSome total es (scan_window c.validates r.size node epoch (n + 1) total es)
unfolding scan_window take length
scan_window-TakesSome c r db node epoch n last total [] h s = (0, refl, omega arith, λ z. inl refl)
scan_window-TakesSome c r db node epoch n last total (e ∷ es) h s =
    rw (fits (s e (inl refl)) h.0 h.1 h.2)
      (elim (Bool-cases (ltb window_bytes (total + r.size e))) [
        | inl b ↦ rw b (0, refl, omega arith, λ z. absurd (full b z (s e (inl refl))))
        | inr b ↦ rw b (
            more (scan_window c.validates r.size node epoch (n + 1 + 1) (total + r.size e) es) (
              subst
                (λ m.
                  TakesSome (total + r.size e) es
                    (scan_window c.validates r.size node epoch (m + 1) (total + r.size e) es))
                (omega arith)
                (scan_window-TakesSome c r db node epoch (suc n) last (total + r.size e) es h.3
                  (λ x i. s x (inr i)))))
      ])
  where
    fits :
        Shown c r db e
        → e.seq ≡ suc n
        → e.node_id ≡ node
        → e.epoch ≡ epoch
        → (c.validates e && e.node_id == node && e.epoch == epoch && e.seq == n + 1) ≡ true
    fits v a b d = let q = v.0 in ground arith

    full : ltb window_bytes (total + r.size e) ≡ true → total ≡ 0 → Shown c r db e → ⊥
    full b z v = let q = v.2 in ground arith

    more :
        (o : Option (List Event))
        → TakesSome (total + r.size e) es o
        → TakesSome total (e ∷ es) (add_row e o)
    more o (k, q, l, m) = (suc k, rw q refl, omega (arith, l), λ z. inr (omega arith))

-- The page holds the first `k` events after the cursor, and one at least where there is any.
abbrev IsBatch : Db → ℕ → ReplayResult → Type 0
IsBatch db after r =
    (k : ℕ) × (r
      ≡ page (record {
        epoch = db.node_state.epoch;
        last_event_seq = db.node_state.last_event_seq;
        events = take k (drop after db.events);
      }))
    × (k ≤ length (drop after db.events))
    × ((drop after db.events ≡ []) ⊎ (1 ≤ k))

take_hundred : (es : List Event) → take 100 es ≡ [] → es ≡ []
unfolding take
take_hundred [] h = refl
take_hundred (e ∷ es) h = cc

module _ (c : Config) (r : Reader) (t : Trust) (db : Db) (here : t.transport_node_id ≡ c.node_id)
    (history : History db) (shown : (e : Event) → IsRow e db.events → Shown c r db e) where
  -- What is left of the history after the cursor
  left-Numbered :
      (after : ℕ)
      → after ≤ db.node_state.last_event_seq
      → Numbered db.node_state.node_id db.node_state.epoch after
          (drop after db.events)
          db.node_state.last_event_seq
  left-Numbered after le =
      let node = db.node_state.node_id in
      let epoch = db.node_state.epoch in
      let last = db.node_state.last_event_seq in
      let zero_after : 0 + after ≡ after = omega arith in
      let size = Numbered-length node epoch 0 last db.events history in
      let fits : after ≤ length db.events = omega (arith, size, le) in
      subst (λ m. Numbered node epoch m (drop after db.events) last) zero_after
        (Numbered-drop node epoch after 0 last db.events fits history)

  window-TakesSome :
      (after : ℕ)
      → after ≤ db.node_state.last_event_seq
      → TakesSome 0 (take 100 (drop after db.events)) (window c r after 100 db)
  unfolding window
  window-TakesSome after le =
      let node = db.node_state.node_id in
      let epoch = db.node_state.epoch in
      let last = db.node_state.last_event_seq in
      let zero_after : 0 + after ≡ after = omega arith in
      let rows : rows_after node after db.events ≡ drop after db.events =
        subst (λ m. rows_after node m db.events ≡ drop after db.events) zero_after
          (rows_after-drop node epoch 0 last after db.events history) in
      rw (rows) (
        scan_window-TakesSome c r db node epoch after _ 0 (take 100 (drop after db.events))
          (Numbered-take node epoch 100 after _ (drop after db.events) (left-Numbered after le))
          (λ e i. shown e (IsRow-drop e after db.events (IsRow-take e 100 _ i))))

  replay-IsBatch :
      (after : ℕ)
      → after ≤ db.node_state.last_event_seq
      → IsBatch db after (replay_events c r t after 100 db)
  unfolding replay_events
  replay-IsBatch after le =
      let w = window-TakesSome after le in
      let rows = drop after db.events in
      let q : window c r after 100 db ≡ some (take w.0 rows) =
        w.1 ∙ ap (λ (x : List Event). some x) (take-take w.0 100 rows w.2) in
      let clean : any (belongs_to_deleted r.deleted db.messages) (take w.0 rows) ≡ false =
        any-false _ (take w.0 rows)
          (λ e i. (shown e (IsRow-drop e after db.events (IsRow-take e w.0 rows i))).1) in
      (
        w.0,
        rw (same here, ahead le, q, clean) refl,
        omega (arith, w.2, length-take 100 rows),
        some_row rows w.0 (w.3 refl),
      )
    where
      same : t.transport_node_id ≡ c.node_id → (t.transport_node_id == c.node_id) ≡ true
      same p = ground arith

      ahead : after ≤ db.node_state.last_event_seq → ltb db.node_state.last_event_seq after ≡ false
      ahead p = ground arith

      some_row : (es : List Event) (k : ℕ) → (take 100 es ≡ []) ⊎ (1 ≤ k) → (es ≡ []) ⊎ (1 ≤ k)
      some_row es k (inl p) = inl (take_hundred es p)
      some_row es k (inr p) = inr p

  -- A stream over a full history writes all of it: where the events are numbered from one on and each
  -- can be shown (it is valid, belongs to no deleted dialog and fits into a message), as many polls as
  -- events are left after the cursor write exactly these events, in their order.
  pub stream_events-whole :
      (polls after : ℕ)
      → after ≤ db.node_state.last_event_seq
      → db.node_state.last_event_seq ≤ after + polls
      → stream_events c r t after (replicate polls db) ≡ drop after db.events
  unfolding stream_events replicate length
  stream_events-whole zero after le enough =
      let size = Numbered-length _ _ 0 _ db.events history in
      sym (drop-all after db.events (omega (arith, size, enough)))
  stream_events-whole (suc polls) after le enough =
      let b = replay-IsBatch after le in
      let rows = drop after db.events in
      let m = after + length (take b.0 rows) in
      let left = left-Numbered after le in
      let room = Numbered-length _ _ after _ rows left in
      let taken = length-take_within b.0 rows b.2 in
      let batch =
        write_batch-whole _ _ after m (take b.0 rows) (Numbered-take _ _ b.0 after _ rows left) in
      let tail : stream_events c r t m (replicate polls db) ≡ drop m db.events =
        stream_events-whole polls m (omega (arith, room, taken, b.2)) (elim b.3 [
          | inl e ↦ omega (arith, room, ap (λ (xs : List Event). length xs) e)
          | inr p ↦ omega (arith, taken, p, enough)
        ]) in
      let same : drop m db.events ≡ drop b.0 rows =
        ap (λ n. drop n db.events) (ap (λ n. after + n) taken)
        ∙ sym (drop-drop after b.0 db.events) in
      rw (b.1, batch, tail, same) (take-drop b.0 rows)
