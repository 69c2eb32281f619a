-- ===== src/Replay/Numbers.antt =====
-- The numbers that a stream writes.
use harness_codex.Prelude.{
  ℕ, ◌+◌, ◌≡◌, subst, inl, inr, true, List, [], ◌∷◌, ◌++◌, ◌==◌, if◌then◌else◌, length, Bool-cases,
  arith,
}
use harness_codex.Ledger.Db.{Db, Event}
use harness_codex.Ledger.Tx.{Config}
use harness_codex.Commands.Host.{Trust}
use harness_codex.Replay.Pages.{
  ReplayResult, denied, page, Reader, replay_events, Written, and_then, write_batch, batch_of,
  stream_events,
}

-- The rows carry the numbers after `n`, one by one.
abbrev pub Consecutive : ℕ → List Event → Type 0
Consecutive n [] = Unit
Consecutive n (e ∷ es) = (e.seq ≡ n + 1) × Consecutive (n + 1) es

Consecutive-append :
    (n : ℕ) (xs ys : List Event)
    → Consecutive n xs
    → Consecutive (n + length xs) ys
    → Consecutive n (xs ++ ys)
unfolding length
Consecutive-append n [] ys h k = subst (λ m. Consecutive m ys) (omega arith) k
Consecutive-append n (x ∷ xs) ys h k =
    (h.0, Consecutive-append (n + 1) xs ys h.1 (subst (λ m. Consecutive m ys) (omega arith) k))

-- What is written goes on from the last number, and the last number is kept up with it.
abbrev Follows : ℕ → Written → Type 0
Follows n w = Consecutive n w.events × (w.last ≡ n + length w.events)

write_batch-Follows : (n : ℕ) (es : List Event) → Follows n (write_batch n es)
unfolding write_batch length
write_batch-Follows n [] = (tt, omega arith)
write_batch-Follows n (e ∷ es) = elim (Bool-cases (e.seq == n + 1)) [
  | inr b ↦ rw b (tt, omega arith)
  | inl b ↦ rw b (next (seq b) (write_batch e.seq es) (write_batch-Follows e.seq es))
]
  where
    seq : (e.seq == n + 1) ≡ true → e.seq ≡ n + 1
    seq b = ground arith

    next : e.seq ≡ n + 1 → (w : Written) → Follows e.seq w → Follows n (and_then e w)
    next s w f = ((s, subst (λ m. Consecutive m w.events) s f.0), omega (arith, f.1, s))

batch_of-Follows : (n : ℕ) (r : ReplayResult) → Follows n (batch_of n r)
unfolding length
batch_of-Follows n (denied r) = (tt, omega arith)
batch_of-Follows n (page p) = write_batch-Follows n p.events

-- Whatever the polls find, as the ledger changes between them, a stream writes the events after its
-- cursor one by one: no number is left out, repeated or out of order.
pub stream_events-Consecutive :
    (c : Config) (r : Reader) (t : Trust) (after : ℕ) (dbs : List Db)
    → Consecutive after (stream_events c r t after dbs)
unfolding stream_events
stream_events-Consecutive c r t after [] = tt
stream_events-Consecutive c r t after (db ∷ dbs) =
    poll (batch_of after (replay_events c r t after 100 db)) (batch_of-Follows after _)
      (stream_events-Consecutive c r t (batch_of after (replay_events c r t after 100 db)).last dbs)
  where
    poll :
        (w : Written)
        → Follows after w
        → Consecutive w.last (stream_events c r t w.last dbs)
        → Consecutive after
            (if w.goes_on then w.events ++ stream_events c r t w.last dbs else w.events)
    poll w f k = elim (Bool-cases w.goes_on) [
      | inl b ↦ rw b (
          Consecutive-append after w.events _ f.0
            (subst (λ m. Consecutive m (stream_events c r t w.last dbs)) f.1 k))
      | inr b ↦ rw b f.0
    ]
