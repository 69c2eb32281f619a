-- ===== src/Replay/Slices.antt =====
-- Slices of a history.
use harness_codex.Prelude.{
  ℕ, zero, suc, ◌+◌, ◌≤◌, ◌≡◌, refl, sym, ◌∙◌, ap, subst, inl, inr, Bool, true, false, List, [],
  ◌∷◌, ◌++◌, ◌==◌, any, length, IsRow, arith,
}
use harness_codex.Ledger.Types.{Uuid}
use harness_codex.Ledger.Db.{Event}
use harness_codex.Ledger.History.{Numbered}
use harness_codex.Replay.Pages.{take, write_batch}

-- The rows after the first `n`
unfoldable pub drop : ℕ → List Event → List Event
drop zero es = es
drop (suc n) [] = []
drop (suc n) (e ∷ es) = drop n es

pub take-take :
    (k limit : ℕ) (es : List Event)
    → k ≤ length (take limit es)
    → take k (take limit es) ≡ take k es
unfolding take length
take-take zero limit es le = refl
take-take (suc k) zero es le = absurd (omega (arith, le))
take-take (suc k) (suc limit) [] le = refl
take-take (suc k) (suc limit) (e ∷ es) le =
    ap (λ xs. e ∷ xs) (take-take k limit es (omega (arith, le)))

pub take-drop : (k : ℕ) (es : List Event) → take k es ++ drop k es ≡ es
unfolding take drop
take-drop zero es = refl
take-drop (suc k) [] = refl
take-drop (suc k) (e ∷ es) = ap (λ xs. e ∷ xs) (take-drop k es)

pub drop-none : (k : ℕ) → drop k [] ≡ []
unfolding drop
drop-none zero = refl
drop-none (suc k) = refl

pub drop-drop : (a k : ℕ) (es : List Event) → drop k (drop a es) ≡ drop (a + k) es
unfolding drop
drop-drop zero k es = ap (λ m. drop m es) (omega arith)
drop-drop (suc a) k [] = drop-none k ∙ sym (drop-none (suc a + k))
drop-drop (suc a) k (e ∷ es) =
    let q : suc (a + k) ≡ suc a + k = omega arith in drop-drop a k es ∙ ap (λ m. drop m (e ∷ es)) q

pub drop-all : (k : ℕ) (es : List Event) → length es ≤ k → drop k es ≡ []
unfolding drop length
drop-all zero [] le = refl
drop-all zero (e ∷ es) le = absurd (omega (arith, le))
drop-all (suc k) [] le = refl
drop-all (suc k) (e ∷ es) le = drop-all k es (omega (arith, le))

pub length-drop : (k : ℕ) (es : List Event) → length es ≤ k + length (drop k es)
unfolding drop length
length-drop zero es = omega arith
length-drop (suc k) [] = omega arith
length-drop (suc k) (e ∷ es) = omega (arith, length-drop k es)

pub length-take : (k : ℕ) (es : List Event) → length (take k es) ≤ length es
unfolding take length
length-take zero es = omega arith
length-take (suc k) [] = omega arith
length-take (suc k) (e ∷ es) = omega (arith, length-take k es)

pub length-take_within : (k : ℕ) (es : List Event) → k ≤ length es → length (take k es) ≡ k
unfolding take length
length-take_within zero es le = refl
length-take_within (suc k) [] le = absurd (omega (arith, le))
length-take_within (suc k) (e ∷ es) le = omega (arith, length-take_within k es (omega (arith, le)))

pub IsRow-take : (x : Event) (k : ℕ) (es : List Event) → IsRow x (take k es) → IsRow x es
unfolding take
IsRow-take x zero es r = absurd r
IsRow-take x (suc k) [] r = absurd r
IsRow-take x (suc k) (e ∷ es) (inl q) = inl q
IsRow-take x (suc k) (e ∷ es) (inr r) = inr (IsRow-take x k es r)

pub IsRow-drop : (x : Event) (k : ℕ) (es : List Event) → IsRow x (drop k es) → IsRow x es
unfolding drop
IsRow-drop x zero es r = r
IsRow-drop x (suc k) [] r = absurd r
IsRow-drop x (suc k) (e ∷ es) r = inr (IsRow-drop x k es r)

pub any-false :
    (p : Event → Bool) (es : List Event)
    → ((e : Event) → IsRow e es → p e ≡ false)
    → any p es ≡ false
unfolding any
any-false p [] h = refl
any-false p (e ∷ es) h = rw (h e (inl refl)) (any-false p es (λ x r. h x (inr r)))

module _ (node : Uuid) (epoch : ℕ) where
  pub Numbered-length :
      (n last : ℕ) (es : List Event) → Numbered node epoch n es last → n + length es ≡ last
  unfolding length
  Numbered-length n last [] h = omega (arith, h)
  Numbered-length n last (e ∷ es) h = omega (arith, Numbered-length (suc n) last es h.3)

  pub Numbered-take :
      (k n last : ℕ) (es : List Event)
      → Numbered node epoch n es last
      → Numbered node epoch n (take k es) (n + length (take k es))
  unfolding take length
  Numbered-take zero n last es h = omega arith
  Numbered-take (suc k) n last [] h = omega arith
  Numbered-take (suc k) n last (e ∷ es) h = (
    h.0,
    h.1,
    h.2,
    subst (Numbered node epoch (suc n) (take k es)) (omega arith)
        (Numbered-take k (suc n) last es h.3),
  )

  pub Numbered-drop :
      (k n last : ℕ) (es : List Event)
      → k ≤ length es
      → Numbered node epoch n es last
      → Numbered node epoch (n + k) (drop k es) last
  unfolding drop length
  Numbered-drop zero n last es le h = subst (λ m. Numbered node epoch m es last) (omega arith) h
  Numbered-drop (suc k) n last [] le h = absurd (omega (arith, le))
  Numbered-drop (suc k) n last (e ∷ es) le h =
      subst (λ m. Numbered node epoch m (drop k es) last) (omega arith)
        (Numbered-drop k (suc n) last es (omega (arith, le)) h.3)

  -- A batch that goes on from the last number is written whole.
  pub write_batch-whole :
      (n last : ℕ) (es : List Event)
      → Numbered node epoch n es last
      → write_batch n es ≡ record { events = es; last = last; goes_on = true }
  unfolding write_batch
  write_batch-whole n last [] h = rw (sym h) refl
  write_batch-whole n last (e ∷ es) h =
      rw
        (
          same h.0,
          subst
              (λ m.
                Numbered node epoch m es last
                → write_batch m es ≡ record { events = es; last = last; goes_on = true })
              (sym h.0) (write_batch-whole (suc n) last es)
              (subst (λ m. Numbered node epoch m es last) (sym h.0) h.3),
        )
        refl
    where
      same : e.seq ≡ suc n → (e.seq == n + 1) ≡ true
      same q = ground arith
