-- ===== src/Holds/Listing.antt =====
-- The requests that a quiescence proof lists.
use harness_codex.Prelude.{
  ◌≡◌, refl, ap, ◌⊎◌, inl, inr, true, false, ◌&&◌, List, [], ◌∷◌, IsRow, Bool-cases, arith,
}
use harness_codex.Ledger.Types.{Uuid, Scope, RequestStatus, Request}
use harness_codex.Holds.Scopes.{in_scope}
use harness_codex.Holds.Settled.{Within, Within-in_scope}
use harness_codex.Holds.Quiescence.{before_in_queue, insert_ordered, is_queued, parked_requests}

abbrev pub Follows : Request → List Request → Type 0
Follows a [] = Unit
Follows a (b ∷ rs) = before_in_queue a b ≡ true

-- Each request stands before the next by queue sequence and identifier.
abbrev pub InOrder : List Request → Type 0
InOrder [] = Unit
InOrder (a ∷ rs) = Follows a rs × InOrder rs

-- The request waits in the scope.
abbrev pub Waits : Scope → Request → Type 0
Waits s r = (r.status ≡ RequestStatus.queued) × Within s r.dialog_id

insert_ordered-IsRow :
    (r x : Request) (xs : List Request) → IsRow x (insert_ordered r xs) → (x ≡ r) ⊎ IsRow x xs
unfolding insert_ordered
insert_ordered-IsRow r x [] (inl e) = inl e
insert_ordered-IsRow r x [] (inr e) = inr e
insert_ordered-IsRow r x (y ∷ ys) h = elim (Bool-cases (before_in_queue r y)) [
  | inl b ↦ rw b at h
  | inr b ↦ under (insert_ordered-IsRow r x ys) (rw b at h)
]
  where
    later : (x ≡ r) ⊎ IsRow x ys → (x ≡ r) ⊎ IsRow x (y ∷ ys)
    later (inl e) = inl e
    later (inr s) = inr (inr s)

    under :
        (IsRow x (insert_ordered r ys) → (x ≡ r) ⊎ IsRow x ys)
        → (x ≡ y) ⊎ IsRow x (insert_ordered r ys)
        → (x ≡ r) ⊎ IsRow x (y ∷ ys)
    under k (inl e) = inr (inl e)
    under k (inr s) = later (k s)

insert_ordered-has :
    (r x : Request) (xs : List Request) → (x ≡ r) ⊎ IsRow x xs → IsRow x (insert_ordered r xs)
unfolding insert_ordered
insert_ordered-has r x [] h = h
insert_ordered-has r x (y ∷ ys) h = elim (Bool-cases (before_in_queue r y)) [
  | inl b ↦ rw b h
  | inr b ↦ rw b (under (insert_ordered-has r x ys) h)
]
  where
    under :
        ((x ≡ r) ⊎ IsRow x ys → IsRow x (insert_ordered r ys))
        → (x ≡ r) ⊎ IsRow x (y ∷ ys)
        → IsRow x (y ∷ insert_ordered r ys)
    under k (inl e) = inr (k (inl e))
    under k (inr (inl e)) = inl e
    under k (inr (inr s)) = inr (k (inr s))

before_total : (a b : Request) → before_in_queue a b ≡ false → before_in_queue b a ≡ true
before_total a b h = ground arith

insert_ordered-Follows :
    (y r : Request) (xs : List Request)
    → before_in_queue y r ≡ true
    → Follows y xs
    → Follows y (insert_ordered r xs)
unfolding insert_ordered
insert_ordered-Follows y r [] b h = b
insert_ordered-Follows y r (z ∷ zs) b h = elim (Bool-cases (before_in_queue r z)) [
  | inl e ↦ rw e b
  | inr e ↦ rw e h
]

insert_ordered-InOrder :
    (r : Request) (xs : List Request) → InOrder xs → InOrder (insert_ordered r xs)
unfolding insert_ordered
insert_ordered-InOrder r [] h = (tt, tt)
insert_ordered-InOrder r (y ∷ ys) h = elim (Bool-cases (before_in_queue r y)) [
  | inl b ↦ rw b (b, h)
  | inr b ↦
      rw b
        ((insert_ordered-Follows y r ys (before_total r y b) h.0, insert_ordered-InOrder r ys h.1))
]

pub parked_requests-InOrder : (s : Scope) (rs : List Request) → InOrder (parked_requests s rs)
unfolding parked_requests
parked_requests-InOrder s [] = tt
parked_requests-InOrder s (r ∷ rs) =
    elim (Bool-cases (is_queued r.status && in_scope s r.dialog_id)) [
      | inl e ↦ rw e (insert_ordered-InOrder r _ (parked_requests-InOrder s rs))
      | inr e ↦ rw e (parked_requests-InOrder s rs)
    ]

queued_status : (s : RequestStatus) → is_queued s ≡ true → s ≡ RequestStatus.queued
queued_status RequestStatus.queued h = refl
queued_status RequestStatus.dispatching h = cc
queued_status RequestStatus.active h = cc
queued_status RequestStatus.unknown h = cc
queued_status RequestStatus.cancelled h = cc
queued_status RequestStatus.completed h = cc
queued_status RequestStatus.failed h = cc
queued_status RequestStatus.interrupted h = cc

in_scope-Within : (s : Scope) (d : Uuid) → in_scope s d ≡ true → Within s d
unfolding in_scope
in_scope-Within Scope.node d h = tt
in_scope-Within (Scope.dialog e) d h = ground arith

waiting :
    (s : Scope) (r : Request) → (is_queued r.status && in_scope s r.dialog_id) ≡ true → Waits s r
waiting s r h =
    (queued_status r.status (ground arith), in_scope-Within s r.dialog_id (ground arith))

-- Only requests that wait in the scope are parked.
pub parked_requests-Waits :
    (s : Scope) (rs : List Request) (x : Request)
    → IsRow x (parked_requests s rs)
    → IsRow x rs × Waits s x
unfolding parked_requests
parked_requests-Waits s [] x h = absurd h
parked_requests-Waits s (r ∷ rs) x h =
    elim (Bool-cases (is_queued r.status && in_scope s r.dialog_id)) [
      | inl e ↦
          new (parked_requests-Waits s rs x) e
            (insert_ordered-IsRow r x (parked_requests s rs) (rw e at h))
      | inr e ↦ old (parked_requests-Waits s rs x (rw e at h))
    ]
  where
    old : IsRow x rs × Waits s x → IsRow x (r ∷ rs) × Waits s x
    old p = (inr p.0, p.1)

    new :
        (IsRow x (parked_requests s rs) → IsRow x rs × Waits s x)
        → (is_queued r.status && in_scope s r.dialog_id) ≡ true
        → (x ≡ r) ⊎ IsRow x (parked_requests s rs)
        → IsRow x (r ∷ rs) × Waits s x
    new k e (inl q) = (inl q, rw q (waiting s r e))
    new k e (inr q) = old (k q)

-- Every request that waits in the scope is parked.
pub parked_requests-has :
    (s : Scope) (rs : List Request) (x : Request)
    → IsRow x rs
    → Waits s x
    → IsRow x (parked_requests s rs)
unfolding parked_requests
parked_requests-has s [] x h w = absurd h
parked_requests-has s (r ∷ rs) x h w =
    elim (Bool-cases (is_queued r.status && in_scope s r.dialog_id)) [
      | inl e ↦
          rw e
            (insert_ordered-has r x (parked_requests s rs) (among (parked_requests-has s rs x) h))
      | inr e ↦ rw e (other (parked_requests-has s rs x) e h)
    ]
  where
    among :
        (IsRow x rs → Waits s x → IsRow x (parked_requests s rs))
        → (x ≡ r) ⊎ IsRow x rs
        → (x ≡ r) ⊎ IsRow x (parked_requests s rs)
    among k (inl q) = inl q
    among k (inr q) = inr (k q w)

    passes : (is_queued x.status && in_scope s x.dialog_id) ≡ true
    passes = rw (w.0, Within-in_scope s x.dialog_id w.1) refl

    other :
        (IsRow x rs → Waits s x → IsRow x (parked_requests s rs))
        → (is_queued r.status && in_scope s r.dialog_id) ≡ false
        → (x ≡ r) ⊎ IsRow x rs
        → IsRow x (parked_requests s rs)
    other k e (inl q) = absurd (
        ground
          (arith, passes, ap (λ (k : Request). is_queued k.status && in_scope s k.dialog_id) q))
    other k e (inr q) = k q w
