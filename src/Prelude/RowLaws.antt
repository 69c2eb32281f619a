-- ===== src/Prelude/RowLaws.antt =====
-- What one statement does to the lookups, the tests and the counts of a table.
use Prim.Native.Nat.{ℕ, ◌+◌}
use mathlib.Core.Path.{◌≡◌, refl}
use mathlib.Core.Bool.{Bool, false, ◌||◌}
use mathlib.Core.Option.{none, some}
use mathlib.Core.List.{List, [], ◌∷◌, ◌++◌}
use native.Mathlib.Omega.{arith}
use harness_codex.Prelude.Tests.{if◌then◌else◌}
use harness_codex.Prelude.Rows.{any, count_if, find?, update_at}

module _ {ℓ} {A : Type ℓ} (key : A → ℕ) where
  pub find?-append_new :
      (k : ℕ) (xs : List A) (x : A)
      → find? key k xs ≡ none
      → key x ≡ k
      → find? key k (xs ++ x ∷ []) ≡ some x
  unfolding find?
  find?-append_new k [] x h e = ground arith
  find?-append_new k (y ∷ xs) x h e = ground (arith, find?-append_new k xs x)

  pub find?-append_found :
      (k : ℕ) (xs : List A) (x y : A)
      → find? key k xs ≡ some y
      → find? key k (xs ++ x ∷ []) ≡ some y
  unfolding find?
  find?-append_found k (z ∷ xs) x y h = ground (arith, find?-append_found k xs x y)
  find?-append_found k [] x y h = ground arith

  pub find?-append_other :
      (k : ℕ) (xs : List A) (x : A)
      → find? key k xs ≡ none
      → (key x ≡ k → ⊥)
      → find? key k (xs ++ x ∷ []) ≡ none
  unfolding find?
  find?-append_other k [] x h n = ground arith
  find?-append_other k (y ∷ xs) x h n = ground (arith, find?-append_other k xs x)

  pub find?-key : (k : ℕ) (xs : List A) (x : A) → find? key k xs ≡ some x → key x ≡ k
  unfolding find?
  find?-key k [] x h = ground arith
  find?-key k (y ∷ xs) x h = ground (arith, find?-key k xs x)

  pub find?-update_at :
      (k : ℕ) (f : A → A) (xs : List A) (x : A)
      → find? key k xs ≡ some x
      → key (f x) ≡ k
      → find? key k (update_at key k f xs) ≡ some (f x)
  unfolding find? update_at
  find?-update_at k f [] x h e = ground arith
  find?-update_at k f (y ∷ xs) x h e = ground (arith, find?-update_at k f xs x)

module _ {ℓ} {A : Type ℓ} (p : A → Bool) where
  pub count_if-append :
      (xs : List A) (x : A) → count_if p (xs ++ x ∷ []) ≡ count_if p xs + (if p x then 1 else 0)
  unfolding count_if
  count_if-append [] x = omega arith
  count_if-append (y ∷ xs) x = omega (arith, count_if-append xs x)

  -- One row is replaced, so the count moves by that row.
  pub count_if-update_at :
      (key : A → ℕ) (k : ℕ) (f : A → A) (xs : List A) (x : A)
      → find? key k xs ≡ some x
      → count_if p (update_at key k f xs) + (if p x then 1 else 0)
        ≡ count_if p xs + (if p (f x) then 1 else 0)
  unfolding count_if find? update_at
  count_if-update_at key k f [] x h = ground arith
  count_if-update_at key k f (y ∷ xs) x h = ground (arith, count_if-update_at key k f xs x)

  -- A new row can only make a test come true.
  pub any-append_new : (xs : List A) (x : A) → any p (xs ++ x ∷ []) ≡ false → any p xs ≡ false
  unfolding any
  any-append_new [] x h = refl
  any-append_new (y ∷ xs) x h = ground (arith, any-append_new xs x)

  pub any-append : (xs : List A) (x : A) → any p (xs ++ x ∷ []) ≡ (any p xs || p x)
  unfolding any
  any-append [] x = ground arith
  any-append (y ∷ xs) x = ground (arith, any-append xs x)
