-- ===== src/Prelude/Rows.antt =====
-- A table of the SQLite ledger is the list of its rows in rowid order. `key` is the column of its
-- primary key, so a statement `WHERE key=?` reads or writes the one row that carries the key.
use Prim.Native.Nat.{ℕ, ◌+◌}
use mathlib.Core.Bool.{Bool, true, false}
use mathlib.Core.Option.{Option, none, some}
use mathlib.Core.List.{List, [], ◌∷◌}
use harness_codex.Prelude.Tests.{◌==◌, leb, if◌then◌else◌}

module _ {ℓ} {A : Type ℓ} where
  -- `COUNT(*) … WHERE p`
  unfoldable pub count_if : (A → Bool) → List A → ℕ
  count_if p [] = 0
  count_if p (x ∷ xs) = (if p x then 1 else 0) + count_if p xs

  -- `EXISTS(SELECT 1 … WHERE p)`
  unfoldable pub any : (A → Bool) → List A → Bool
  any p [] = false
  any p (x ∷ xs) = if p x then true else any p xs

  -- `SELECT … WHERE p ORDER BY rowid LIMIT 1`
  unfoldable pub first : (A → Bool) → List A → Option A
  first p [] = none
  first p (x ∷ xs) = if p x then some x else first p xs

  -- `SELECT … WHERE p ORDER BY rank LIMIT 1`: the row with the lowest rank, the first such.
  abbrev pub lower : (A → ℕ) → A → Option A → A
  lower rank x none = x
  lower rank x (some y) = if leb (rank x) (rank y) then x else y

  unfoldable pub least : (A → Bool) → (A → ℕ) → List A → Option A
  least p rank [] = none
  least p rank (x ∷ xs) =
      let rest = least p rank xs in if p x then some (lower rank x rest) else rest

  module _ (key : A → ℕ) where
    -- `SELECT … WHERE key=k`
    unfoldable pub find? : ℕ → List A → Option A
    find? k [] = none
    find? k (x ∷ xs) = if key x == k then some x else find? k xs

    -- `UPDATE … WHERE key=k`
    unfoldable pub update_at : ℕ → (A → A) → List A → List A
    update_at k f [] = []
    update_at k f (x ∷ xs) = if key x == k then f x ∷ xs else x ∷ update_at k f xs

  -- `COUNT(*)`
  unfoldable pub length : List A → ℕ
  length [] = 0
  length (x ∷ xs) = 1 + length xs

  -- `SUM(size)`
  unfoldable pub sum_of : (A → ℕ) → List A → ℕ
  sum_of size [] = 0
  sum_of size (x ∷ xs) = size x + sum_of size xs
