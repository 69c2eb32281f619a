-- ===== src/Prelude/Least.antt =====
-- The row that `ORDER BY rank LIMIT 1` gives.
use Prim.Native.Nat.{ℕ, ◌≤◌}
use mathlib.Core.Path.{◌≡◌, refl, sym, ap, ◌∙◌}
use mathlib.Core.Logic.{◌⊎◌, inl, inr}
use mathlib.Core.Bool.{Bool, true, false}
use mathlib.Core.Option.{Option, none, some}
use mathlib.Core.List.{List, [], ◌∷◌, ◌++◌}
use native.Mathlib.Omega.{arith}
use harness_codex.Prelude.Tests.{leb, Bool-cases}
use harness_codex.Prelude.Rows.{any, first, count_if, least, lower}

module _ {A : Type 0} where
  -- `x` is a row of the table.
  abbrev pub IsRow : A → List A → Type 0
  IsRow x [] = ⊥
  IsRow x (y ∷ ys) = (x ≡ y) ⊎ IsRow x ys

  -- `x` is a row with `p`, and no row with `p` has a lower rank.
  pub record IsLeast (p : A → Bool) (rank : A → ℕ) (x : A) (xs : List A) : Type 0 where
    pub row : IsRow x xs
    pub passes : p x ≡ true
    pub lowest : (y : A) → IsRow y xs → p y ≡ true → rank x ≤ rank y

  pub least-none :
      (p : A → Bool) (rank : A → ℕ) (xs : List A) (y : A)
      → least p rank xs ≡ none
      → IsRow y xs
      → p y ≡ true
      → ⊥
  unfolding least
  least-none p rank [] y e r h = r
  least-none p rank (x ∷ xs) y e (inl q) h = ground arith
  least-none p rank (x ∷ xs) y e (inr q) h = ground (arith, least-none p rank xs y)

  first-IsLeast :
      (p : A → Bool) (rank : A → ℕ) (x : A) (xs : List A) (o : Option A)
      → least p rank xs ≡ o
      → p x ≡ true
      → ((y : A) → o ≡ some y → IsLeast p rank y xs)
      → IsLeast p rank (lower rank x o) (x ∷ xs)
  first-IsLeast p rank x xs none e h k = record {
    row = inl refl;
    passes = h;
    lowest = λ y r q. elim r [
      | inl s ↦ rw s (omega arith)
      | inr s ↦ absurd (least-none p rank xs y e s q)
    ];
  }
  first-IsLeast p rank x xs (some z) e h k = elim (Bool-cases (leb (rank x) (rank z))) [
    | inl c ↦ rw c (record {
      row = inl refl;
      passes = h;
      lowest = λ y r q. elim r [
        | inl s ↦ rw s (omega arith)
        | inr s ↦ ground (arith, (k z refl).lowest y s q)
      ];
    })
    | inr c ↦ rw c (record {
      row = inr (k z refl).row;
      passes = (k z refl).passes;
      lowest = λ y r q. elim r [ inl s ↦ rw s (ground arith) | inr s ↦ (k z refl).lowest y s q ];
    })
  ]

  -- The row that is chosen has the lowest rank.
  pub least-IsLeast :
      (p : A → Bool) (rank : A → ℕ) (xs : List A) (z : A)
      → least p rank xs ≡ some z
      → IsLeast p rank z xs
  unfolding least
  least-IsLeast p rank [] z e = cc
  least-IsLeast p rank (x ∷ xs) z e = elim (Bool-cases (p x)) [
    | inl h ↦
        let f =
          first-IsLeast p rank x xs (least p rank xs) refl h
            (λ y e'. least-IsLeast p rank xs y e') in
        let q : lower rank x (least p rank xs) ≡ z = ground arith in rw⁻¹ q f
    | inr h ↦
        let f = least-IsLeast p rank xs z (ground arith) in
        record {
          row = inr f.row;
          passes = f.passes;
          lowest = λ y r q. elim r [ inl s ↦ absurd (ground arith) | inr s ↦ f.lowest y s q ];
        }
  ]

  pub IsRow-append : (x : A) (xs : List A) (y : A) → IsRow x (xs ++ y ∷ []) → IsRow x xs ⊎ (x ≡ y)
  IsRow-append x [] y (inl e) = inr e
  IsRow-append x [] y (inr r) = absurd r
  IsRow-append x (z ∷ xs) y (inl e) = inl (inl e)
  IsRow-append x (z ∷ xs) y (inr r) = grow (IsRow-append x xs y r)
    where
      grow : IsRow x xs ⊎ (x ≡ y) → IsRow x (z ∷ xs) ⊎ (x ≡ y)
      grow (inl s) = inl (inr s)
      grow (inr e) = inr e

  -- A row with `p` is counted.
  pub count_if-none :
      (p : A → Bool) (xs : List A) (x : A) → count_if p xs ≡ 0 → IsRow x xs → p x ≡ true → ⊥
  unfolding count_if
  count_if-none p [] x z r h = absurd r
  count_if-none p (y ∷ xs) x z (inl e) h = ground (arith, sym (ap p e) ∙ h)
  count_if-none p (y ∷ xs) x z (inr r) h = count_if-none p xs x (omega arith) r h

  pub any-none :
      (p : A → Bool) (xs : List A) (x : A) → any p xs ≡ false → IsRow x xs → p x ≡ true → ⊥
  unfolding any
  any-none p [] x z r h = absurd r
  any-none p (y ∷ xs) x z (inl e) h = ground (arith, sym (ap p e) ∙ h)
  any-none p (y ∷ xs) x z (inr r) h = any-none p xs x (ground arith) r h

  pub first-passes :
      (p : A → Bool) (xs : List A) (x : A) → first p xs ≡ some x → IsRow x xs × (p x ≡ true)
  unfolding first
  first-passes p [] x h = cc
  first-passes p (y ∷ xs) x h = elim (Bool-cases (p y)) [
    | inl e ↦ found e (rw e at h)
    | inr e ↦ later (first-passes p xs x (rw e at h))
  ]
    where
      found : p y ≡ true → some y ≡ some x → IsRow x (y ∷ xs) × (p x ≡ true)
      found e q = (inl (cc), cc)

      later : IsRow x xs × (p x ≡ true) → IsRow x (y ∷ xs) × (p x ≡ true)
      later (r, q) = (inr r, q)
