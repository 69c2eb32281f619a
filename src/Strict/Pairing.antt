-- ===== src/Strict/Pairing.antt =====
-- The scan of internal/strictjson/strict.go on the texts of JSON: which ones it lets pass.
use harness_codex.Prelude.{
  ℕ, zero, suc, ◌≤◌, ◌≡◌, refl, ap, ◌∙◌, inl, inr, Bool, true, false, ◌&&◌, Option, some, List, [],
  ◌∷◌, ◌==◌, if◌then◌else◌, length, Bool-cases, arith,
}
use harness_codex.Canonical.Strings.{Text, quote, backslash}
use harness_codex.Strict.Glyphs.{
  Glyph, plain, short, unit, IsGlyph, AreGlyphs, write_glyphs, Piece, outside, quoted, ArePieces,
  write_pieces, high, low, paired, all_paired,
}
use harness_codex.Strict.Escapes.{
  parse_hex, value_of, is_high, is_low, is_low_value, next, refused, low_turn, unit_turn,
  escape_turn, turn, scan,
}

-- The loop, outside of strings, ends with `b`.
abbrev Ends : Bool → Text → Type 0
Ends b t = (n : ℕ) → length t ≤ n → scan n false t ≡ some b

scan-next :
    (n : ℕ) (s s' : Bool) (c : ℕ) (cs rest : Text)
    → turn s c cs ≡ next s' rest
    → scan (suc n) s (c ∷ cs) ≡ scan n s' rest
unfolding scan
scan-next n s s' c cs rest e = rw (e, scan) refl

scan-refused :
    (n : ℕ) (s : Bool) (c : ℕ) (cs : Text)
    → turn s c cs ≡ refused
    → scan (suc n) s (c ∷ cs) ≡ some false
unfolding scan
scan-refused n s c cs e = rw (e, scan) refl

turn-plain :
    (c : ℕ) (cs : Text)
    → (c == quote) ≡ false
    → (c == backslash) ≡ false
    → turn true c cs ≡ next true cs
unfolding turn
turn-plain c cs q s = rw (q, s) refl

turn-outside : (c : ℕ) (cs : Text) → (c == quote) ≡ false → turn false c cs ≡ next false cs
unfolding turn
turn-outside c cs q = rw q refl

turn-short : (c : ℕ) (cs : Text) → (c == b'u') ≡ false → turn true backslash (c ∷ cs) ≡ next true cs
unfolding turn escape_turn
turn-short c cs u = rw u refl

-- A unit that is not a surrogate, one that is low, and one that is high
turn-basic :
    (a b c d : ℕ) (cs : Text)
    → low (unit a b c d) ≡ false
    → high (unit a b c d) ≡ false
    → turn true backslash (b'u' ∷ a ∷ b ∷ c ∷ d ∷ cs) ≡ next true cs
unfolding turn escape_turn unit_turn
turn-basic a b c d cs l h = rw (l, h) refl

turn-low :
    (a b c d : ℕ) (cs : Text)
    → low (unit a b c d) ≡ true
    → turn true backslash (b'u' ∷ a ∷ b ∷ c ∷ d ∷ cs) ≡ refused
unfolding turn escape_turn unit_turn
turn-low a b c d cs l = rw l refl

turn-high :
    (a b c d : ℕ) (cs : Text)
    → low (unit a b c d) ≡ false
    → high (unit a b c d) ≡ true
    → turn true backslash (b'u' ∷ a ∷ b ∷ c ∷ d ∷ cs) ≡ low_turn cs
unfolding turn escape_turn unit_turn
turn-high a b c d cs l h = rw (l, h) refl

-- After a high surrogate, all but a unit is refused.
low_turn-other : (x : ℕ) (cs : Text) → (x == backslash) ≡ false → low_turn (x ∷ cs) ≡ refused
unfolding low_turn
low_turn-other x [] e = refl
low_turn-other x (y ∷ []) e = refl
low_turn-other x (y ∷ a ∷ []) e = refl
low_turn-other x (y ∷ a ∷ b ∷ []) e = refl
low_turn-other x (y ∷ a ∷ b ∷ c ∷ []) e = refl
low_turn-other x (y ∷ a ∷ b ∷ c ∷ d ∷ cs) e = rw e refl

low_turn-short : (y : ℕ) (cs : Text) → (y == b'u') ≡ false → low_turn (backslash ∷ y ∷ cs) ≡ refused
unfolding low_turn
low_turn-short y [] e = refl
low_turn-short y (a ∷ []) e = refl
low_turn-short y (a ∷ b ∷ []) e = refl
low_turn-short y (a ∷ b ∷ c ∷ []) e = refl
low_turn-short y (a ∷ b ∷ c ∷ d ∷ cs) e = rw e refl

low_turn-unit :
    (a b c d : ℕ) (cs : Text) (l : Bool)
    → IsGlyph (unit a b c d)
    → low (unit a b c d) ≡ l
    → low_turn (backslash ∷ b'u' ∷ a ∷ b ∷ c ∷ d ∷ cs) ≡ (if l then next true cs else refused)
unfolding low_turn
low_turn-unit a b c d cs l g e =
    ap (λ o. if is_low_value o then next true cs else refused) g
    ∙ ap (λ o. if o then next true cs else refused) e

low-not-high : (n : ℕ) → is_low n ≡ true → is_high n ≡ false
low-not-high n l = ground arith

-- From within a string, the loop ends as the rest does where the surrogates of the string are paired, and
-- is refused where they are not.
abbrev Scans : Bool → Text → List Glyph → Type 0
Scans b rest gs =
    (n : ℕ)
    → length (write_glyphs gs rest) ≤ n
    → scan n true (write_glyphs gs rest) ≡ some (paired false gs && b)

-- One turn at a glyph that is no surrogate
pass :
    (n : ℕ) (c : ℕ) (cs t : Text) (o : Option Bool)
    → turn true c cs ≡ next true t
    → scan n true t ≡ o
    → scan (suc n) true (c ∷ cs) ≡ o
pass n c cs t o e f = scan-next n true true c cs t e ∙ f

close : (n : ℕ) (rest : Text) → scan (suc n) true (quote ∷ rest) ≡ scan n false rest
unfolding scan turn
close n rest = refl

open_string : (n : ℕ) (cs : Text) → scan (suc n) false (quote ∷ cs) ≡ scan n true cs
unfolding scan turn
open_string n cs = refl

abbrev TailScans : Bool → Text → List Glyph → Type 0
TailScans b rest [] = Unit
TailScans b rest (g ∷ gs) = Scans b rest gs

-- What a high surrogate leaves to the glyphs after it
after_high :
    (b : Bool) (rest : Text) (gs : List Glyph)
    → AreGlyphs gs
    → TailScans b rest gs
    → (n c : ℕ) (cs : Text) → length (write_glyphs gs rest) ≤ n
    → turn true c cs ≡ low_turn (write_glyphs gs rest)
    → scan (suc n) true (c ∷ cs) ≡ some (paired true gs && b)
unfolding paired length
after_high b rest [] g k n c cs l e = scan-refused n true c cs (e ∙ low_turn-other quote rest refl)
after_high b rest (plain d ∷ gs) g k n c cs l e =
    scan-refused n true c cs (e ∙ low_turn-other d _ g.0.1)
after_high b rest (short d ∷ gs) g k n c cs l e =
    scan-refused n true c cs (e ∙ low_turn-short d _ g.0)
after_high b rest (unit x y z w ∷ gs) g k n c cs l e = elim (Bool-cases (low (unit x y z w))) [
  | inl t ↦
      rw (t, low-not-high (value_of (parse_hex x y z w)) t)
        (pass n c cs _ _ (e ∙ low_turn-unit x y z w _ true g.0 t) (k n (omega (arith, l))))
  | inr t ↦ rw t (scan-refused n true c cs (e ∙ low_turn-unit x y z w _ false g.0 t))
]

-- One glyph, where what comes after it is known
glyph-Scans :
    (b : Bool) (rest : Text) (g : Glyph) (gs : List Glyph)
    → IsGlyph g
    → AreGlyphs gs
    → Scans b rest gs
    → TailScans b rest gs
    → Scans b rest (g ∷ gs)
unfolding paired length
glyph-Scans b rest (plain c) gs g h k r zero l = absurd (omega (arith, l))
glyph-Scans b rest (plain c) gs g h k r (suc n) l =
    pass n c _ _ _ (turn-plain c _ g.0 g.1) (k n (omega (arith, l)))
glyph-Scans b rest (short c) gs g h k r zero l = absurd (omega (arith, l))
glyph-Scans b rest (short c) gs g h k r (suc n) l =
    pass n backslash _ _ _ (turn-short c _ g) (k n (omega (arith, l)))
glyph-Scans b rest (unit x y z w) gs g h k r zero l = absurd (omega (arith, l))
glyph-Scans b rest (unit x y z w) gs g h k r (suc n) l = elim (Bool-cases (low (unit x y z w))) [
  | inl t ↦ rw t (scan-refused n true _ _ (turn-low x y z w _ t))
  | inr t ↦ elim (Bool-cases (high (unit x y z w))) [
    | inl u ↦
        rw (t, u) (after_high b rest gs h r n _ _ (omega (arith, l)) (turn-high x y z w _ t u))
    | inr u ↦ rw (t, u) (pass n _ _ _ _ (turn-basic x y z w _ t u) (k n (omega (arith, l))))
  ]
]

glyphs-Scans :
    (b : Bool) (rest : Text)
    → Ends b rest
    → (gs : List Glyph) → AreGlyphs gs
    → Scans b rest gs × TailScans b rest gs
unfolding paired length
glyphs-Scans b rest k [] g = (at_end, tt)
  where
    at_end : Scans b rest []
    at_end zero l = absurd (omega (arith, l))
    at_end (suc n) l = close n rest ∙ k n (omega (arith, l))
glyphs-Scans b rest k (g ∷ gs) h =
    let r = glyphs-Scans b rest k gs h.1 in (glyph-Scans b rest g gs h.0 h.1 r.0 r.1, r.0)

pieces-Ends : (ps : List Piece) → ArePieces ps → Ends (all_paired ps) (write_pieces ps)
unfolding all_paired length scan
pieces-Ends [] h n l = refl
pieces-Ends (outside c ∷ ps) h zero l = absurd (omega (arith, l))
pieces-Ends (outside c ∷ ps) h (suc n) l =
    scan-next n false false c _ _ (turn-outside c _ h.0) ∙ pieces-Ends ps h.1 n (omega (arith, l))
pieces-Ends (quoted gs ∷ ps) h zero l = absurd (omega (arith, l))
pieces-Ends (quoted gs ∷ ps) h (suc n) l =
    open_string n _
    ∙ (glyphs-Scans (all_paired ps) (write_pieces ps) (pieces-Ends ps h.1) gs h.0).0 n
        (omega (arith, l))

-- On a text made of bytes outside of strings and of strings, with fuel for each byte, the scan reads no
-- index out of range and ends: without a return exactly where in each string every low surrogate comes
-- right after a high one and every high one is followed by a low one, with false otherwise.
pub scan-all_paired :
    (ps : List Piece)
    → ArePieces ps
    → (n : ℕ) → length (write_pieces ps) ≤ n
    → scan n false (write_pieces ps) ≡ some (all_paired ps)
scan-all_paired ps h n l = pieces-Ends ps h n l
