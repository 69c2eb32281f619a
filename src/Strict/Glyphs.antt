-- ===== src/Strict/Glyphs.antt =====
-- The strings of JSON texts, and the pairing of the surrogates that internal/strictjson/strict.go wants.
use harness_codex.Prelude.{ℕ, ◌≡◌, Bool, true, false, not, ◌&&◌, some, List, [], ◌∷◌, ◌==◌}
use harness_codex.Canonical.Strings.{Text, quote, backslash}
use harness_codex.Strict.Escapes.{parse_hex, value_of, is_high, is_low}

-- What a JSON string is made of: a byte by itself, a byte after a backslash, or `\u` with four digits
pub data Glyph : Type 0 where
  plain : ℕ → Glyph
  short : ℕ → Glyph
  unit : ℕ → ℕ → ℕ → ℕ → Glyph

abbrev pub IsGlyph : Glyph → Type 0
IsGlyph (plain c) = ((c == quote) ≡ false) × ((c == backslash) ≡ false)
IsGlyph (short c) = (c == b'u') ≡ false
IsGlyph (unit a b c d) = parse_hex a b c d ≡ some (value_of (parse_hex a b c d))

abbrev pub AreGlyphs : List Glyph → Type 0
AreGlyphs [] = Unit
AreGlyphs (g ∷ gs) = IsGlyph g × AreGlyphs gs

abbrev pub write_glyphs : List Glyph → Text → Text
write_glyphs [] rest = quote ∷ rest
write_glyphs (plain c ∷ gs) rest = c ∷ write_glyphs gs rest
write_glyphs (short c ∷ gs) rest = backslash ∷ c ∷ write_glyphs gs rest
write_glyphs (unit a b c d ∷ gs) rest = backslash ∷ b'u' ∷ a ∷ b ∷ c ∷ d ∷ write_glyphs gs rest

-- A JSON text: bytes outside of strings, and strings
pub data Piece : Type 0 where
  outside : ℕ → Piece
  quoted : List Glyph → Piece

abbrev pub ArePieces : List Piece → Type 0
ArePieces [] = Unit
ArePieces (outside c ∷ ps) = ((c == quote) ≡ false) × ArePieces ps
ArePieces (quoted gs ∷ ps) = AreGlyphs gs × ArePieces ps

abbrev pub write_pieces : List Piece → Text
write_pieces [] = []
write_pieces (outside c ∷ ps) = c ∷ write_pieces ps
write_pieces (quoted gs ∷ ps) = quote ∷ write_glyphs gs (write_pieces ps)

abbrev pub high : Glyph → Bool
high (plain c) = false
high (short c) = false
high (unit a b c d) = is_high (value_of (parse_hex a b c d))

abbrev pub low : Glyph → Bool
low (plain c) = false
low (short c) = false
low (unit a b c d) = is_low (value_of (parse_hex a b c d))

abbrev pub agrees : Bool → Bool → Bool
agrees true b = b
agrees false b = not b

-- A low surrogate comes right after each high surrogate and nowhere else; `waiting` says whether a high
-- surrogate stands in front.
unfoldable pub paired : Bool → List Glyph → Bool
paired waiting [] = not waiting
paired waiting (g ∷ gs) = agrees waiting (low g) && paired (high g) gs

unfoldable pub all_paired : List Piece → Bool
unfolding paired
all_paired [] = true
all_paired (outside c ∷ ps) = all_paired ps
all_paired (quoted gs ∷ ps) = paired false gs && all_paired ps
