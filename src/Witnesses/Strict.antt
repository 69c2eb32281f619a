-- ===== src/Witnesses/Strict.antt =====
-- The theorems on strict JSON at a small text.
use harness_codex.Prelude.{◌≡◌, refl, true, false, some, List, [], ◌∷◌, length, arith}
use harness_codex.Canonical.Values.{Value, string, array, no_values, value}
use harness_codex.Strict.Escapes.{scan, parse_hex, hex_value}
use harness_codex.Strict.Tokens.{open_bracket, close_bracket, text, Decoding, valid}
use harness_codex.Strict.Glyphs.{
  Piece, outside, quoted, short, unit, ArePieces, write_pieces, all_paired, paired,
}
use harness_codex.Strict.Trees.{value_tokens, is_strict}
use harness_codex.Strict.Pairing.{scan-all_paired}
use harness_codex.Strict.Accepted.{valid-is_strict}

-- `["\ud83d\uDE00\n"]`
abbrev greeting : List Piece
greeting =
    outside b'['
    ∷ quoted (unit b'd' b'8' b'3' b'd' ∷ unit b'D' b'E' b'0' b'0' ∷ short b'n' ∷ [])
    ∷ outside b']'
    ∷ []

greeting-ArePieces : ArePieces greeting
unfolding parse_hex hex_value
greeting-ArePieces = (refl, ((refl, (refl, (refl, tt))), (refl, tt)))

abbrev greeting_value : Value
greeting_value = array (value (string (0x1F600 ∷ 10 ∷ [])) no_values)

-- The library, at this text
abbrev decoding : Decoding
decoding = record {
  utf8_valid = λ t. true;
  json_valid = λ t. true;
  tokens = λ t. open_bracket ∷ text (0x1F600 ∷ 10 ∷ []) ∷ close_bracket ∷ [];
}

valid-is_strict_example : valid decoding (write_pieces greeting) ≡ some true
unfolding all_paired paired is_strict value_tokens parse_hex hex_value
valid-is_strict_example = valid-is_strict decoding greeting greeting_value greeting-ArePieces refl

scan-all_paired_example : scan 20 false (write_pieces greeting) ≡ some true
unfolding all_paired paired parse_hex hex_value length
scan-all_paired_example = scan-all_paired greeting greeting-ArePieces 20 (omega arith)

-- `"\ude00"`, a low surrogate by itself
lone : scan 8 false (b'"' ∷ b'\\' ∷ b'u' ∷ b'd' ∷ b'e' ∷ b'0' ∷ b'0' ∷ b'"' ∷ []) ≡ some false
unfolding scan parse_hex hex_value
lone = refl
