-- ===== src/Strict/Accepted.antt =====
-- What Valid of internal/strictjson/strict.go takes.
use harness_codex.Prelude.{
  ◌*◌, ◌≡◌, refl, ap, ◌∙◌, Bool, true, false, not, ◌&&◌, ◌||◌, if◌then◌else◌, Option, some, List,
  [], length, arith,
}
use harness_codex.Canonical.Values.{Value}
use harness_codex.Strict.Tokens.{Token, token_value, Decoding, at_end, after_scan, valid}
use harness_codex.Strict.Glyphs.{Piece, ArePieces, write_pieces, all_paired}
use harness_codex.Strict.Trees.{value_tokens, is_strict, given}
use harness_codex.Strict.Pairing.{scan-all_paired}
use harness_codex.Strict.Taken.{value-takes}

at_end-given : (b : Bool) → at_end (given b []) ≡ b
at_end-given true = refl
at_end-given false = refl

after_scan-tokens :
    (b : Bool) (v : Value) (ts : List Token)
    → ts ≡ value_tokens v []
    → after_scan (some b) ts ≡ some (b && is_strict 0 v)
after_scan-tokens false v ts e = refl
after_scan-tokens true v ts e =
    ap (λ us. some (at_end (token_value (2 * length us) 0 us))) e
    ∙ ap (λ o. some (at_end o)) (value-takes v 0 [] (2 * length (value_tokens v [])) (omega arith))
    ∙ ap (λ b. some b) (at_end-given (is_strict 0 v))

checks :
    (u j b : Bool) (o : Option Bool)
    → o ≡ some b
    → (if not u || not j then some false else o) ≡ some ((u && j) && b)
checks true true b o e = e
checks true false b o e = refl
checks false j b o e = refl

-- On a text made of bytes outside of strings and of strings, whose tokens are those of a value, Valid
-- reads no index out of range, and returns true exactly where the library takes the text for UTF-8 and
-- for JSON, each high surrogate escape is followed by a low one and no low one stands elsewhere, the
-- value is nested at most 32 levels deep, and no object has a key twice.
pub valid-is_strict :
    (d : Decoding) (ps : List Piece) (v : Value)
    → ArePieces ps
    → d.tokens (write_pieces ps) ≡ value_tokens v []
    → valid d (write_pieces ps)
      ≡ some (
          (d.utf8_valid (write_pieces ps) && d.json_valid (write_pieces ps))
          && (all_paired ps && is_strict 0 v))
unfolding valid
valid-is_strict d ps v h e =
    checks (d.utf8_valid (write_pieces ps)) (d.json_valid (write_pieces ps)) _ _ (
      ap (λ o. after_scan o (d.tokens (write_pieces ps)))
        (scan-all_paired ps h (length (write_pieces ps)) (omega arith))
      ∙ after_scan-tokens (all_paired ps) v (d.tokens (write_pieces ps)) e)
