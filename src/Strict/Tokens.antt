-- ===== src/Strict/Tokens.antt =====
-- value and Valid of internal/strictjson/strict.go. The tokens are what json.Decoder.Token gives of valid
-- JSON; the end of the list is io.EOF.
use harness_codex.Prelude.{
  ℕ, zero, suc, ◌*◌, Bool, true, false, not, ◌&&◌, ◌||◌, Option, none, some, List, [], ◌∷◌, ◌==◌,
  if◌then◌else◌, ltb, length,
}
use harness_codex.Canonical.Strings.{Text}
use harness_codex.Strict.Escapes.{scan}

-- json.Token: a delimiter, a string, or another scalar
pub data Token : Type 0 where
  open_brace close_brace open_bracket close_bracket : Token
  text : Text → Token
  scalar : Token

unfoldable pub text_eq : Text → Text → Bool
text_eq [] [] = true
text_eq [] (d ∷ ds) = false
text_eq (c ∷ cs) [] = false
text_eq (c ∷ cs) (d ∷ ds) = (c == d) && text_eq cs ds

-- `keys[key]`, the keys put in so far
unfoldable pub contains : List Text → Text → Bool
unfolding text_eq
contains [] key = false
contains (k ∷ keys) key = text_eq key k || contains keys key

-- Decoder.More, when a token follows
abbrev pub more : Token → Bool
more close_brace = false
more close_bracket = false
more t = true

abbrev pub then_tokens :
    Option (List Token) → (List Token → Option (List Token)) → Option (List Token)
then_tokens none f = none
then_tokens (some ts) f = f ts

-- `end == json.Delim(…)`
abbrev pub end_object : Token → List Token → Option (List Token)
end_object close_brace ts = some ts
end_object t ts = none

abbrev pub end_array : Token → List Token → Option (List Token)
end_array close_bracket ts = some ts
end_array t ts = none

-- value: the tokens that are left where it returns true, nothing where it returns false or the fuel ends.
-- A token uses at most two turns.
unfoldable mutual
  unfolding contains

  pub token_value : ℕ → ℕ → List Token → Option (List Token)
  token_value zero depth ts = none
  token_value (suc f) depth [] = none
  token_value (suc f) depth (t ∷ ts) = elim (ltb 32 depth) [
    | true ↦ none
    | false ↦ elim t [
      | open_brace ↦ token_members f depth [] ts
      | open_bracket ↦ token_elements f depth ts
      | close_brace ↦ none
      | close_bracket ↦ none
      | text s ↦ some ts
      | scalar ↦ some ts
    ]
  ]

  pub token_elements : ℕ → ℕ → List Token → Option (List Token)
  token_elements zero depth ts = none
  token_elements (suc f) depth [] = none
  token_elements (suc f) depth (t ∷ ts) = elim (more t) [
    | true ↦ then_tokens (token_value f (suc depth) (t ∷ ts)) (token_elements f depth)
    | false ↦ end_array t ts
  ]

  pub token_members : ℕ → ℕ → List Text → List Token → Option (List Token)
  token_members zero depth keys ts = none
  token_members (suc f) depth keys [] = none
  token_members (suc f) depth keys (t ∷ ts) = elim (more t) [
    | false ↦ end_object t ts
    | true ↦ elim t [
      | text key ↦ elim (contains keys key) [
        | true ↦ none
        | false ↦ then_tokens (token_value f (suc depth) ts) (token_members f depth (key ∷ keys))
      ]
      | open_brace ↦ none
      | close_brace ↦ none
      | open_bracket ↦ none
      | close_bracket ↦ none
      | scalar ↦ none
    ]
  ]

-- What Valid takes of the standard library: utf8.Valid, json.Valid, and the tokens of a decoder with
-- UseNumber
pub record Decoding : Type 0 where
  pub utf8_valid : Text → Bool
  pub json_valid : Text → Bool
  pub tokens : Text → List Token

abbrev pub at_end : Option (List Token) → Bool
at_end none = false
at_end (some []) = true
at_end (some (t ∷ ts)) = false

-- The checks after the scan
abbrev pub after_scan : Option Bool → List Token → Option Bool
after_scan none ts = none
after_scan (some false) ts = some false
after_scan (some true) ts = some (at_end (token_value (2 * length ts) 0 ts))

-- Valid, and nothing where an index is out of range
unfoldable pub valid : Decoding → Text → Option Bool
unfolding scan token_value length
valid d bytes =
    if not (d.utf8_valid bytes) || not (d.json_valid bytes)
    then some false
    else after_scan (scan (length bytes) false bytes) (d.tokens bytes)
