-- ===== src/Strict/Trees.antt =====
-- The tokens of a decoded value, and which values `value` of internal/strictjson/strict.go takes.
use harness_codex.Prelude.{
  ℕ, suc, ◌<◌, ◌≡◌, refl, Bool, true, false, not, ◌&&◌, ◌||◌, Option, none, some, List, ◌∷◌,
  if◌then◌else◌, length, leb, arith,
}
use harness_codex.Canonical.Strings.{Text}
use harness_codex.Canonical.Values.{
  Value, null, boolean, number, string, array, object, Values, no_values, value, Members,
  no_members, member,
}
use harness_codex.Strict.Tokens.{
  Token, open_brace, close_brace, open_bracket, close_bracket, text, scalar, text_eq, contains,
  then_tokens, token_value, token_elements,
}

-- The tokens of a value, in front of those that follow
unfoldable mutual
  pub value_tokens : Value → List Token → List Token
  value_tokens null ts = scalar ∷ ts
  value_tokens (boolean b) ts = scalar ∷ ts
  value_tokens (number n) ts = scalar ∷ ts
  value_tokens (string s) ts = text s ∷ ts
  value_tokens (array vs) ts = open_bracket ∷ element_tokens vs ts
  value_tokens (object ms) ts = open_brace ∷ member_tokens ms ts

  pub element_tokens : Values → List Token → List Token
  element_tokens no_values ts = close_bracket ∷ ts
  element_tokens (value v vs) ts = value_tokens v (element_tokens vs ts)

  pub member_tokens : Members → List Token → List Token
  member_tokens no_members ts = close_brace ∷ ts
  member_tokens (member k v ms) ts = text k ∷ value_tokens v (member_tokens ms ts)

unfoldable pub has_key : Text → Members → Bool
unfolding text_eq
has_key k no_members = false
has_key k (member l v ms) = text_eq l k || has_key k ms

-- No value is more than 32 levels deep, from a level on, and no object has a key twice.
unfoldable mutual
  unfolding has_key

  pub is_strict : ℕ → Value → Bool
  is_strict depth null = leb depth 32
  is_strict depth (boolean b) = leb depth 32
  is_strict depth (number n) = leb depth 32
  is_strict depth (string s) = leb depth 32
  is_strict depth (array vs) = leb depth 32 && are_strict (suc depth) vs
  is_strict depth (object ms) = leb depth 32 && are_strict_members (suc depth) ms

  pub are_strict : ℕ → Values → Bool
  are_strict depth no_values = true
  are_strict depth (value v vs) = is_strict depth v && are_strict depth vs

  pub are_strict_members : ℕ → Members → Bool
  are_strict_members depth no_members = true
  are_strict_members depth (member k v ms) =
      not (has_key k ms) && (is_strict depth v && are_strict_members depth ms)

-- None of the keys is among those seen.
unfoldable pub fresh : List Text → Members → Bool
unfolding contains
fresh seen no_members = true
fresh seen (member k v ms) = not (contains seen k) && fresh seen ms

abbrev pub given : Bool → List Token → Option (List Token)
given b ts = if b then some ts else none

mutual
  unfolding length value_tokens

  pub value_tokens-longer : (v : Value) (ts : List Token) → length ts < length (value_tokens v ts)
  value_tokens-longer null ts = omega arith
  value_tokens-longer (boolean b) ts = omega arith
  value_tokens-longer (number n) ts = omega arith
  value_tokens-longer (string s) ts = omega arith
  value_tokens-longer (array vs) ts = let h = element_tokens-longer vs ts in omega (arith, h)
  value_tokens-longer (object ms) ts = let h = member_tokens-longer ms ts in omega (arith, h)

  pub element_tokens-longer :
      (vs : Values) (ts : List Token) → length ts < length (element_tokens vs ts)
  element_tokens-longer no_values ts = omega arith
  element_tokens-longer (value v vs) ts =
      let h = element_tokens-longer vs ts in
      let k = value_tokens-longer v (element_tokens vs ts) in omega (arith, h, k)

  pub member_tokens-longer :
      (ms : Members) (ts : List Token) → length ts < length (member_tokens ms ts)
  member_tokens-longer no_members ts = omega arith
  member_tokens-longer (member k v ms) ts =
      let h = member_tokens-longer ms ts in
      let j = value_tokens-longer v (member_tokens ms ts) in omega (arith, h, j)

pub fresh-more :
    (k : Text) (seen : List Text) (ms : Members)
    → fresh (k ∷ seen) ms ≡ not (has_key k ms) && fresh seen ms
unfolding fresh contains has_key
fresh-more k seen no_members = refl
fresh-more k seen (member l v ms) = let h = fresh-more k seen ms in ground arith

pub elements-more :
    (f depth : ℕ) (v : Value) (ts : List Token)
    → token_elements (suc f) depth (value_tokens v ts)
      ≡ then_tokens (token_value f (suc depth) (value_tokens v ts)) (token_elements f depth)
unfolding token_elements value_tokens
elements-more f depth null ts = refl
elements-more f depth (boolean b) ts = refl
elements-more f depth (number n) ts = refl
elements-more f depth (string s) ts = refl
elements-more f depth (array vs) ts = refl
elements-more f depth (object ms) ts = refl
