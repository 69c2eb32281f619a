-- ===== src/Strict/Taken.antt =====
-- What `value` of internal/strictjson/strict.go returns on the tokens of a value.
use harness_codex.Prelude.{
  ℕ, zero, suc, ◌*◌, ◌≤◌, ◌<◌, ◌≡◌, refl, ap, ◌∙◌, inl, inr, Bool, true, false, not, ◌&&◌, Option,
  List, [], ◌∷◌, length, Bool-cases, ltb, leb, arith,
}
use harness_codex.Canonical.Strings.{Text}
use harness_codex.Canonical.Values.{
  Value, null, boolean, number, string, array, object, Values, no_values, value, Members,
  no_members, member,
}
use harness_codex.Strict.Tokens.{
  Token, text, scalar, contains, then_tokens, token_value, token_elements, token_members,
}
use harness_codex.Strict.Trees.{
  value_tokens, element_tokens, member_tokens, has_key, is_strict, are_strict, are_strict_members,
  fresh, given, value_tokens-longer, fresh-more, elements-more,
}

too_deep : (depth : ℕ) → ltb 32 depth ≡ true → leb depth 32 ≡ false
too_deep depth h = ground arith

not_deep : (depth : ℕ) → ltb 32 depth ≡ false → leb depth 32 ≡ true
not_deep depth h = ground arith

then-given :
    (a b : Bool) (us ts : List Token) (g : List Token → Option (List Token))
    → g us ≡ given b ts
    → then_tokens (given a us) g ≡ given (a && b) ts
then-given true b us ts g e = e
then-given false b us ts g e = refl

no_key : (ms : Members) → fresh [] ms ≡ true
unfolding fresh contains
no_key no_members = refl
no_key (member k v ms) = no_key ms

scalar-taken :
    (f depth : ℕ) (ts : List Token)
    → token_value (suc f) depth (scalar ∷ ts) ≡ given (leb depth 32) ts
unfolding token_value
scalar-taken f depth ts = elim (Bool-cases (ltb 32 depth)) [
  | inl t ↦ rw (t, too_deep depth t, token_value) refl
  | inr t ↦ rw (t, not_deep depth t, token_value) refl
]

text-taken :
    (f depth : ℕ) (s : Text) (ts : List Token)
    → token_value (suc f) depth (text s ∷ ts) ≡ given (leb depth 32) ts
unfolding token_value
text-taken f depth s ts = elim (Bool-cases (ltb 32 depth)) [
  | inl t ↦ rw (t, too_deep depth t, token_value) refl
  | inr t ↦ rw (t, not_deep depth t, token_value) refl
]

regroup : (h r a b : Bool) → a && ((not h && r) && b) ≡ r && (not h && (a && b))
regroup h r a b = ground arith

-- A member whose key is new, where the rest is known
after_key :
    (k : Text) (v : Value) (ms : Members) (seen : List Text) (depth : ℕ) (ts : List Token) (f : ℕ)
    → token_value f (suc depth) (value_tokens v (member_tokens ms ts))
      ≡ given (is_strict (suc depth) v) (member_tokens ms ts)
    → token_members f depth (k ∷ seen) (member_tokens ms ts)
      ≡ given (fresh (k ∷ seen) ms && are_strict_members (suc depth) ms) ts
    → then_tokens
        (token_value f (suc depth) (value_tokens v (member_tokens ms ts)))
        (token_members f depth (k ∷ seen))
      ≡ given
          (fresh seen ms
            && (not (has_key k ms)
                && (is_strict (suc depth) v && are_strict_members (suc depth) ms)))
          ts
after_key k v ms seen depth ts f e g =
    ap (λ o. then_tokens o (token_members f depth (k ∷ seen))) e
    ∙ then-given (is_strict (suc depth) v)
        (fresh (k ∷ seen) ms && are_strict_members (suc depth) ms) (member_tokens ms ts) ts
        (token_members f depth (k ∷ seen)) g
    ∙ ap (λ b. given (is_strict (suc depth) v && (b && are_strict_members (suc depth) ms)) ts)
        (fresh-more k seen ms)
    ∙ ap (λ b. given b ts)
        (regroup (has_key k ms) (fresh seen ms) (is_strict (suc depth) v)
          (are_strict_members (suc depth) ms))

mutual
  unfolding length value_tokens token_value is_strict fresh

  pub value-takes :
      (v : Value) (depth : ℕ) (ts : List Token) (f : ℕ)
      → 2 * length (value_tokens v ts) ≤ f
      → token_value f depth (value_tokens v ts) ≡ given (is_strict depth v) ts
  value-takes v depth ts zero l = let h = value_tokens-longer v ts in absurd (omega (arith, h, l))
  value-takes null depth ts (suc f) l = scalar-taken f depth ts
  value-takes (boolean b) depth ts (suc f) l = scalar-taken f depth ts
  value-takes (number n) depth ts (suc f) l = scalar-taken f depth ts
  value-takes (string s) depth ts (suc f) l = text-taken f depth s ts
  value-takes (array vs) depth ts (suc f) l = elim (Bool-cases (ltb 32 depth)) [
    | inl t ↦ rw (t, too_deep depth t, token_value) refl
    | inr t ↦ rw (t, not_deep depth t, token_value) (elements-take vs depth ts f (omega (arith, l)))
  ]
  value-takes (object ms) depth ts (suc f) l = elim (Bool-cases (ltb 32 depth)) [
    | inl t ↦ rw (t, too_deep depth t, token_value) refl
    | inr t ↦
        rw (t, not_deep depth t, token_value)
          (members-take ms [] depth ts f (omega (arith, l))
            ∙ ap (λ b. given (b && are_strict_members (suc depth) ms) ts) (no_key ms))
  ]

  elements-take :
      (vs : Values) (depth : ℕ) (ts : List Token) (f : ℕ)
      → 2 * length (element_tokens vs ts) < f
      → token_elements f depth (element_tokens vs ts) ≡ given (are_strict (suc depth) vs) ts
  elements-take vs depth ts zero l = absurd (omega (arith, l))
  elements-take no_values depth ts (suc f) l = refl
  elements-take (value v vs) depth ts (suc f) l =
      let h = value_tokens-longer v (element_tokens vs ts) in
      elements-more f depth v (element_tokens vs ts)
      ∙ ap (λ o. then_tokens o (token_elements f depth))
          (value-takes v (suc depth) (element_tokens vs ts) f (omega (arith, l)))
      ∙ then-given (is_strict (suc depth) v) (are_strict (suc depth) vs) (element_tokens vs ts) ts
          (token_elements f depth) (elements-take vs depth ts f (omega (arith, l, h)))

  members-take :
      (ms : Members) (seen : List Text) (depth : ℕ) (ts : List Token) (f : ℕ)
      → 2 * length (member_tokens ms ts) < f
      → token_members f depth seen (member_tokens ms ts)
        ≡ given (fresh seen ms && are_strict_members (suc depth) ms) ts
  members-take ms seen depth ts zero l = absurd (omega (arith, l))
  members-take no_members seen depth ts (suc f) l = refl
  members-take (member k v ms) seen depth ts (suc f) l = elim (Bool-cases (contains seen k)) [
    | inl t ↦ rw (t, token_members) refl
    | inr t ↦
        rw (t, token_members)
          (after_key k v ms seen depth ts f
            (value-takes v (suc depth) (member_tokens ms ts) f (omega (arith, l)))
            (let h = value_tokens-longer v (member_tokens ms ts) in
              members-take ms (k ∷ seen) depth ts f (omega (arith, l, h))))
  ]
