-- ===== src/Canonical/Reader.antt =====
-- A reader of JSON without white space, by its grammar: strings without bare control characters, numbers
-- by their grammar, no comma at an end.
use harness_codex.Prelude.{
  ℕ, zero, suc, Bool, true, false, Option, none, some, [], ◌∷◌, ◌==◌, if◌then◌else◌,
}
use harness_codex.Canonical.Strings.{Text, quote}
use harness_codex.Canonical.Quoted.{read_string}
use harness_codex.Canonical.Values.{
  Value, null, boolean, number, string, array, object, Values, no_values, value, Members,
  no_members, member,
}
use harness_codex.Canonical.Numerals.{is_numeral, is_numeral_from, is_number_character}

-- The characters of a number in front, and the text after them
abbrev pub add_character : ℕ → Text × Text → Text × Text
add_character c (ds, rest) = (c ∷ ds, rest)

unfoldable pub number_run : Text → Text × Text
number_run [] = ([], [])
number_run (c ∷ cs) =
    let rest = number_run cs in if is_number_character c then add_character c rest else ([], c ∷ cs)

abbrev pub as_number : Text × Text → Option (Value × Text)
as_number (t, rest) = if is_numeral t then some (number t, rest) else none

unfoldable pub read_number : Text → Option (Value × Text)
unfolding number_run is_numeral_from
read_number t = as_number (number_run t)

-- The rest of a word
unfoldable pub expect : Text → Value → Text → Option (Value × Text)
expect [] v rest = some (v, rest)
expect (d ∷ ds) v [] = none
expect (d ∷ ds) v (c ∷ cs) = let rest = expect ds v cs in if c == d then rest else none

abbrev pub as_string : Option (Text × Text) → Option (Value × Text)
as_string none = none
as_string (some (s, rest)) = some (string s, rest)

abbrev pub as_array : Option (Values × Text) → Option (Value × Text)
as_array none = none
as_array (some (vs, rest)) = some (array vs, rest)

abbrev pub as_object : Option (Members × Text) → Option (Value × Text)
as_object none = none
as_object (some (ms, rest)) = some (object ms, rest)

-- A first part, and the rest read from where it ends
abbrev pub then_values :
    Option (Value × Text) → (Text → Option (Values × Text)) → Option (Values × Text)
then_values none f = none
then_values (some (v, rest)) f = elim (f rest) [
  | none ↦ none
  | some (vs, after) ↦ some (value v vs, after)
]

abbrev pub then_members :
    Text → Option (Value × Text) → (Text → Option (Members × Text)) → Option (Members × Text)
then_members k none f = none
then_members k (some (v, rest)) f = elim (f rest) [
  | none ↦ none
  | some (ms, after) ↦ some (member k v ms, after)
]

-- A key and its colon
abbrev pub after_colon : Text → Option Text
after_colon [] = none
after_colon (c ∷ cs) = if c == b':' then some cs else none

abbrev pub after_comma : Bool → Text → Option Text
after_comma false cs = some cs
after_comma true [] = none
after_comma true (c ∷ cs) = if c == b',' then some cs else none

-- `later` says that a value stands before. The first argument bounds the nesting and the length.
unfoldable mutual
  unfolding read_string read_number expect

  pub read_value : ℕ → Text → Option (Value × Text)
  read_value zero cs = none
  read_value (suc f) [] = none
  read_value (suc f) (c ∷ cs) = elim (c == quote) [
    | true ↦ as_string (read_string (c ∷ cs))
    | false ↦ elim (c == b'[') [
      | true ↦ as_array (read_values f false cs)
      | false ↦ elim (c == b'{') [
        | true ↦ as_object (read_members f false cs)
        | false ↦ elim (c == b'n') [
          | true ↦ expect (b'u' ∷ b'l' ∷ b'l' ∷ []) null cs
          | false ↦ elim (c == b't') [
            | true ↦ expect (b'r' ∷ b'u' ∷ b'e' ∷ []) (boolean true) cs
            | false ↦ elim (c == b'f') [
              | true ↦ expect (b'a' ∷ b'l' ∷ b's' ∷ b'e' ∷ []) (boolean false) cs
              | false ↦ read_number (c ∷ cs)
            ]
          ]
        ]
      ]
    ]
  ]

  pub read_values : ℕ → Bool → Text → Option (Values × Text)
  read_values zero later cs = none
  read_values (suc f) later [] = none
  read_values (suc f) later (c ∷ cs) = elim (c == b']') [
    | true ↦ some (no_values, cs)
    | false ↦ elim (after_comma later (c ∷ cs)) [
      | none ↦ none
      | some ds ↦ then_values (read_value f ds) (read_values f true)
    ]
  ]

  pub read_members : ℕ → Bool → Text → Option (Members × Text)
  read_members zero later cs = none
  read_members (suc f) later [] = none
  read_members (suc f) later (c ∷ cs) = elim (c == b'}') [
    | true ↦ some (no_members, cs)
    | false ↦ elim (after_comma later (c ∷ cs)) [
      | none ↦ none
      | some ds ↦ elim (read_string ds) [
        | none ↦ none
        | some (k, es) ↦ elim (after_colon es) [
          | none ↦ none
          | some gs ↦ then_members k (read_value f gs) (read_members f true)
        ]
      ]
    ]
  ]
