-- ===== src/Canonical/Quoted.antt =====
-- A reader of JSON strings by their grammar, and what it reads of canonical strings.
use harness_codex.Prelude.{
  ℕ, zero, suc, ◌+◌, ◌*◌, ◌/◌, ◌%◌, ◌<◌, ◌≡◌, refl, ap, ◌∙◌, false, ◌||◌, Option, none, some, [],
  ◌∷◌, ◌++◌, ◌==◌, if◌then◌else◌, ltb, arith,
}
use mathlib.Core.List.{append_assoc}
use harness_codex.Canonical.Strings.{
  Text, quote, backslash, hex_digit, control, append_rune, append_runes, append_json_string,
}
use harness_codex.Strict.Escapes.{hex_value}

-- Where the reader is: among plain characters, after a backslash, or `suc k` hexadecimal digits before
-- the end of an escape whose digits so far are a number.
pub data Place : Type 0 where
  plain escaped : Place
  digits : ℕ → ℕ → Place

-- The character of a short escape
short : ℕ → Option ℕ
short c =
    if c == quote || c == backslash || c == b'/'
    then some c
    else if c == b'b'
    then some 8
    else if c == b'f'
    then some 12
    else if c == b'n'
    then some 10
    else if c == b'r'
    then some 13
    else if c == b't'
    then some 9
    else none

abbrev add_rune : ℕ → Option (Text × Text) → Option (Text × Text)
add_rune r none = none
add_rune r (some (s, rest)) = some (r ∷ s, rest)

abbrev add_short : Option ℕ → Option (Text × Text) → Option (Text × Text)
add_short none o = none
add_short (some r) o = add_rune r o

abbrev next_place : ℕ → ℕ → Option ℕ → Place
next_place zero acc d = plain
next_place (suc k) acc none = plain
next_place (suc k) acc (some d) = digits k (16 * acc + d)

abbrev add_digit : ℕ → ℕ → Option ℕ → Option (Text × Text) → Option (Text × Text)
add_digit k acc none o = none
add_digit zero acc (some d) o = add_rune (16 * acc + d) o
add_digit (suc k) acc (some d) o = o

abbrev next_plain : ℕ → Place
next_plain c = if c == backslash then escaped else plain

abbrev next_escaped : ℕ → Place
next_escaped c = if c == b'u' then digits 3 0 else plain

-- The characters up to the closing quote, and the text after it. A control character has to be escaped.
-- An escape `\u` stands for one rune;
-- pairs of surrogates are not joined, since the writer gives none.
unfoldable pub read_runes : Place → Text → Option (Text × Text)
unfolding hex_value short
read_runes p [] = none
read_runes plain (c ∷ cs) =
    let rest = read_runes (next_plain c) cs in
    if c == quote
    then some ([], cs)
    else if c == backslash
    then rest
    else if ltb c 32
    then none
    else add_rune c rest
read_runes escaped (c ∷ cs) =
    let rest = read_runes (next_escaped c) cs in
    if c == b'u' then rest else add_short (short c) rest
read_runes (digits k acc) (c ∷ cs) =
    add_digit k acc (hex_value c) (read_runes (next_place k acc (hex_value c)) cs)

-- A string: an opening quote, and the characters up to the closing one
unfoldable pub read_string : Text → Option (Text × Text)
unfolding read_runes
read_string [] = none
read_string (c ∷ cs) = if c == quote then read_runes plain cs else none

hex_value-hex_digit : (d : ℕ) → d < 16 → hex_value (hex_digit d) ≡ some d
unfolding hex_value hex_digit
hex_value-hex_digit d l = ground arith

hex_value-zero : hex_value b'0' ≡ some 0
unfolding hex_value
hex_value-zero = refl

read_runes-digit :
    (k acc c d : ℕ) (cs : Text)
    → hex_value c ≡ some d
    → read_runes (digits (suc k) acc) (c ∷ cs) ≡ read_runes (digits k (16 * acc + d)) cs
unfolding read_runes
read_runes-digit k acc c d cs e =
    ap (λ o. add_digit (suc k) acc o (read_runes (next_place (suc k) acc o) cs)) e

read_runes-last_digit :
    (acc c d : ℕ) (cs : Text)
    → hex_value c ≡ some d
    → read_runes (digits zero acc) (c ∷ cs) ≡ add_rune (16 * acc + d) (read_runes plain cs)
unfolding read_runes
read_runes-last_digit acc c d cs e =
    ap (λ o. add_digit zero acc o (read_runes (next_place zero acc o) cs)) e

read_runes-escape :
    (cs : Text) → read_runes plain (backslash ∷ b'u' ∷ cs) ≡ read_runes (digits 3 0) cs
unfolding read_runes
read_runes-escape cs = refl

read_runes-control :
    (r : ℕ) (rest : Text)
    → r < 32
    → read_runes plain (control r ++ rest) ≡ add_rune r (read_runes plain rest)
unfolding control
read_runes-control r rest l =
    let high : r / 16 < 16 = omega arith in
    let low : r % 16 < 16 = omega arith in
    let same : 16 * (16 * (16 * (16 * 0 + 0) + 0) + r / 16) + r % 16 ≡ r = omega arith in
    let last = hex_digit (r % 16) ∷ rest in
    let third = hex_digit (r / 16) ∷ last in
    read_runes-escape (b'0' ∷ b'0' ∷ third)
    ∙ read_runes-digit 2 0 b'0' 0 (b'0' ∷ third) hex_value-zero
    ∙ read_runes-digit 1 (16 * 0 + 0) b'0' 0 third hex_value-zero
    ∙ read_runes-digit 0 _ _ _ last (hex_value-hex_digit (r / 16) high)
    ∙ read_runes-last_digit _ _ _ rest (hex_value-hex_digit (r % 16) low)
    ∙ ap (λ c. add_rune c (read_runes plain rest)) same

read_runes-short :
    (c r : ℕ) (rest : Text)
    → (c == b'u') ≡ false
    → short c ≡ some r
    → read_runes plain (backslash ∷ c ∷ rest) ≡ add_rune r (read_runes plain rest)
unfolding read_runes
read_runes-short c r rest n e = rw (n, e) refl

read_runes-plain :
    (r : ℕ) (rest : Text)
    → (r == quote) ≡ false
    → (r == backslash) ≡ false
    → ltb r 32 ≡ false
    → read_runes plain (r ∷ rest) ≡ add_rune r (read_runes plain rest)
unfolding read_runes
read_runes-plain r rest a b l = rw (a, b, l) refl

-- The reader takes one character of what the writer appends for it.
read_runes-append_rune :
    (r : ℕ) (rest : Text)
    → read_runes plain (append_rune r ++ rest) ≡ add_rune r (read_runes plain rest)
unfolding append_rune short
read_runes-append_rune r rest = ground (
  arith,
  read_runes-short r r rest,
  read_runes-short b'b' 8 rest refl refl,
  read_runes-short b'f' 12 rest refl refl,
  read_runes-short b'n' 10 rest refl refl,
  read_runes-short b'r' 13 rest refl refl,
  read_runes-short b't' 9 rest refl refl,
  read_runes-control r rest,
  read_runes-plain r rest,
)

read_runes-quote : (rest : Text) → read_runes plain (quote ∷ rest) ≡ some ([], rest)
unfolding read_runes
read_runes-quote rest = refl

read_runes-append_runes :
    (value rest : Text) → read_runes plain (append_runes value ++ quote ∷ rest) ≡ some (value, rest)
unfolding append_runes
read_runes-append_runes [] rest = read_runes-quote rest
read_runes-append_runes (r ∷ rs) rest =
    rw
      (
        append_assoc (append_rune r) (append_runes rs) (quote ∷ rest),
        read_runes-append_rune r (append_runes rs ++ quote ∷ rest),
        read_runes-append_runes rs rest,
      )
      refl

-- A canonical string can be read back, whatever text follows it: the reader of JSON strings takes the
-- quoted and escaped text and gives the value, and leaves the text that follows.
pub read_string-append_json_string :
    (value rest : Text) → read_string (append_json_string value ++ rest) ≡ some (value, rest)
unfolding read_string append_json_string
read_string-append_json_string value rest =
    rw (append_assoc (append_runes value) (quote ∷ []) rest) (read_runes-append_runes value rest)
