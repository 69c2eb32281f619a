-- ===== src/Canonical/Numerals.antt =====
-- The numbers of JSON, by their grammar: a sign, digits without a zero in front, a fraction, an exponent.
use harness_codex.Prelude.{
  ℕ, Bool, true, false, ◌||◌, Option, none, some, [], ◌∷◌, ◌==◌, if◌then◌else◌,
}
use harness_codex.Canonical.Strings.{Text}
use harness_codex.Canonical.Values.{is_digit}

-- Where a reader of a number is, by what it has read
pub data NumberPlace : Type 0 where
  start minus zero_first digits_first point fraction exponent sign exponent_digits : NumberPlace

abbrev is_exponent : ℕ → Bool
is_exponent c = c == b'e' || c == b'E'

abbrev is_sign : ℕ → Bool
is_sign c = c == b'+' || c == b'-'

abbrev first_digit : ℕ → Option NumberPlace
first_digit c =
    if c == b'0'
    then some NumberPlace.zero_first
    else if is_digit c
    then some NumberPlace.digits_first
    else none

abbrev after_integer : ℕ → Option NumberPlace
after_integer c =
    if c == b'.'
    then some NumberPlace.point
    else if is_exponent c
    then some NumberPlace.exponent
    else none

abbrev digit_to : NumberPlace → ℕ → Option NumberPlace
digit_to p c = if is_digit c then some p else none

abbrev pub next_number : NumberPlace → ℕ → Option NumberPlace
next_number NumberPlace.start c = if c == b'-' then some NumberPlace.minus else first_digit c
next_number NumberPlace.minus c = first_digit c
next_number NumberPlace.zero_first c = after_integer c
next_number NumberPlace.digits_first c =
    if is_digit c then some NumberPlace.digits_first else after_integer c
next_number NumberPlace.point c = digit_to NumberPlace.fraction c
next_number NumberPlace.fraction c =
    if is_digit c
    then some NumberPlace.fraction
    else if is_exponent c
    then some NumberPlace.exponent
    else none
next_number NumberPlace.exponent c =
    if is_sign c then some NumberPlace.sign else digit_to NumberPlace.exponent_digits c
next_number NumberPlace.sign c = digit_to NumberPlace.exponent_digits c
next_number NumberPlace.exponent_digits c = digit_to NumberPlace.exponent_digits c

-- A number may end here.
abbrev pub may_end : NumberPlace → Bool
may_end NumberPlace.zero_first = true
may_end NumberPlace.digits_first = true
may_end NumberPlace.fraction = true
may_end NumberPlace.exponent_digits = true
may_end _ = false

unfoldable pub is_numeral_from : Option NumberPlace → Text → Bool
is_numeral_from none t = false
is_numeral_from (some p) [] = may_end p
is_numeral_from (some p) (c ∷ cs) = is_numeral_from (next_number p c) cs

abbrev pub is_numeral : Text → Bool
is_numeral t = is_numeral_from (some NumberPlace.start) t

-- The characters that stand in numbers
abbrev pub is_number_character : ℕ → Bool
is_number_character c = is_digit c || is_sign c || c == b'.' || is_exponent c
