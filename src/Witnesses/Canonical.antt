-- ===== src/Witnesses/Canonical.antt =====
-- The theorems on canonical texts at a small request.
use harness_codex.Prelude.{ℕ, ◌≡◌, ◌≢◌, refl, ap, true, false, none, some, [], ◌∷◌, ◌++◌, arith}
use harness_codex.Canonical.Strings.{
  append_json_string, append_runes, append_rune, control, hex_digit, Text,
}
use harness_codex.Canonical.Values.{
  Value, boolean, number, string, array, object, no_values, value, Members, no_members, member,
  append_canonical, is_safe, digits_value, sort_entries, insert_entry, text_lt, write_entries,
}
use harness_codex.Canonical.Reader.{read_value, read_values, read_number, number_run}
use harness_codex.Canonical.Numerals.{is_numeral_from}
use harness_codex.Canonical.Quoted.{read_string, read_runes}
use harness_codex.Canonical.RoundTrip.{read_value-append_canonical}
use harness_codex.Canonical.Order.{
  same_array, same_object, more, no_more, skip, swap, done, append_canonical-Same,
}

-- `{"a":[12,"\n\u0001"],"b":true}`
abbrev request : Value
request = object (
    member (b'a' ∷ [])
      (array (value (number (b'1' ∷ b'2' ∷ [])) (value (string (10 ∷ 1 ∷ [])) no_values)))
      (member (b'b' ∷ []) (boolean true) no_members))

abbrev request_text : Text
request_text =
    b'{' ∷ b'"' ∷ b'a' ∷ b'"' ∷ b':' ∷ b'[' ∷ b'1' ∷ b'2' ∷ b',' ∷ b'"' ∷ b'\\' ∷ b'n' ∷ b'\\'
    ∷ b'u' ∷ b'0' ∷ b'0' ∷ b'0' ∷ b'1' ∷ b'"' ∷ b']' ∷ b',' ∷ b'"' ∷ b'b' ∷ b'"' ∷ b':' ∷ b't'
    ∷ b'r' ∷ b'u' ∷ b'e' ∷ b'}' ∷ []

request_written : append_canonical request ≡ some request_text
unfolding append_canonical is_safe digits_value append_json_string append_runes append_rune control
    hex_digit sort_entries insert_entry text_lt write_entries
request_written = refl

read_value-append_canonical_example :
    read_value 20 (request_text ++ b',' ∷ []) ≡ some (request, b',' ∷ [])
unfolding text_lt is_numeral_from
read_value-append_canonical_example =
    read_value-append_canonical request request_text (b',' ∷ []) 20 request_written
      (refl, (refl, (tt, tt)), (tt, tt, tt)) (omega arith) refl

-- The reader refuses a bare control character, a zero in front, a sign with no digits, and a comma at the
-- end.
bare_control : read_value 9 (b'"' ∷ 1 ∷ b'"' ∷ []) ≡ none
unfolding read_value read_string read_runes
bare_control = refl

leading_zero : read_value 9 (b'0' ∷ b'1' ∷ []) ≡ none
unfolding read_value read_number number_run is_numeral_from
leading_zero = refl

lone_sign : read_value 9 (b'-' ∷ []) ≡ none
unfolding read_value read_number number_run is_numeral_from
lone_sign = refl

last_comma : read_value 9 (b'[' ∷ b'1' ∷ b',' ∷ b']' ∷ []) ≡ none
unfolding read_value read_values read_number number_run is_numeral_from
last_comma = refl

first_code : Text → ℕ
first_code [] = 0
first_code (c ∷ cs) = c

keys_differ : ◌≢◌ {A = Text} (b'a' ∷ []) (b'b' ∷ [])
unfolding first_code
keys_differ p =
    let q : first_code (b'a' ∷ []) ≡ first_code (b'b' ∷ []) = ap first_code p in
    absurd (omega (arith, q))

abbrev ab : Members
ab = member (b'a' ∷ []) (boolean true) (member (b'b' ∷ []) (boolean false) no_members)

abbrev ba : Members
ba = member (b'b' ∷ []) (boolean false) (member (b'a' ∷ []) (boolean true) no_members)

-- `{"c":[{"a":true,"b":false}]}`, and the same with the inner members in the other order
append_canonical-Same_example :
    append_canonical (object (member (b'c' ∷ []) (array (value (object ab) no_values)) no_members))
    ≡ append_canonical
        (object (member (b'c' ∷ []) (array (value (object ba) no_values)) no_members))
append_canonical-Same_example = append_canonical-Same (
    same_object (
      skip (b'c' ∷ [])
        (same_array (
          more
            (same_object
              (swap (b'a' ∷ []) (b'b' ∷ []) (boolean true) (boolean false) no_members keys_differ))
            no_more))
        done))
