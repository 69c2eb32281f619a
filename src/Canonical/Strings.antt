-- ===== src/Canonical/Strings.antt =====
-- appendJSONString of internal/harnessprotocol/canonical.go. A text is the list of its runes: the source
-- ranges over the runes of a string and utf8.AppendRune writes each as its bytes.
use harness_codex.Prelude.{ℕ, ◌+◌, ◌/◌, ◌%◌, List, [], ◌∷◌, ◌++◌, ◌==◌, ◌||◌, if◌then◌else◌, ltb}

abbrev pub Text : Type 0
Text = List ℕ

abbrev pub quote : ℕ
quote = b'"'

abbrev pub backslash : ℕ
backslash = b'\\'

-- strconv.AppendInt(…, 16) of one hexadecimal digit
unfoldable pub hex_digit : ℕ → ℕ
hex_digit d = if ltb d 10 then b'0' + d else 87 + d

-- `\u00` and the two digits of a control character
unfoldable pub control : ℕ → Text
unfolding hex_digit
control r = backslash ∷ b'u' ∷ b'0' ∷ b'0' ∷ hex_digit (r / 16) ∷ hex_digit (r % 16) ∷ []

-- The switch on one character
unfoldable pub append_rune : ℕ → Text
unfolding control
append_rune r =
    if r == quote || r == backslash
    then backslash ∷ r ∷ []
    else if r == 8
    then backslash ∷ b'b' ∷ []
    else if r == 12
    then backslash ∷ b'f' ∷ []
    else if r == 10
    then backslash ∷ b'n' ∷ []
    else if r == 13
    then backslash ∷ b'r' ∷ []
    else if r == 9
    then backslash ∷ b't' ∷ []
    else if ltb r 32
    then control r
    else r ∷ []

unfoldable pub append_runes : Text → Text
unfolding append_rune
append_runes [] = []
append_runes (r ∷ rs) = append_rune r ++ append_runes rs

-- appendJSONString, what it appends to the destination
unfoldable pub append_json_string : Text → Text
unfolding append_runes
append_json_string value = quote ∷ append_runes value ++ quote ∷ []
