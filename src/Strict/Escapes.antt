-- ===== src/Strict/Escapes.antt =====
-- The scan of the escapes in Valid of internal/strictjson/strict.go. A text is the list of its bytes, from
-- the index of the loop on.
use harness_codex.Prelude.{
  ℕ, zero, suc, ◌+◌, ◌-◌, ◌*◌, Bool, true, false, not, ◌&&◌, ◌||◌, Option, none, some, [], ◌∷◌,
  ◌==◌, if◌then◌else◌, leb,
}
use harness_codex.Canonical.Strings.{Text, quote, backslash}

-- The value of a hexadecimal digit
unfoldable pub hex_value : ℕ → Option ℕ
hex_value c =
    if leb b'0' c && leb c b'9'
    then some (c - b'0')
    else if leb b'a' c && leb c b'f'
    then some (c - 87)
    else if leb b'A' c && leb c b'F'
    then some (c - 55)
    else none

abbrev pub add_hex : Option ℕ → Option ℕ → Option ℕ
add_hex none d = none
add_hex (some n) none = none
add_hex (some n) (some d) = some (16 * n + d)

-- strconv.ParseUint of four digits with base 16
unfoldable pub parse_hex : ℕ → ℕ → ℕ → ℕ → Option ℕ
unfolding hex_value
parse_hex a b c d =
    add_hex (add_hex (add_hex (hex_value a) (hex_value b)) (hex_value c)) (hex_value d)

-- The value where the error is ignored
abbrev pub value_of : Option ℕ → ℕ
value_of none = 0
value_of (some n) = n

abbrev pub is_high : ℕ → Bool
is_high n = leb 0xD800 n && leb n 0xDBFF

abbrev pub is_low : ℕ → Bool
is_low n = leb 0xDC00 n && leb n 0xDFFF

abbrev pub is_low_value : Option ℕ → Bool
is_low_value none = false
is_low_value (some n) = is_low n

-- How one turn of the loop ends: the next one starts in or out of a string, Valid returns false, or an
-- index is out of range.
pub data Turn : Type 0 where
  next : Bool → Text → Turn
  refused : Turn
  out_of_range : Turn

-- What follows the digits of a high surrogate
unfoldable pub low_turn : Text → Turn
unfolding parse_hex
low_turn (x ∷ y ∷ a ∷ b ∷ c ∷ d ∷ rest) =
    if not (x == backslash) || not (y == b'u')
    then refused
    else if is_low_value (parse_hex a b c d)
    then next true rest
    else refused
low_turn cs = refused

-- The four digits after `\u`
unfoldable pub unit_turn : Text → Turn
unfolding parse_hex low_turn
unit_turn (a ∷ b ∷ c ∷ d ∷ rest) =
    let n = value_of (parse_hex a b c d) in
    if is_low n then refused else if is_high n then low_turn rest else next true rest
unit_turn cs = out_of_range

-- The byte after a backslash
unfoldable pub escape_turn : Text → Turn
unfolding unit_turn
escape_turn [] = out_of_range
escape_turn (c ∷ cs) = if c == b'u' then unit_turn cs else next true cs

unfoldable pub turn : Bool → ℕ → Text → Turn
unfolding escape_turn
turn in_string c cs =
    if c == quote
    then next (not in_string) cs
    else if not in_string || not (c == backslash)
    then next in_string cs
    else escape_turn cs

-- The loop: whether it ends without a return, and nothing where an index is out of range or the fuel
-- ends. Each turn uses a byte, so the length of the text is enough fuel.
unfoldable pub scan : ℕ → Bool → Text → Option Bool
unfolding turn
scan n in_string [] = some true
scan zero in_string (c ∷ cs) = none
scan (suc n) in_string (c ∷ cs) = elim (turn in_string c cs) [
  | next s rest ↦ scan n s rest
  | refused ↦ some false
  | out_of_range ↦ none
]
