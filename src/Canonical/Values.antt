-- ===== src/Canonical/Values.antt =====
-- appendCanonical of internal/harnessprotocol/canonical.go on decoded JSON values.
use harness_codex.Prelude.{
  ℕ, ◌+◌, ◌-◌, ◌*◌, Bool, true, false, ◌&&◌, Option, none, some, List, [], ◌∷◌, ◌++◌, ◌==◌,
  if◌then◌else◌, ltb, leb,
}
use harness_codex.Canonical.Strings.{Text, append_json_string}

-- What the decoder gives with UseNumber: a number is its text, and a map is the list of its members,
-- each key once, in any order.
mutual
  pub data Value : Type 0 where
    null : Value
    boolean : Bool → Value
    number : Text → Value
    string : Text → Value
    array : Values → Value
    object : Members → Value

  pub data Values : Type 0 where
    no_values : Values
    value : Value → Values → Values

  pub data Members : Type 0 where
    no_members : Members
    member : Text → Value → Members → Members

abbrev pub is_digit : ℕ → Bool
is_digit c = leb b'0' c && leb c b'9'

-- The digits of a decimal numeral after those that make up `acc`
unfoldable pub digits_value : ℕ → Text → Option ℕ
digits_value acc [] = some acc
digits_value acc (c ∷ cs) =
    let rest = digits_value (10 * acc + (c - b'0')) cs in if is_digit c then rest else none

abbrev pub unsigned : Text → Option ℕ
unsigned [] = none
unsigned (c ∷ cs) = digits_value 0 (c ∷ cs)

-- MaximumSafeInteger
abbrev pub maximum_safe_integer : ℕ
maximum_safe_integer = 9007199254740991

abbrev pub fits : Option ℕ → Bool
fits none = false
fits (some n) = leb n maximum_safe_integer

abbrev pub is_zero : Option ℕ → Bool
is_zero none = false
is_zero (some n) = n == 0

-- `strconv.ParseInt` succeeds and its value is from 0 to MaximumSafeInteger; with a minus sign only 0 is.
unfoldable pub is_safe : Text → Bool
unfolding digits_value
is_safe [] = false
is_safe (c ∷ cs) = if c == b'-' then is_zero (unsigned cs) else fits (unsigned (c ∷ cs))

-- `key < other`, by the first difference
unfoldable pub text_lt : Text → Text → Bool
text_lt [] [] = false
text_lt [] (d ∷ ds) = true
text_lt (c ∷ cs) [] = false
text_lt (c ∷ cs) (d ∷ ds) = let rest = text_lt cs ds in if c == d then rest else ltb c d

abbrev pub Entry : Type 0
Entry = Text × Text

unfoldable pub insert_entry : Entry → List Entry → List Entry
unfolding text_lt
insert_entry e [] = e ∷ []
insert_entry e (x ∷ xs) = if text_lt e.0 x.0 then e ∷ x ∷ xs else x ∷ insert_entry e xs

-- sort.Strings, on the keys with the texts of their values
unfoldable pub sort_entries : List Entry → List Entry
unfolding insert_entry
sort_entries [] = []
sort_entries (e ∷ es) = insert_entry e (sort_entries es)

-- `if index > 0 { ',' }`
abbrev pub separator : Bool → Text
separator false = []
separator true = b',' ∷ []

unfoldable pub write_entries : Bool → List Entry → Text
unfolding append_json_string
write_entries later [] = b'}' ∷ []
write_entries later (e ∷ es) =
    separator later ++ (append_json_string e.0 ++ (b':' ∷ (e.1 ++ write_entries true es)))

abbrev pub join : Text → Option Text → Option Text → Option Text
join before none rest = none
join before (some t) none = none
join before (some t) (some u) = some (before ++ (t ++ u))

abbrev pub add_entry : Text → Option Text → Option (List Entry) → Option (List Entry)
add_entry k none es = none
add_entry k (some t) none = none
add_entry k (some t) (some es) = some ((k, t) ∷ es)

abbrev pub open_array : Option Text → Option Text
open_array none = none
open_array (some t) = some (b'[' ∷ t)

abbrev pub open_object : Option (List Entry) → Option Text
open_object none = none
open_object (some es) = some (b'{' ∷ write_entries false (sort_entries es))

abbrev pub word : Bool → Text
word true = b't' ∷ b'r' ∷ b'u' ∷ b'e' ∷ []
word false = b'f' ∷ b'a' ∷ b'l' ∷ b's' ∷ b'e' ∷ []

-- appendCanonical: the text that it appends, or an error for a number that is not safe
unfoldable mutual
  unfolding is_safe append_json_string write_entries sort_entries

  pub append_canonical : Value → Option Text
  append_canonical null = some (b'n' ∷ b'u' ∷ b'l' ∷ b'l' ∷ [])
  append_canonical (boolean b) = some (word b)
  append_canonical (number t) = if is_safe t then some t else none
  append_canonical (string s) = some (append_json_string s)
  append_canonical (array vs) = open_array (append_values false vs)
  append_canonical (object ms) = open_object (entries ms)

  pub append_values : Bool → Values → Option Text
  append_values later no_values = some (b']' ∷ [])
  append_values later (value v vs) =
      join (separator later) (append_canonical v) (append_values true vs)

  pub entries : Members → Option (List Entry)
  entries no_members = some []
  entries (member k v ms) = add_entry k (append_canonical v) (entries ms)
