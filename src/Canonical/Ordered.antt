-- ===== src/Canonical/Ordered.antt =====
-- Values as a decoder gives them, with members in the order of their keys, and the bound that their reader needs.
use harness_codex.Prelude.{ℕ, ◌+◌, ◌≡◌, true}
use harness_codex.Canonical.Strings.{Text}
use harness_codex.Canonical.Values.{
  Value, null, boolean, number, string, array, object, Values, no_values, value, Members,
  no_members, member, text_lt,
}
use harness_codex.Canonical.Numerals.{is_numeral}

abbrev pub Precedes : Text → Members → Type 0
Precedes k no_members = Unit
Precedes k (member l v ms) = text_lt k l ≡ true

abbrev mutual
  -- Every object lists its members in the order of their keys, each key once, and every number is a
  -- number of JSON.
  pub IsOrdered : Value → Type 0
  IsOrdered null = Unit
  IsOrdered (boolean b) = Unit
  IsOrdered (number t) = is_numeral t ≡ true
  IsOrdered (string s) = Unit
  IsOrdered (array vs) = AreOrdered vs
  IsOrdered (object ms) = InKeyOrder ms

  pub AreOrdered : Values → Type 0
  AreOrdered no_values = Unit
  AreOrdered (value v vs) = IsOrdered v × AreOrdered vs

  pub InKeyOrder : Members → Type 0
  InKeyOrder no_members = Unit
  InKeyOrder (member k v ms) = Precedes k ms × IsOrdered v × InKeyOrder ms

abbrev mutual
  pub size : Value → ℕ
  size null = 1
  size (boolean b) = 1
  size (number t) = 1
  size (string s) = 1
  size (array vs) = 1 + size_values vs
  size (object ms) = 1 + size_members ms

  pub size_values : Values → ℕ
  size_values no_values = 1
  size_values (value v vs) = 1 + (size v + size_values vs)

  pub size_members : Members → ℕ
  size_members no_members = 1
  size_members (member k v ms) = 1 + (size v + size_members ms)
