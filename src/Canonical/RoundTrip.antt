-- ===== src/Canonical/RoundTrip.antt =====
-- Canonical texts are read back, so they determine their values.
use harness_codex.Prelude.{
  ℕ, ◌+◌, ◌≤◌, ◌≡◌, refl, subst, inl, inr, Bool, true, false, Option, none, some, List, [], ◌∷◌,
  ◌++◌, ◌==◌, ◌||◌, if◌then◌else◌, Bool-cases, arith,
}
use harness_codex.Canonical.Strings.{Text, append_json_string}
use harness_codex.Canonical.Values.{
  Value, null, boolean, number, string, array, object, Values, no_values, value, Members,
  no_members, member, is_safe, Entry, separator, write_entries, join, add_entry, open_array,
  open_object, is_digit, append_canonical, append_values, entries,
}
use harness_codex.Canonical.Numerals.{is_numeral}
use harness_codex.Canonical.Reader.{read_value}
use harness_codex.Canonical.Ordered.{IsOrdered, AreOrdered, InKeyOrder, size}
use harness_codex.Canonical.Pieces.{
  Stops, Head, Breaks, Reads, ReadsValues, Begins, safe-Begins, number-Reads, null-Reads,
  boolean-Reads, string-Reads, no_values-Reads, array-Reads, value-Reads,
}
use harness_codex.Canonical.Objects.{Match, sort_entries-same, write_entries-Reads, object-Reads}

-- The condition holds of what is written, where something is.
abbrev Writes : {A : Type 0} → (A → Type 0) → Option A → Type 0
Writes P none = Unit
Writes P (some x) = P x

begins_head : (c : ℕ) → (c == b'-' || is_digit c) ≡ true → (c == b']') ≡ false
begins_head c h = ground arith

Begins-Head : (t : Text) → Begins t → Head t
Begins-Head [] h = absurd h
Begins-Head (c ∷ cs) h = begins_head c h

abbrev IsRead : Value → Text → Type 0
IsRead v t = Reads v t × Head t

number-IsRead :
    (t : Text)
    → is_numeral t ≡ true
    → Writes (IsRead (number t)) (if is_safe t then some t else none)
number-IsRead t n = elim (Bool-cases (is_safe t)) [
  | inl h ↦ rw h (number-Reads t h n, Begins-Head t (safe-Begins t h))
  | inr h ↦ rw h tt
]

array-IsRead :
    (vs : Values) (o : Option Text)
    → Writes (ReadsValues false vs) o
    → Writes (IsRead (array vs)) (open_array o)
array-IsRead vs none h = tt
array-IsRead vs (some t) h = (array-Reads vs t h, refl)

object-IsRead :
    (ms : Members) (o : Option (List Entry))
    → InKeyOrder ms
    → Writes (Match ms) o
    → Writes (IsRead (object ms)) (open_object o)
object-IsRead ms none k h = tt
object-IsRead ms (some es) k h =
    rw (sort_entries-same ms es k h)
      (object-Reads ms (write_entries false es) (write_entries-Reads false ms es h), refl)

append_values-Breaks : (vs : Values) → Writes Breaks (append_values true vs)
unfolding append_canonical
append_values-Breaks no_values = refl
append_values-Breaks (value v vs) = comma (append_canonical v) (append_values true vs)
  where
    comma : (o p : Option Text) → Writes Breaks (join (separator true) o p)
    comma none p = tt
    comma (some t) none = tt
    comma (some t) (some u) = refl

value-IsRead :
    (later : Bool) (v : Value) (vs : Values) (o p : Option Text)
    → Writes (IsRead v) o
    → Writes (ReadsValues true vs) p
    → Writes Breaks p
    → Writes (ReadsValues later (value v vs)) (join (separator later) o p)
value-IsRead later v vs none p h k b = tt
value-IsRead later v vs (some t) none h k b = tt
value-IsRead later v vs (some t) (some u) h k b = value-Reads later v vs t u h.0 h.1 k b

member-Match :
    (k : Text) (v : Value) (ms : Members) (o : Option Text) (p : Option (List Entry))
    → Writes (IsRead v) o
    → Writes (Match ms) p
    → Writes (Match (member k v ms)) (add_entry k o p)
member-Match k v ms none p h m = tt
member-Match k v ms (some t) none h m = tt
member-Match k v ms (some t) (some es) h m = (refl, h.0, m)

mutual
  unfolding append_canonical append_json_string

  append_canonical-IsRead : (v : Value) → IsOrdered v → Writes (IsRead v) (append_canonical v)
  append_canonical-IsRead null o = (null-Reads, refl)
  append_canonical-IsRead (boolean true) o = (boolean-Reads true, refl)
  append_canonical-IsRead (boolean false) o = (boolean-Reads false, refl)
  append_canonical-IsRead (number t) o = number-IsRead t o
  append_canonical-IsRead (string s) o = (string-Reads s, refl)
  append_canonical-IsRead (array vs) o =
      array-IsRead vs (append_values false vs) (append_values-IsRead false vs o)
  append_canonical-IsRead (object ms) o = object-IsRead ms (entries ms) o (entries-Match ms o)

  append_values-IsRead :
      (later : Bool) (vs : Values)
      → AreOrdered vs
      → Writes (ReadsValues later vs) (append_values later vs)
  append_values-IsRead later no_values o = no_values-Reads later
  append_values-IsRead later (value v vs) o =
      value-IsRead later v vs (append_canonical v) (append_values true vs)
        (append_canonical-IsRead v o.0) (append_values-IsRead true vs o.1) (append_values-Breaks vs)

  entries-Match : (ms : Members) → InKeyOrder ms → Writes (Match ms) (entries ms)
  entries-Match no_members o = tt
  entries-Match (member k v ms) o =
      member-Match k v ms (append_canonical v) (entries ms) (append_canonical-IsRead v o.1)
        (entries-Match ms o.2)

written : (P : Text → Type 0) (o : Option Text) (t : Text) → o ≡ some t → Writes P o → P t
written P none t e h = cc
written P (some u) t e h = subst (Writes P) e h

-- A canonical text can be read back: where appendCanonical succeeds on a value whose objects list their
-- members by key and whose numbers are numbers of JSON, a reader of the JSON grammar takes the text,
-- gives the value and leaves what follows, for any text that does not go on with a character of numbers.
pub read_value-append_canonical :
    (v : Value) (t rest : Text) (f : ℕ)
    → append_canonical v ≡ some t
    → IsOrdered v
    → size v ≤ f
    → Stops rest
    → read_value f (t ++ rest) ≡ some (v, rest)
read_value-append_canonical v t rest f e o l s =
    (written (IsRead v) (append_canonical v) t e (append_canonical-IsRead v o)).0 f rest l s

-- Different values have different canonical texts, so the digest is taken of bytes that determine the
-- request.
pub append_canonical-injective :
    (v w : Value) (t : Text)
    → append_canonical v ≡ some t
    → append_canonical w ≡ some t
    → IsOrdered v
    → IsOrdered w
    → v ≡ w
append_canonical-injective v w t e g o q =
    let f = size v + size w in
    let a = read_value-append_canonical v t [] f e o (omega arith) tt in
    let b = read_value-append_canonical w t [] f g q (omega arith) tt in cc
