-- ===== src/Canonical/Pieces.antt =====
-- What the reader does on the pieces of a canonical text.
use harness_codex.Prelude.{
  ℕ, zero, suc, ◌+◌, ◌-◌, ◌*◌, ◌≤◌, ◌≡◌, refl, ◌∙◌, ap, inl, inr, Bool, true, false, Option, none,
  some, [], ◌∷◌, ◌++◌, ◌==◌, ◌||◌, if◌then◌else◌, Bool-cases, arith,
}
use mathlib.Core.List.{append_assoc}
use harness_codex.Canonical.Strings.{Text, quote, append_json_string, append_runes}
use harness_codex.Canonical.Quoted.{read_string, read_string-append_json_string}
use harness_codex.Canonical.Values.{
  Value, null, boolean, number, string, array, Values, no_values, value, is_digit, digits_value,
  unsigned, is_zero, fits, is_safe, separator, word,
}
use harness_codex.Canonical.Numerals.{is_numeral, is_number_character}
use harness_codex.Canonical.Reader.{
  as_string, as_array, as_number, then_values, number_run, read_number, expect, read_value,
  read_values,
}
use harness_codex.Canonical.Ordered.{size, size_values}

-- The text does not go on with a character of numbers.
abbrev pub Stops : Text → Type 0
Stops [] = Unit
Stops (c ∷ cs) = is_number_character c ≡ false

-- The text begins with what is neither a digit nor the end of an array.
abbrev pub Head : Text → Type 0
Head [] = ⊥
Head (c ∷ cs) = (c == b']') ≡ false

-- The text is not empty, and begins with no character of numbers.
abbrev pub Breaks : Text → Type 0
Breaks [] = ⊥
Breaks (c ∷ cs) = is_number_character c ≡ false

pub Breaks-Stops : (t rest : Text) → Breaks t → Stops (t ++ rest)
Breaks-Stops [] rest h = absurd h
Breaks-Stops (c ∷ cs) rest h = h

-- The reader takes the text for the value and stops after it.
abbrev pub Reads : Value → Text → Type 0
Reads v t =
    (f : ℕ) (rest : Text) → size v ≤ f → Stops rest → read_value f (t ++ rest) ≡ some (v, rest)

abbrev AreDigits : Text → Type 0
AreDigits [] = Unit
AreDigits (c ∷ cs) = (is_digit c ≡ true) × AreDigits cs

number_run-stop : (rest : Text) → Stops rest → number_run rest ≡ ([], rest)
unfolding number_run
number_run-stop [] h = refl
number_run-stop (c ∷ cs) h = rw h refl

digit_in_number : (c : ℕ) → is_digit c ≡ true → is_number_character c ≡ true
digit_in_number c h = rw h refl

number_run-all : (t rest : Text) → AreDigits t → Stops rest → number_run (t ++ rest) ≡ (t, rest)
unfolding number_run
number_run-all [] rest h s = number_run-stop rest s
number_run-all (c ∷ cs) rest h s = rw (digit_in_number c h.0, number_run-all cs rest h.1 s) refl

minus_in_number : (c : ℕ) → (c == b'-') ≡ true → is_number_character c ≡ true
minus_in_number c h = ground arith

digits_value-AreDigits : (acc : ℕ) (t : Text) (n : ℕ) → digits_value acc t ≡ some n → AreDigits t
unfolding digits_value
digits_value-AreDigits acc [] n h = tt
digits_value-AreDigits acc (c ∷ cs) n h = elim (Bool-cases (is_digit c)) [
  | inl d ↦ (d, digits_value-AreDigits (10 * acc + (c - b'0')) cs n (rw d at h))
  | inr d ↦ cc (rw d at h)
]

fits-AreDigits : (t : Text) (o : Option ℕ) → unsigned t ≡ o → fits o ≡ true → AreDigits t
fits-AreDigits [] o e h = tt
fits-AreDigits (c ∷ cs) none e h = cc
fits-AreDigits (c ∷ cs) (some n) e h = digits_value-AreDigits 0 (c ∷ cs) n e

is_zero-AreDigits : (t : Text) (o : Option ℕ) → unsigned t ≡ o → is_zero o ≡ true → AreDigits t
is_zero-AreDigits [] o e h = tt
is_zero-AreDigits (c ∷ cs) none e h = cc
is_zero-AreDigits (c ∷ cs) (some n) e h = digits_value-AreDigits 0 (c ∷ cs) n e

number_run-safe :
    (t rest : Text) → is_safe t ≡ true → Stops rest → number_run (t ++ rest) ≡ (t, rest)
unfolding number_run is_safe
number_run-safe [] rest h s = cc
number_run-safe (c ∷ cs) rest h s = elim (Bool-cases (c == b'-')) [
  | inl m ↦
      rw (minus_in_number c m, number_run-all cs rest (is_zero-AreDigits cs _ refl (rw m at h)) s)
        refl
  | inr m ↦ number_run-all (c ∷ cs) rest (fits-AreDigits (c ∷ cs) _ refl (rw m at h)) s
]

read_number-safe :
    (t rest : Text)
    → is_safe t ≡ true
    → is_numeral t ≡ true
    → Stops rest
    → read_number (t ++ rest) ≡ some (number t, rest)
unfolding read_number
read_number-safe t rest h n s =
    ap as_number (number_run-safe t rest h s)
    ∙ ap (λ b. if b then some (number t, rest) else none) n

-- A safe number begins with a digit or a minus sign.
abbrev pub Begins : Text → Type 0
Begins [] = ⊥
Begins (c ∷ cs) = (c == b'-' || is_digit c) ≡ true

pub safe-Begins : (t : Text) → is_safe t ≡ true → Begins t
unfolding is_safe
safe-Begins [] h = cc
safe-Begins (c ∷ cs) h = elim (Bool-cases (c == b'-')) [
  | inl m ↦ rw m refl
  | inr m ↦ rw (m, (fits-AreDigits (c ∷ cs) _ refl (rw m at h)).0) refl
]

-- A first character of a number is that of no other kind of value.
number_first :
    (c d : ℕ)
    → (c == b'-' || is_digit c) ≡ true
    → (d == b'-' || is_digit d) ≡ false
    → (c == d) ≡ false
number_first c d h k = ground arith

read_value-number :
    (f c : ℕ) (cs : Text)
    → (c == b'-' || is_digit c) ≡ true
    → read_value (suc f) (c ∷ cs) ≡ read_number (c ∷ cs)
unfolding read_value
read_value-number f c cs b =
    rw
      (
        number_first c quote b refl,
        number_first c b'[' b refl,
        number_first c b'{' b refl,
        number_first c b'n' b refl,
        number_first c b't' b refl,
        number_first c b'f' b refl,
        read_value,
      )
      refl

pub number-Reads : (t : Text) → is_safe t ≡ true → is_numeral t ≡ true → Reads (number t) t
number-Reads t h n zero rest l s = absurd (omega (arith, l))
number-Reads [] h n (suc f) rest l s = absurd (safe-Begins [] h)
number-Reads (c ∷ cs) h n (suc f) rest l s =
    read_value-number f c (cs ++ rest) (safe-Begins (c ∷ cs) h)
    ∙ read_number-safe (c ∷ cs) rest h n s

pub null-Reads : Reads null (b'n' ∷ b'u' ∷ b'l' ∷ b'l' ∷ [])
unfolding read_value expect
null-Reads zero rest l s = absurd (omega (arith, l))
null-Reads (suc f) rest l s = refl

pub boolean-Reads : (b : Bool) → Reads (boolean b) (word b)
unfolding read_value expect
boolean-Reads b zero rest l s = absurd (omega (arith, l))
boolean-Reads true (suc f) rest l s = refl
boolean-Reads false (suc f) rest l s = refl

read_value-string :
    (f : ℕ) (cs : Text) → read_value (suc f) (quote ∷ cs) ≡ as_string (read_string (quote ∷ cs))
unfolding read_value
read_value-string f cs = refl

pub string-Reads : (s : Text) → Reads (string s) (append_json_string s)
unfolding append_json_string
string-Reads s zero rest l h = absurd (omega (arith, l))
string-Reads s (suc f) rest l h =
    read_value-string f ((append_runes s ++ quote ∷ []) ++ rest)
    ∙ ap as_string (read_string-append_json_string s rest)

-- The reader takes the text for the elements that are left, with the closing bracket.
abbrev pub ReadsValues : Bool → Values → Text → Type 0
ReadsValues later vs t =
    (f : ℕ) (rest : Text) → size_values vs ≤ f → read_values f later (t ++ rest) ≡ some (vs, rest)

pub no_values-Reads : (later : Bool) → ReadsValues later no_values (b']' ∷ [])
unfolding read_values
no_values-Reads later zero rest l = absurd (omega (arith, l))
no_values-Reads later (suc f) rest l = refl

pub array-Reads : (vs : Values) (t : Text) → ReadsValues false vs t → Reads (array vs) (b'[' ∷ t)
unfolding read_value
array-Reads vs t h zero rest l s = absurd (omega (arith, l))
array-Reads vs t h (suc f) rest l s = ap as_array (h f rest (omega (arith, l)))

-- One element, and the others after it
read_values-head :
    (f c : ℕ) (cs : Text)
    → (c == b']') ≡ false
    → read_values (suc f) false (c ∷ cs) ≡ then_values (read_value f (c ∷ cs)) (read_values f true)
unfolding read_values
read_values-head f c cs h = rw (h, read_values) refl

read_values-comma :
    (f : ℕ) (cs : Text)
    → read_values (suc f) true (b',' ∷ cs) ≡ then_values (read_value f cs) (read_values f true)
unfolding read_values
read_values-comma f cs = refl

abbrev values_after : Value → Option (Values × Text) → Option (Values × Text)
values_after v none = none
values_after v (some (vs, after)) = some (value v vs, after)

then_values-some :
    (v : Value) (vs : Values) (mid after : Text) (g : Text → Option (Values × Text))
    → g mid ≡ some (vs, after)
    → then_values (some (v, mid)) g ≡ some (value v vs, after)
then_values-some v vs mid after g e = rw (e, then_values) refl

value-ReadsValues :
    (f : ℕ) (v : Value) (vs : Values) (t u rest : Text)
    → size v + size_values vs ≤ f
    → Reads v t
    → ReadsValues true vs u
    → Breaks u
    → then_values (read_value f (t ++ (u ++ rest))) (read_values f true) ≡ some (value v vs, rest)
value-ReadsValues f v vs t u rest l h k b =
    ap (λ o. then_values o (read_values f true))
      (h f (u ++ rest) (omega (arith, l)) (Breaks-Stops u rest b))
    ∙ then_values-some v vs (u ++ rest) rest (read_values f true) (k f rest (omega (arith, l)))

pub value-Reads :
    (later : Bool) (v : Value) (vs : Values) (t u : Text)
    → Reads v t
    → Head t
    → ReadsValues true vs u
    → Breaks u
    → ReadsValues later (value v vs) (separator later ++ (t ++ u))
value-Reads later v vs t u h d k b zero rest l = absurd (omega (arith, l))
value-Reads false v vs [] u h d k b (suc f) rest l = absurd d
value-Reads false v vs (c ∷ cs) u h d k b (suc f) rest l =
    read_values-head f c ((cs ++ u) ++ rest) d
    ∙ ap (λ x. then_values (read_value f x) (read_values f true)) (append_assoc (c ∷ cs) u rest)
    ∙ value-ReadsValues f v vs (c ∷ cs) u rest (omega (arith, l)) h k b
value-Reads true v vs t u h d k b (suc f) rest l =
    read_values-comma f ((t ++ u) ++ rest)
    ∙ ap (λ x. then_values (read_value f x) (read_values f true)) (append_assoc t u rest)
    ∙ value-ReadsValues f v vs t u rest (omega (arith, l)) h k b
