-- ===== src/Canonical/Objects.antt =====
-- What the reader does on the members of an object, and the sorting of members that are in order.
use harness_codex.Prelude.{
  ℕ, zero, suc, ◌+◌, ◌≤◌, ◌≡◌, refl, sym, ◌∙◌, ap, subst, Bool, true, false, Option, some, List, [],
  ◌∷◌, ◌++◌, arith,
}
use mathlib.Core.List.{append_assoc}
use harness_codex.Canonical.Strings.{Text, append_json_string}
use harness_codex.Canonical.Quoted.{read_string-append_json_string}
use harness_codex.Canonical.Values.{
  Value, object, Members, no_members, member, text_lt, Entry, insert_entry, sort_entries, separator,
  write_entries,
}
use harness_codex.Canonical.Reader.{then_members, as_object, read_value, read_members}
use harness_codex.Canonical.Ordered.{size, size_members, Precedes, InKeyOrder}
use harness_codex.Canonical.Pieces.{Reads, Breaks, Breaks-Stops}

-- The reader takes the text for the members that are left, with the closing brace.
abbrev pub ReadsMembers : Bool → Members → Text → Type 0
ReadsMembers later ms t =
    (f : ℕ) (rest : Text) → size_members ms ≤ f → read_members f later (t ++ rest) ≡ some (ms, rest)

-- The entries are those of the members, and each text is read as its value.
abbrev pub Match : Members → List Entry → Type 0
Match no_members [] = Unit
Match no_members (e ∷ es) = ⊥
Match (member k v ms) [] = ⊥
Match (member k v ms) (e ∷ es) = (k ≡ e.0) × Reads v e.1 × Match ms es

insert_entry-front :
    (k t : Text) (ms : Members) (es : List Entry)
    → Precedes k ms
    → Match ms es
    → insert_entry (k, t) es ≡ (k, t) ∷ es
unfolding insert_entry
insert_entry-front k t no_members [] h m = refl
insert_entry-front k t no_members (e ∷ es) h m = absurd m
insert_entry-front k t (member l v ms) [] h m = absurd m
insert_entry-front k t (member l v ms) (e ∷ es) h m = rw (ap (λ x. text_lt k x) (sym m.0) ∙ h) refl

pub sort_entries-same :
    (ms : Members) (es : List Entry) → InKeyOrder ms → Match ms es → sort_entries es ≡ es
unfolding sort_entries
sort_entries-same no_members [] o m = refl
sort_entries-same no_members (e ∷ es) o m = absurd m
sort_entries-same (member k v ms) [] o m = absurd m
sort_entries-same (member k v ms) ((l, t) ∷ es) o m =
    ap (λ x. insert_entry (l, t) x) (sort_entries-same ms es o.2 m.2)
    ∙ insert_entry-front l t ms es (subst (λ x. Precedes x ms) m.0 o.0) m.2

read_members-key :
    (f : ℕ) (k x : Text)
    → read_members (suc f) false (append_json_string k ++ (b':' ∷ x))
      ≡ then_members k (read_value f x) (read_members f true)
unfolding read_members append_json_string
read_members-key f k x = rw (read_string-append_json_string k (b':' ∷ x), read_members) refl

read_members-comma :
    (f : ℕ) (k x : Text)
    → read_members (suc f) true (b',' ∷ (append_json_string k ++ (b':' ∷ x)))
      ≡ then_members k (read_value f x) (read_members f true)
unfolding read_members
read_members-comma f k x = rw (read_string-append_json_string k (b':' ∷ x), read_members) refl

then_members-some :
    (k : Text) (v : Value) (ms : Members) (mid after : Text) (g : Text → Option (Members × Text))
    → g mid ≡ some (ms, after)
    → then_members k (some (v, mid)) g ≡ some (member k v ms, after)
then_members-some k v ms mid after g e = rw (e, then_members) refl

member-ReadsMembers :
    (f : ℕ) (k : Text) (v : Value) (ms : Members) (t u rest : Text)
    → size v + size_members ms ≤ f
    → Reads v t
    → ReadsMembers true ms u
    → Breaks u
    → then_members k (read_value f (t ++ (u ++ rest))) (read_members f true)
      ≡ some (member k v ms, rest)
member-ReadsMembers f k v ms t u rest l h r b =
    ap (λ o. then_members k o (read_members f true))
      (h f (u ++ rest) (omega (arith, l)) (Breaks-Stops u rest b))
    ∙ then_members-some k v ms (u ++ rest) rest (read_members f true) (r f rest (omega (arith, l)))

-- The text of one member, brought into the form that the reader goes through
spread :
    (k t u rest : Text)
    → (append_json_string k ++ (b':' ∷ (t ++ u))) ++ rest
      ≡ append_json_string k ++ (b':' ∷ (t ++ (u ++ rest)))
spread k t u rest =
    append_assoc (append_json_string k) (b':' ∷ (t ++ u)) rest
    ∙ ap (λ x. append_json_string k ++ (b':' ∷ x)) (append_assoc t u rest)

member-Reads :
    (later : Bool) (k : Text) (v : Value) (ms : Members) (t u : Text)
    → Reads v t
    → ReadsMembers true ms u
    → Breaks u
    → ReadsMembers later
        (member k v ms)
        (separator later ++ (append_json_string k ++ (b':' ∷ (t ++ u))))
member-Reads later k v ms t u h r b zero rest l = absurd (omega (arith, l))
member-Reads false k v ms t u h r b (suc f) rest l =
    ap (λ x. read_members (suc f) false x) (spread k t u rest)
    ∙ read_members-key f k (t ++ (u ++ rest))
    ∙ member-ReadsMembers f k v ms t u rest (omega (arith, l)) h r b
member-Reads true k v ms t u h r b (suc f) rest l =
    ap (λ x. read_members (suc f) true (b',' ∷ x)) (spread k t u rest)
    ∙ read_members-comma f k (t ++ (u ++ rest))
    ∙ member-ReadsMembers f k v ms t u rest (omega (arith, l)) h r b

write_entries-Breaks : (es : List Entry) → Breaks (write_entries true es)
unfolding write_entries
write_entries-Breaks [] = refl
write_entries-Breaks (e ∷ es) = refl

-- The entries of the members are read back as the members.
pub write_entries-Reads :
    (later : Bool) (ms : Members) (es : List Entry)
    → Match ms es
    → ReadsMembers later ms (write_entries later es)
unfolding write_entries read_members
write_entries-Reads later no_members [] m zero rest l = absurd (omega (arith, l))
write_entries-Reads later no_members [] m (suc f) rest l = refl
write_entries-Reads later no_members (e ∷ es) m f rest l = absurd m
write_entries-Reads later (member k v ms) [] m f rest l = absurd m
write_entries-Reads later (member k v ms) ((j, t) ∷ es) m f rest l =
    subst
      (λ x.
        read_members f later (
          (separator later ++ (append_json_string x ++ (b':' ∷ (t ++ write_entries true es))))
          ++ rest)
        ≡ some (member k v ms, rest))
      m.0
      (member-Reads later k v ms t (write_entries true es) m.1 (write_entries-Reads true ms es m.2)
        (write_entries-Breaks es) f rest l)

read_value-object :
    (f : ℕ) (cs : Text) → read_value (suc f) (b'{' ∷ cs) ≡ as_object (read_members f false cs)
unfolding read_value
read_value-object f cs = refl

pub object-Reads :
    (ms : Members) (t : Text) → ReadsMembers false ms t → Reads (object ms) (b'{' ∷ t)
object-Reads ms t h zero rest l s = absurd (omega (arith, l))
object-Reads ms t h (suc f) rest l s =
    read_value-object f (t ++ rest) ∙ ap as_object (h f rest (omega (arith, l)))
