-- ===== src/Canonical/Order.antt =====
-- The canonical text of a value does not depend on the order of the members of its objects.
use harness_codex.Prelude.{
  ◌≡◌, ◌≢◌, refl, sym, ◌∙◌, ap, ◌⊎◌, inl, inr, Bool, true, false, Option, none, some, List, [], ◌∷◌,
  ◌==◌, Bool-cases, arith,
}
use harness_codex.Canonical.Strings.{Text}
use harness_codex.Canonical.Values.{
  Value, array, object, Values, no_values, value, Members, no_members, member, text_lt, Entry,
  insert_entry, sort_entries, separator, join, add_entry, open_array, open_object, write_entries,
  append_canonical, append_values, entries,
}

text_lt_asym : (a b : Text) → text_lt a b ≡ true → text_lt b a ≡ false
unfolding text_lt
text_lt_asym [] [] h = refl
text_lt_asym [] (d ∷ ds) h = refl
text_lt_asym (c ∷ cs) [] h = cc
text_lt_asym (c ∷ cs) (d ∷ ds) h = ground (arith, text_lt_asym cs ds)

text_lt_trans : (a b c : Text) → text_lt a b ≡ true → text_lt b c ≡ true → text_lt a c ≡ true
unfolding text_lt
text_lt_trans [] [] c h k = k
text_lt_trans [] (y ∷ ys) [] h k = k
text_lt_trans [] (y ∷ ys) (z ∷ zs) h k = refl
text_lt_trans (x ∷ xs) [] c h k = cc
text_lt_trans (x ∷ xs) (y ∷ ys) [] h k = cc
text_lt_trans (x ∷ xs) (y ∷ ys) (z ∷ zs) h k = ground (arith, text_lt_trans xs ys zs)

text_lt_total : (a b : Text) → a ≢ b → (text_lt a b ≡ true) ⊎ (text_lt b a ≡ true)
unfolding text_lt
text_lt_total [] [] n = absurd (n refl)
text_lt_total [] (d ∷ ds) n = inl refl
text_lt_total (c ∷ cs) [] n = inr refl
text_lt_total (c ∷ cs) (d ∷ ds) n = elim (Bool-cases (c == d)) [
  | inl e ↦ rest (same e) (text_lt_total cs ds (λ p. n (cons (same e) p)))
  | inr e ↦ ground arith
]
  where
    same : (c == d) ≡ true → c ≡ d
    same e = ground arith

    cons : c ≡ d → cs ≡ ds → c ∷ cs ≡ d ∷ ds
    cons p q = cc

    rest :
        c ≡ d
        → (text_lt cs ds ≡ true) ⊎ (text_lt ds cs ≡ true)
        → (text_lt (c ∷ cs) (d ∷ ds) ≡ true) ⊎ (text_lt (d ∷ ds) (c ∷ cs) ≡ true)
    rest p (inl q) = inl (ground arith)
    rest p (inr q) = inr (ground arith)

-- Two entries with ordered keys are inserted alike, whichever comes first.
insert_entry-ordered :
    (a b : Entry) (es : List Entry)
    → text_lt a.0 b.0 ≡ true
    → insert_entry a (insert_entry b es) ≡ insert_entry b (insert_entry a es)
unfolding insert_entry
insert_entry-ordered a b [] h = ground (arith, text_lt_asym a.0 b.0 h)
insert_entry-ordered a b (x ∷ xs) h =
    ground
      (arith, text_lt_asym a.0 b.0 h, text_lt_trans a.0 b.0 x.0 h, insert_entry-ordered a b xs h)

insert_entry-swap :
    (a b : Entry) (es : List Entry)
    → a.0 ≢ b.0
    → insert_entry a (insert_entry b es) ≡ insert_entry b (insert_entry a es)
insert_entry-swap a b es n = elim (text_lt_total a.0 b.0 n) [
  | inl l ↦ insert_entry-ordered a b es l
  | inr l ↦ sym (insert_entry-ordered b a es l)
]

-- The same value, but for the order of the members of its objects, at any depth; members with one key
-- keep their order.
mutual
  pub data Same : Value → Value → Type 0 where
    same : (v : Value) → Same v v
    same_array : {vs ws : Values} → SameValues vs ws → Same (array vs) (array ws)
    same_object : {ms ns : Members} → Shuffle ms ns → Same (object ms) (object ns)

  pub data SameValues : Values → Values → Type 0 where
    no_more : SameValues no_values no_values
    more :
        {v w : Value} {vs ws : Values}
        → Same v w
        → SameValues vs ws
        → SameValues (value v vs) (value w ws)

  pub data Shuffle : Members → Members → Type 0 where
    done : Shuffle no_members no_members
    skip :
        (k : Text) {v w : Value} {ms ns : Members}
        → Same v w
        → Shuffle ms ns
        → Shuffle (member k v ms) (member k w ns)
    swap :
        (k l : Text) (v w : Value) (ms : Members)
        → k ≢ l
        → Shuffle (member k v (member l w ms)) (member l w (member k v ms))
    chain : {ms ns ps : Members} → Shuffle ms ns → Shuffle ns ps → Shuffle ms ps

abbrev sorted : Option (List Entry) → Option (List Entry)
sorted none = none
sorted (some es) = some (sort_entries es)

insert_into : Text → Option Text → Option (List Entry) → Option (List Entry)
insert_into k none es = none
insert_into k (some t) none = none
insert_into k (some t) (some es) = some (insert_entry (k, t) es)

sorted-add_entry :
    (k : Text) (o : Option Text) (p : Option (List Entry))
    → sorted (add_entry k o p) ≡ insert_into k o (sorted p)
unfolding sort_entries insert_into
sorted-add_entry k none none = refl
sorted-add_entry k none (some es) = refl
sorted-add_entry k (some t) none = refl
sorted-add_entry k (some t) (some es) = refl

insert_into-swap :
    (k l : Text) (o p : Option Text) (es : Option (List Entry))
    → k ≢ l
    → insert_into k o (insert_into l p es) ≡ insert_into l p (insert_into k o es)
unfolding insert_into
insert_into-swap k l none none none n = refl
insert_into-swap k l none none (some es) n = refl
insert_into-swap k l none (some u) none n = refl
insert_into-swap k l none (some u) (some es) n = refl
insert_into-swap k l (some t) none none n = refl
insert_into-swap k l (some t) none (some es) n = refl
insert_into-swap k l (some t) (some u) none n = refl
insert_into-swap k l (some t) (some u) (some es) n =
    ap (λ (x : List Entry). some x) (insert_entry-swap (k, t) (l, u) es n)

abbrev closed : Option (List Entry) → Option Text
closed none = none
closed (some es) = some (b'{' ∷ write_entries false es)

open_object-sorted : (o : Option (List Entry)) → open_object o ≡ closed (sorted o)
open_object-sorted none = refl
open_object-sorted (some es) = refl

entries-swap :
    (k l : Text) (v w : Value) (ms : Members)
    → k ≢ l
    → sorted (entries (member k v (member l w ms))) ≡ sorted (entries (member l w (member k v ms)))
unfolding append_canonical
entries-swap k l v w ms n =
    let a = append_canonical v in
    let b = append_canonical w in
    let es = entries ms in
    sorted-add_entry k a (add_entry l b es)
    ∙ ap (λ x. insert_into k a x) (sorted-add_entry l b es)
    ∙ insert_into-swap k l a b (sorted es) n
    ∙ ap (λ x. insert_into l b x) (sym (sorted-add_entry k a es))
    ∙ sym (sorted-add_entry l b (add_entry k a es))

entries-skip :
    (k : Text) (o p : Option Text) (es fs : Option (List Entry))
    → o ≡ p
    → sorted es ≡ sorted fs
    → sorted (add_entry k o es) ≡ sorted (add_entry k p fs)
entries-skip k o p es fs e f =
    sorted-add_entry k o es
    ∙ ap (λ x. insert_into k x (sorted es)) e
    ∙ ap (λ x. insert_into k p x) f
    ∙ sym (sorted-add_entry k p fs)

mutual
  unfolding append_canonical

  text-Same : {v w : Value} → Same v w → append_canonical v ≡ append_canonical w
  text-Same (same v) = refl
  text-Same (same_array s) = ap open_array (texts-Same false s)
  text-Same (same_object {ms} {ns} s) =
      open_object-sorted (entries ms)
      ∙ ap closed (entries-Shuffle s)
      ∙ sym (open_object-sorted (entries ns))

  texts-Same :
      {vs ws : Values} (later : Bool)
      → SameValues vs ws
      → append_values later vs ≡ append_values later ws
  texts-Same later no_more = refl
  texts-Same later (more {v} {w} {vs} {ws} s r) =
      ap (λ o. join (separator later) o (append_values true vs)) (text-Same s)
      ∙ ap (λ o. join (separator later) (append_canonical w) o) (texts-Same true r)

  entries-Shuffle : {ms ns : Members} → Shuffle ms ns → sorted (entries ms) ≡ sorted (entries ns)
  entries-Shuffle done = refl
  entries-Shuffle (skip k {v} {w} {ms} {ns} s r) =
      entries-skip k (append_canonical v) (append_canonical w) (entries ms) (entries ns)
        (text-Same s) (entries-Shuffle r)
  entries-Shuffle (swap k l v w ms n) = entries-swap k l v w ms n
  entries-Shuffle (chain s t) = entries-Shuffle s ∙ entries-Shuffle t

-- Two values that differ only in the order in which the members of their objects stand, at any depth,
-- have the same canonical text or are refused alike.
pub append_canonical-Same : {v w : Value} → Same v w → append_canonical v ≡ append_canonical w
append_canonical-Same s = text-Same s
