-- ===== src/Ledger/Leads.antt =====
-- Conditions before and after a transaction, with one rule for each way to build one. A transaction
-- that fails is rolled back, so nothing is asked of it.
use harness_codex.Prelude.{◌≡◌, refl, Bool, true, false, Option, none, some}
use harness_codex.Ledger.Db.{Db}
use harness_codex.Ledger.Tx.{
  Work, Failure, Result, err, ok, Tx, pure, fail, guard, scan, query, gets, ◌>>=◌, continue,
}

abbrev pub Ends : {A : Type 0} → (A → Work → Type 0) → Result (A × Work) → Type 0
Ends Q (err e) = Unit
Ends Q (ok (a, w)) = Q a w

-- From a state with `P`, a success of `m` ends in a state with `Q`.
pub record Leads {A : Type 0} (P Q : Work → Type 0) (m : Tx A) : Type 0 where
  pub at : (w : Work) → P w → Ends (λ _ w'. Q w') (m w)

module _ {A : Type 0} {P : Work → Type 0} where
  pub Leads-pure : (a : A) → Leads P P (pure a)
  unfolding pure
  Leads-pure a = record { at = λ w h. h }

  pub Leads-gets : (f : Work → A) → Leads P P (gets f)
  unfolding gets
  Leads-gets f = record { at = λ w h. h }

  pub Leads-query : (q : Db → Option A) → Leads P P (query q)
  unfolding query
  Leads-query q = record { at = λ w h. found (q w.db) w h }
    where
      found : (o : Option A) (w : Work) → P w → Ends (λ _ v. P v) (scan o w)
      found none w h = tt
      found (some a) w h = h

module _ {A : Type 0} {P Q : Work → Type 0} where
  pub Leads-fail : (e : Failure) → Leads P Q (fail {A = A} e)
  unfolding fail
  Leads-fail e = record { at = λ w h. tt }

module _ {P : Work → Type 0} where
  pub Leads-guard : (b : Bool) (e : Failure) → Leads P P (guard b e)
  unfolding guard
  Leads-guard true e = record { at = λ w h. h }
  Leads-guard false e = record { at = λ w h. tt }

  -- What the test says holds from then on.
  pub Leads-test : (b : Bool) (e : Failure) → Leads P (λ w. P w × (b ≡ true)) (guard b e)
  unfolding guard
  Leads-test true e = record { at = λ w h. (h, refl) }
  Leads-test false e = record { at = λ w h. tt }

module _ {A B : Type 0} {Q R : Work → Type 0} where
  continue-Ends :
      (r : Result (A × Work)) (f : A → Tx B)
      → Ends (λ _ w. R w) r
      → ((a : A) → Leads R Q (f a))
      → Ends (λ _ w. Q w) (continue r f)
  continue-Ends (err e) f h k = tt
  continue-Ends (ok (a, w)) f h k = (k a).at w h

module _ {A B : Type 0} {P Q R : Work → Type 0} where
  pub Leads-bind :
      (m : Tx A) (f : A → Tx B) → Leads P R m → ((a : A) → Leads R Q (f a)) → Leads P Q (m >>= f)
  unfolding ◌>>=◌
  Leads-bind m f h k = record { at = λ w p. continue-Ends (m w) f (h.at w p) k }

module _ {A B : Type 0} {P Q : Work → Type 0} where
  -- The first part keeps the condition.
  pub Leads-then :
      (m : Tx A) (f : A → Tx B) → Leads P P m → ((a : A) → Leads P Q (f a)) → Leads P Q (m >>= f)
  Leads-then m f h k = Leads-bind m f h k

  -- The first part establishes the condition that the rest keeps.
  pub Leads-from :
      (m : Tx A) (f : A → Tx B) → Leads P Q m → ((a : A) → Leads Q Q (f a)) → Leads P Q (m >>= f)
  Leads-from m f h k = Leads-bind m f h k

module _ {A : Type 0} {P Q R : Work → Type 0} where
  pub Leads-weaken : (m : Tx A) → ((w : Work) → P w → R w) → Leads R Q m → Leads P Q m
  Leads-weaken m weaker h = record { at = λ w p. h.at w (weaker w p) }

pub ruleset leads_rules = (Leads-pure, Leads-gets, Leads-query, Leads-fail, Leads-guard, Leads-then)

-- The same with a condition on the value that is returned.
pub record Returns {A : Type 0} (P : Work → Type 0) (Q : A → Work → Type 0) (m : Tx A)
    : Type 0 where
  pub at : (w : Work) → P w → Ends Q (m w)

module _ {A : Type 0} {P Q : Work → Type 0} where
  pub Returns-of_Leads : (m : Tx A) → Leads P Q m → Returns P (λ _. Q) m
  Returns-of_Leads m h = record { at = h.at }

module _ {A : Type 0} (R : Work → Type 0) (Q : A → Work → Type 0) where
  both-Ends : (r : Result (A × Work)) → Ends (λ _ w. R w) r → Ends Q r → Ends (λ a w. R w × Q a w) r
  both-Ends (err e) h k = tt
  both-Ends (ok (a, w)) h k = (h, k)

module _ {A : Type 0} {P R : Work → Type 0} {Q : A → Work → Type 0} where
  -- Two conditions that each hold after it
  pub Returns-both : (m : Tx A) → Leads P R m → Returns P Q m → Returns P (λ a w. R w × Q a w) m
  Returns-both m h k = record { at = λ w p. both-Ends R Q (m w) (h.at w p) (k.at w p) }

module _ {A B : Type 0} {R : A → Work → Type 0} {Q : B → Work → Type 0} where
  continue-Returns :
      (r : Result (A × Work)) (f : A → Tx B)
      → Ends R r
      → ((a : A) → Returns (R a) Q (f a))
      → Ends Q (continue r f)
  continue-Returns (err e) f h k = tt
  continue-Returns (ok (a, w)) f h k = (k a).at w h

module _ {A B : Type 0} {P : Work → Type 0} {R : A → Work → Type 0} {Q : B → Work → Type 0} where
  pub Returns-bind :
      (m : Tx A) (f : A → Tx B)
      → Returns P R m
      → ((a : A) → Returns (R a) Q (f a))
      → Returns P Q (m >>= f)
  unfolding ◌>>=◌
  Returns-bind m f h k = record { at = λ w p. continue-Returns (m w) f (h.at w p) k }

module _ {A B : Type 0} {P R : Work → Type 0} {Q : B → Work → Type 0} where
  -- A first part whose value does not matter
  pub Returns-then :
      (m : Tx A) (f : A → Tx B)
      → Leads P R m
      → ((a : A) → Returns R Q (f a))
      → Returns P Q (m >>= f)
  Returns-then m f h k = Returns-bind m f (Returns-of_Leads m h) k

module _ {A : Type 0} {P : Work → Type 0} {Q : A → Work → Type 0} where
  pub Returns-pure : (a : A) → ((w : Work) → P w → Q a w) → Returns P Q (pure a)
  unfolding pure
  Returns-pure a h = record { at = h }

module _ {A : Type 0} {P : Work → Type 0} {Q : A → Work → Type 0} where
  pub Returns-fail : (e : Failure) → Returns P Q (fail e)
  unfolding fail
  Returns-fail e = record { at = λ w p. tt }

module _ {A : Type 0} {P R : Work → Type 0} {Q : A → Work → Type 0} where
  pub Returns-weaken : (m : Tx A) → ((w : Work) → P w → R w) → Returns R Q m → Returns P Q m
  Returns-weaken m weaker h = record { at = λ w p. h.at w (weaker w p) }

module _ {A : Type 0} {P : Work → Type 0} where
  pub Returns-gets : (f : Work → A) → Returns P (λ a w. P w × (a ≡ f w)) (gets f)
  unfolding gets
  Returns-gets f = record { at = λ w h. (h, refl) }

-- The condition that says nothing, which every transaction leads to
abbrev pub Always : Work → Type 0
Always w = Unit {0}

module _ {A : Type 0} {P : Work → Type 0} where
  pub Leads-Always : (m : Tx A) → Leads P Always m
  Leads-Always m = record { at = λ w h. said (m w) }
    where
      said : (r : Result (A × Work)) → Ends (λ _ v. Always v) r
      said (err e) = tt
      said (ok (a, w)) = tt
