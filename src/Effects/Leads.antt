-- ===== src/Effects/Leads.antt =====
-- Actions with what holds before and what holds of the result and the state after: one rule for
-- each way in which actions are put together.
use buildsyspp.Shared.{◌≡◌, refl, Bool, true, false, Option, none, some, if◌then◌else◌}
use buildsyspp.Effects.{Exception, Outcome, ok, throws, exhausted, Action, pure, throw, ◌>>=◌, from}
use buildsyspp.Effects.Keeps.{Keeps}

module _ {S A : Type 0} where
  -- `I` is what an exception leaves. The action does not run out of fuel.
  abbrev pub Post : (I : S → Type 0) (Q : A → S → Type 0) → Outcome A × S → Type 0
  Post I Q (ok a, t) = Q a t
  Post I Q (throws e, t) = I t
  Post I Q (exhausted, t) = ⊥

  pub Post-map :
      (I : S → Type 0) (Q R : A → S → Type 0) (r : Outcome A × S)
      → ((a : A) (t : S) → Q a t → R a t)
      → Post I Q r
      → Post I R r
  Post-map I Q R (ok a, t) f p = f a t p
  Post-map I Q R (throws e, t) f p = p
  Post-map I Q R (exhausted, t) f p = p

  pub record Leads (P I : S → Type 0) (Q : A → S → Type 0) (m : Action S A) : Type 0 where
    pub leads : (s : S) → P s → Post I Q (m s)

  pub Leads-weaken :
      (P P' I : S → Type 0) (Q Q' : A → S → Type 0) (m : Action S A)
      → ((s : S) → P s → P' s)
      → ((a : A) (s : S) → Q a s → Q' a s)
      → Leads P' I Q m
      → Leads P I Q' m
  Leads-weaken P P' I Q Q' m f g l = record {
    leads = λ s p. Post-map I Q Q' (m s) g (l.leads s (f s p));
  }

  module _ (P I : S → Type 0) (Q : A → S → Type 0) where
    pub Leads-pure : (a : A) → ((s : S) → P s → Q a s) → Leads P I Q (pure a)
    unfolding pure
    Leads-pure a f = record { leads = f }

    pub Leads-throw : (e : Exception) → ((s : S) → P s → I s) → Leads P I Q (throw e)
    unfolding throw
    Leads-throw e f = record { leads = f }

    pub Leads-from :
        (o : Option A) (e : Exception)
        → ((s : S) → P s → I s)
        → ((a : A) (s : S) → P s → Q a s)
        → Leads P I Q (from o e)
    unfolding from
    Leads-from none e f g = Leads-throw e f
    Leads-from (some a) e f g = Leads-pure a (g a)

    pub Leads-if :
        (b : Bool) (m n : Action S A)
        → Leads P I Q m
        → Leads P I Q n
        → Leads P I Q (if b then m else n)
    Leads-if true m n hm hn = hm
    Leads-if false m n hm hn = hn

module _ {S A : Type 0} (P I : S → Type 0) where
  pub Leads-keeps :
      (m : Action S A) → ((s : S) → P s → I s) → Keeps ⊥ P m → Leads P I (λ (_ : A). P) m
  Leads-keeps m f k = record { leads = λ s p. by_outcome (m s) (k.after s p) (k.ends s p) }
    where
      by_outcome : (r : Outcome A × S) → P r.1 → (r.0 ≡ exhausted → ⊥) → Post I (λ _. P) r
      by_outcome (ok a, t) p e = p
      by_outcome (throws x, t) p e = f t p
      by_outcome (exhausted, t) p e = e refl

module _ {S A : Type 0} {E : Type 0} (P : S → Type 0) where
  pub Keeps-leads : (m : Action S A) → Leads P P (λ (_ : A). P) m → Keeps E P m
  Keeps-leads m k = record {
    after = λ s p. by_outcome (m s) (k.leads s p);
    ends = λ s p. ends_from (m s) (k.leads s p);
  }
    where
      by_outcome : (r : Outcome A × S) → Post P (λ _. P) r → P r.1
      by_outcome (ok a, t) p = p
      by_outcome (throws e, t) p = p
      by_outcome (exhausted, t) p = absurd p

      ends_from : (r : Outcome A × S) → Post P (λ _. P) r → r.0 ≡ exhausted → E
      ends_from (ok a, t) p e = cc
      ends_from (throws x, t) p e = cc
      ends_from (exhausted, t) p e = absurd p

module _ {S A B : Type 0} (P I : S → Type 0) (R : A → S → Type 0) (Q : B → S → Type 0) where
  pub Leads-bind :
      (m : Action S A) (f : A → Action S B)
      → Leads P I R m
      → ((a : A) → Leads (R a) I Q (f a))
      → Leads P I Q (m >>= f)
  unfolding ◌>>=◌
  Leads-bind m f hm hf = record { leads = λ s p. by_outcome s (m s) (hm.leads s p) }
    where
      by_outcome : (s : S) (r : Outcome A × S) → Post I R r → Post I Q (((λ (_ : S). r) >>= f) s)
      by_outcome s (ok a, t) p = (hf a).leads t p
      by_outcome s (throws e, t) p = p
      by_outcome s (exhausted, t) p = p
