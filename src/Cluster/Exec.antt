-- ===== src/Cluster/Exec.antt =====
-- Handlers that read and write the cluster and may fail: what was written before an error stays.
use homelab_operator.Prelude.{◌≡◌, refl, subst, Bool, true, false, if◌then◌else◌}
use homelab_operator.Cluster.{Error, Result, ok, err}

abbrev pub Exec : Type 0 → Type 0 → Type 0
Exec W A = W → Result A × W

module _ {W A : Type 0} where
  abbrev pub pure : A → Exec W A
  pure a w = (ok a, w)

  abbrev pub raise : Error → Exec W A
  raise e w = (err e, w)

  -- A read.
  abbrev pub reads : (W → Result A) → Exec W A
  reads f w = (f w, w)

module _ {W A B : Type 0} where
  abbrev continue : Result A → (A → Exec W B) → Exec W B
  continue (ok a) f w = f a w
  continue (err e) f w = (err e, w)

  infixl 5 ◌>>=◌ ◌>>◌
  unfoldable pub ◌>>=◌ : Exec W A → (A → Exec W B) → Exec W B
  ◌>>=◌ m f w = let (r, w') = m w in continue r f w'

  abbrev pub ◌>>◌ : Exec W A → Exec W B → Exec W B
  m >> n = m >>= λ _. n

-- `m` keeps `P`, whether it succeeds or fails.
pub record Keeps {W A : Type 0} (P : W → Type 0) (m : Exec W A) : Type 0 where
  pub at : (w : W) → P w → P (m w).1

module _ {W A : Type 0} {P : W → Type 0} where
  pub Keeps-pure : (a : A) → Keeps P (pure a)
  Keeps-pure a = record { at = λ w h. h }

  pub Keeps-raise : (e : Error) → Keeps P (raise {A = A} e)
  Keeps-raise e = record { at = λ w h. h }

  pub Keeps-reads : (f : W → Result A) → Keeps P (reads f)
  Keeps-reads f = record { at = λ w h. h }

  pub Keeps-if : (b : Bool) (m n : Exec W A) → Keeps P m → Keeps P n → Keeps P (if b then m else n)
  Keeps-if true m n km kn = km
  Keeps-if false m n km kn = kn

module _ {W A B : Type 0} {P : W → Type 0} where
  continue-keeps :
      (r : Result A) (f : A → Exec W B) (w : W)
      → ((a : A) → Keeps P (f a))
      → P w
      → P (continue r f w).1
  continue-keeps (ok a) f w k h = (k a).at w h
  continue-keeps (err e) f w k h = h

  pub Keeps-bind :
      (m : Exec W A) (f : A → Exec W B) → Keeps P m → ((a : A) → Keeps P (f a)) → Keeps P (m >>= f)
  unfolding ◌>>=◌
  Keeps-bind m f km kf = record {
    at = λ w h. let (r, w') = m w in continue-keeps r f w' kf (km.at w h);
  }

module _ {W A B : Type 0} {P : W → Type 0} where
  -- What follows a read may use what was read, and that the state before had `P`.
  pub Keeps-reads-from :
      (f : W → Result A) (k : A → Exec W B)
      → ((w : W) (a : A) → P w → f w ≡ ok a → Keeps P (k a))
      → Keeps P (reads f >>= k)
  unfolding ◌>>=◌
  Keeps-reads-from f k h = record { at = λ w p. after w p (f w) refl }
    where
      after : (w : W) → P w → (r : Result A) → f w ≡ r → P (continue r k w).1
      after w p (ok a) e = (h w a p e).at w p
      after w p (err x) e = p

  pub Keeps-reads-bind :
      (f : W → Result A) (k : A → Exec W B)
      → ((w : W) (a : A) → f w ≡ ok a → Keeps P (k a))
      → Keeps P (reads f >>= k)
  Keeps-reads-bind f k h = Keeps-reads-from f k λ w a p. h w a

pub ruleset keeps_rules = (Keeps-pure, Keeps-raise, Keeps-reads, Keeps-if, Keeps-bind)

-- From a state with `P`, a run of `m` that succeeds ends in a state with `Q`.
pub record Leads {W A : Type 0} (P : W → Type 0) (m : Exec W A) (Q : W → Type 0) : Type 0 where
  pub at : (w : W) (a : A) → P w → (m w).0 ≡ ok a → Q (m w).1

module _ {W A : Type 0} {P : W → Type 0} where
  pub Leads-keeps : {m : Exec W A} → Keeps P m → Leads P m P
  Leads-keeps k = record { at = λ w a h e. k.at w h }

  pub Leads-if :
      {Q : W → Type 0} (b : Bool) (m n : Exec W A)
      → Leads P m Q
      → Leads P n Q
      → Leads P (if b then m else n) Q
  Leads-if true m n lm ln = lm
  Leads-if false m n lm ln = ln

  pub Leads-if_true :
      {Q : W → Type 0} (b : Bool) (m n : Exec W A)
      → b ≡ true
      → Leads P m Q
      → Leads P (if b then m else n) Q
  Leads-if_true true m n e lm = lm
  Leads-if_true false m n e lm = absurd (cc)

module _ {W A B : Type 0} {Q R : W → Type 0} where
  continue-leads :
      (r : Result A) (f : A → Exec W B) (w : W) (b : B)
      → ((a : A) → Leads Q (f a) R)
      → ((a : A) → r ≡ ok a → Q w)
      → (continue r f w).0 ≡ ok b
      → R (continue r f w).1
  continue-leads (ok a) f w b k h e = (k a).at w b (h a refl) e
  continue-leads (err x) f w b k h e = absurd (cc)

module _ {W A B : Type 0} {P Q R : W → Type 0} where
  pub Leads-bind :
      {m : Exec W A} {f : A → Exec W B}
      → Leads P m Q
      → ((a : A) → Leads Q (f a) R)
      → Leads P (m >>= f) R
  unfolding ◌>>=◌
  Leads-bind {m} {f} lm k = record {
    at = λ w b h e. let (r, w') = m w in continue-leads r f w' b k (λ a q. lm.at w a h q) e;
  }

module _ {W A B : Type 0} {Q R : W → Type 0} where
  -- A step that returns a known value and leaves the state as it is.
  pub Leads-known :
      (m : Exec W A) (f : A → Exec W B) (a : A)
      → ((w : W) → Q w → m w ≡ (ok a, w))
      → Leads Q (f a) R
      → Leads Q (m >>= f) R
  unfolding ◌>>=◌
  Leads-known m f a known l = record {
    at = λ w b h e. rw (known w h) (l.at w b h (rw (known w h) at e));
  }

-- `m` succeeds from every state.
pub record Succeeds {W A : Type 0} (m : Exec W A) : Type 0 where
  pub at : (w : W) → (a : A) × ((m w).0 ≡ ok a)

module _ {W A : Type 0} where
  pub Succeeds-pure : (a : A) → Succeeds {W = W} (pure a)
  Succeeds-pure a = record { at = λ w. (a, refl) }

  pub Succeeds-if :
      (b : Bool) (m n : Exec W A) → Succeeds m → Succeeds n → Succeeds (if b then m else n)
  Succeeds-if true m n sm sn = sm
  Succeeds-if false m n sm sn = sn

module _ {W A B : Type 0} where
  continue-Succeeds :
      (r : Result A) (f : A → Exec W B) (w : W) (a : A)
      → r ≡ ok a
      → ((a : A) → Succeeds (f a))
      → (b : B) × ((continue r f w).0 ≡ ok b)
  continue-Succeeds (ok x) f w a e k = (k x).at w
  continue-Succeeds (err x) f w a e k = absurd (cc)

  pub Succeeds-bind :
      (m : Exec W A) (f : A → Exec W B)
      → Succeeds m
      → ((a : A) → Succeeds (f a))
      → Succeeds (m >>= f)
  unfolding ◌>>=◌
  Succeeds-bind m f sm k = record {
    at = λ w. let (r, w') = m w in let (a, e) = sm.at w in continue-Succeeds r f w' a e k;
  }

pub ruleset succeeds_rules = (Succeeds-pure, Succeeds-if, Succeeds-bind)

-- From a state with `P`, a run of `m` that succeeds ends in a state with `P` and returns a value with
-- `R`.
pub record Returns {W A : Type 0} (P : W → Type 0) (m : Exec W A) (R : A → Type 0) : Type 0 where
  pub at : (w : W) (a : A) → P w → (m w).0 ≡ ok a → R a × P (m w).1

module _ {W A : Type 0} {P : W → Type 0} where
  pub Returns-pure : {R : A → Type 0} (a : A) → R a → Returns P (pure a) R
  Returns-pure {R} a r = record { at = λ w b h e. (from b e, h) }
    where
      from : (b : A) → ok a ≡ ok b → R b
      from b e = let q : a ≡ b = cc e in subst R q r

  pub Returns-if :
      {R : A → Type 0} (b : Bool) (m n : Exec W A)
      → (b ≡ true → Returns P m R)
      → (b ≡ false → Returns P n R)
      → Returns P (if b then m else n) R
  Returns-if true m n rm rn = rm refl
  Returns-if false m n rm rn = rn refl

  -- Any value, after a step that keeps `P`.
  pub Returns-keeps : {m : Exec W A} → Keeps P m → Returns P m (λ a. Unit {0})
  Returns-keeps k = record { at = λ w a h e. (tt, k.at w h) }

module _ {W A B : Type 0} {P : W → Type 0} {R : A → Type 0} {S : B → Type 0} where
  continue-Returns :
      (r : Result A) (f : A → Exec W B) (w : W) (b : B)
      → ((a : A) → R a → Returns P (f a) S)
      → ((a : A) → r ≡ ok a → R a × P w)
      → (continue r f w).0 ≡ ok b
      → S b × P (continue r f w).1
  continue-Returns (ok a) f w b k h e = let (ra, pw) = h a refl in (k a ra).at w b pw e
  continue-Returns (err x) f w b k h e = absurd (cc)

  pub Returns-bind :
      {m : Exec W A} {f : A → Exec W B}
      → Returns P m R
      → ((a : A) → R a → Returns P (f a) S)
      → Returns P (m >>= f) S
  unfolding ◌>>=◌
  Returns-bind {m} {f} rm k = record {
    at = λ w b h e. let (r, w') = m w in continue-Returns r f w' b k (λ a q. rm.at w a h q) e;
  }
