-- ===== src/Controller/Dns/Steady/Values.antt =====
-- What a run returns, from the state in which it starts.
use homelab_operator.Prelude.{◌≡◌, refl, subst}
use homelab_operator.Cluster.{Result, ok, err}
use homelab_operator.Cluster.Exec.{Exec, pure, ◌>>=◌, Leads}
use homelab_operator.Controller.Device.Established.Steps.{Anywhere}

-- From a state with `P`, a run of `m` that succeeds returns a value with `R`.
pub record Gives {W A : Type 0} (P : W → Type 0) (m : Exec W A) (R : A → Type 0) : Type 0 where
  pub at : (w : W) (a : A) → P w → (m w).0 ≡ ok a → R a

pub Gives-pure : {W A : Type 0} {P : W → Type 0} {R : A → Type 0} (a : A) → R a → Gives P (pure a) R
Gives-pure {R = R} a r = record { at = λ w b h e. let q : a ≡ b = cc e in subst R q r }

pub Gives-weaken :
    {W A : Type 0} {P Q : W → Type 0} {m : Exec W A} {R : A → Type 0}
    → ((w : W) → P w → Q w)
    → Gives Q m R
    → Gives P m R
Gives-weaken k g = record { at = λ w a h e. g.at w a (k w h) e }

module _ {W A B : Type 0} {P : W → Type 0} {S : B → Type 0} where
  -- The rest may rely on the state that the first step leads to.
  pub Gives-bind :
      {Q : W → Type 0} {m : Exec W A} {f : A → Exec W B}
      → Leads P m Q
      → ((a : A) → Gives Q (f a) S)
      → Gives P (m >>= f) S
  unfolding ◌>>=◌
  Gives-bind {Q} {m} {f} lm k = record {
    at = λ w b h e. from (m w).0 (m w).1 b (λ a q. lm.at w a h q) e;
  }
    where
      from :
          (r : Result A) (w : W) (b : B)
          → ((a : A) → r ≡ ok a → Q w)
          → (((λ (v : W). (r, w)) >>= f) w).0 ≡ ok b
          → S b
      from (ok a) w b h e = (k a).at w b (h a refl) e
      from (err x) w b h e = absurd (cc)

  -- The rest may rely on the value of the first step.
  pub Gives-value :
      {R : A → Type 0} {m : Exec W A} {f : A → Exec W B}
      → Gives P m R
      → ((a : A) → R a → Gives Anywhere (f a) S)
      → Gives P (m >>= f) S
  unfolding ◌>>=◌
  Gives-value {R} {m} {f} gm k = record {
    at = λ w b h e. from (m w).0 (m w).1 b (λ a q. gm.at w a h q) e;
  }
    where
      from :
          (r : Result A) (w : W) (b : B)
          → ((a : A) → r ≡ ok a → R a)
          → (((λ (v : W). (r, w)) >>= f) w).0 ≡ ok b
          → S b
      from (ok a) w b h e = (k a (h a refl)).at w b tt e
      from (err x) w b h e = absurd (cc)

  pub Gives-known :
      (m : Exec W A) (f : A → Exec W B) (a : A)
      → ((w : W) → P w → m w ≡ (ok a, w))
      → Gives P (f a) S
      → Gives P (m >>= f) S
  unfolding ◌>>=◌
  Gives-known m f a known l = record { at = λ w b h e. l.at w b h (rw (known w h) at e) }
