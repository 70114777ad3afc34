-- ===== src/Controller/Device/Established/Steps.antt =====
-- The steps of the device reconciler and one stored object: those that store it, and those that leave
-- it as it is.
use homelab_operator.Prelude.{
  Text, true, false, ◌≡◌, refl, ap, ◌⊎◌, inl, inr, Bool-cases, List, ◌==◌, eq_iff, arith,
}
use homelab_operator.Prelude.Dict.{Dict, get}
use homelab_operator.Prelude.Keys.{is_some}
use homelab_operator.Api.{Device, Network}
use homelab_operator.Config.{Config}
use homelab_operator.Cluster.{Gvk, Client, Object, ConfigMap, Error, Result, ok, err}
use homelab_operator.Cluster.Exec.{
  Exec, raise, ◌>>◌, ◌>>=◌, Keeps, Keeps-reads, Keeps-pure, Leads, Leads-keeps, Leads-bind,
}
use homelab_operator.Cluster.Laws.{HasSpec, IsLawful, is_at, same_kind}
use homelab_operator.Ensure.{ApplyPlan, apply_unstructured}
use homelab_operator.Ensure.Stored.{Stored, apply_unstructured-Stored, Keeps-Stored}
use homelab_operator.Controller.Prune.{NameSet}
use homelab_operator.Controller.Prune.Safety.{Survives}
use homelab_operator.Controller.Device.{plan_and_apply, options_or_mark, on_options_error}
use homelab_operator.Controller.Device.Keeps.{Keeps-plan_and_apply}

-- Nothing is claimed of the state.
abbrev pub Anywhere : {W : Type 0} → W → Type 0
Anywhere w = Unit {0}

pub Leads-Anywhere : {W A : Type 0} {P : W → Type 0} (m : Exec W A) → Leads P m Anywhere
Leads-Anywhere m = record { at = λ w a h e. tt }

pub raise-fails :
    {W A B : Type 0} (m : Exec W A) (e : Error) (w : W) (b : B) → ((m >> raise e) w).0 ≡ ok b → ⊥
unfolding ◌>>=◌
raise-fails {W} {A} {B} m e w b q = from (m w).0 (m w).1 q
  where
    from : (r : Result A) (w' : W) → (((λ (v : W). (r, w')) >> raise {A = B} e) w).0 ≡ ok b → ⊥
    from (ok a) w' p = cc
    from (err x) w' p = cc

module _ {W : Type 0} (c : Client W) (law : IsLawful c) (cfg : Config) (o : Object) where
  pub stores :
      {P : W → Type 0}
      → HasSpec o
      → cfg.dry_run ≡ false
      → (lbl : Dict Text) (owner : ConfigMap)
      → Leads P (plan_and_apply c cfg o lbl owner) (Stored c o)
  unfolding plan_and_apply
  stores {P} spec wet lbl owner = Leads-bind {Q = P} (Leads-keeps (Keeps-reads _)) λ plan.
      Leads-bind {Q = Stored c o} (rw wet (apply_unstructured-Stored c law o spec lbl owner))
        λ _. Leads-keeps (Keeps-pure _)

  pub apart :
      (o' : Object) (lbl : Dict Text) (owner : ConfigMap)
      → is_at o.gvk o.namespace o.name o' ≡ false
      → Keeps (Stored c o) (plan_and_apply c cfg o' lbl owner)
  unfolding apply_unstructured
  apart o' lbl owner e =
      Keeps-plan_and_apply c cfg (Stored c o) o' lbl owner
        λ _. Keeps-Stored c law o _ λ w. law.get-create_or_update _ _ w _ _ _ e

  -- An object of another name stands under another key.
  pub named_apart :
      (o' : Object) (lbl : Dict Text) (owner : ConfigMap)
      → (o'.name == o.name) ≡ false
      → Keeps (Stored c o) (plan_and_apply c cfg o' lbl owner)
  named_apart o' lbl owner d =
      apart o' lbl owner (ground (arith, d, eq_iff o'.name o.name, eq_iff o.name o'.name))

  -- A prune that keeps the object's name, or that is of another kind.
  pub pruned_apart :
      (names : NameSet) (namespace aggregate : Text) (gvk : Gvk)
      → (same_kind o.gvk gvk ≡ false) ⊎ (is_some (get o.name names) ≡ true)
      → Survives c (Stored c o) names namespace aggregate gvk
  pruned_apart names namespace aggregate gvk safe item w m h s =
      (Keeps-Stored c law o (c.delete item) λ v. law.get-delete item v _ _ _ (missed safe)).at w s
    where
      missed :
          (same_kind o.gvk gvk ≡ false) ⊎ (is_some (get o.name names) ≡ true)
          → is_at o.gvk o.namespace o.name item ≡ false
      missed (inl d) = ground (arith, d, ap (same_kind o.gvk) m.of_kind)
      missed (inr kept) = elim (Bool-cases (o.name == item.name)) [
        | inl q ↦ absurd (
            ground
              (arith, kept, h, ap (λ n. is_some (get n names)) ((eq_iff o.name item.name).0 q)))
        | inr q ↦ ground (arith, q)
      ]

module _ {W : Type 0} (c : Client W) (cfg : Config) (ds : List Device) (ns : List Network) where
  -- If the options are applied, what that leads to stays: on an error the whole step fails.
  pub Leads-options_or_mark :
      {P Q : W → Type 0} (m : Exec W ApplyPlan)
      → Leads P m Q
      → Leads P (options_or_mark c cfg ds ns m) Q
  unfolding options_or_mark on_options_error
  Leads-options_or_mark {P} {Q} m lm = record {
    at = λ w a h q. let (r, w') = m w in from r w' a (λ x e. lm.at w x h e) q;
  }
    where
      from :
          (r : Result ApplyPlan) (w' : W) (a : ApplyPlan)
          → ((x : ApplyPlan) → r ≡ ok x → Q w')
          → (on_options_error c cfg ds ns r w').0 ≡ ok a
          → Q (on_options_error c cfg ds ns r w').1
      from (ok plan) w' a k q = k plan refl
      from (err e) w' a k q = absurd (raise-fails _ e w' a q)
