-- ===== src/Controller/Device/Steady/Steps.antt =====
-- The steps of a reconcile where every wanted object is in the cluster: the plans are to leave the
-- objects unchanged, and the objects stay.
use mathlib.Core.List.{Nodup, Nodup-cons}
use homelab_operator.Prelude.{
  Text, Bool, true, false, some, ◌≡◌, refl, subst, ap, inl, inr, Bool-cases, List, [], ◌∷◌, ◌==◌,
  eq_iff, eq_refl, if◌then◌else◌,
}
use homelab_operator.Prelude.Lists.{All}
use homelab_operator.Prelude.Dict.{Dict, get, keys}
use homelab_operator.Prelude.Keys.{mem-keys_of_is_some}
use homelab_operator.Api.{Device, Network}
use homelab_operator.Config.{Config}
use homelab_operator.Cluster.{Client, Object, ConfigMap, Result, ok, err}
use homelab_operator.Cluster.Exec.{
  Exec, pure, ◌>>=◌, ◌>>◌, Keeps, Leads, Leads-keeps, Returns, Returns-pure, Returns-bind,
}
use homelab_operator.Cluster.Laws.{IsLawful, is_at}
use homelab_operator.Ensure.{ApplyPlan, plan_with, unchanged, apply_unstructured}
use homelab_operator.Ensure.Stored.{Stored, Keeps-Stored, plan_unstructured-Stored}
use homelab_operator.Desired.DeviceBased.{DeviceBasedOutput}
use homelab_operator.Controller.Device.{
  plan_and_apply, apply_each, options_or_mark, on_options_error,
}
use homelab_operator.Controller.Device.Established.Steps.{stores, apart, raise-fails}
use homelab_operator.Controller.Device.Established.Objects.{
  Wanted, HasSpec-Wanted, is_external-Wanted,
}
use homelab_operator.Controller.Device.Established.Unique.{same_object}

-- Every wanted object is in the cluster.
pub record AllStored {W : Type 0} (c : Client W) (cfg : Config) (out : DeviceBasedOutput) (w : W)
    : Type 0 where
  pub all : (o : Object) → Wanted cfg out o → Stored c o w

abbrev pub IsUnchanged : ApplyPlan → Type 0
IsUnchanged p = p.action ≡ unchanged

pub value-then :
    {W A B : Type 0} (m : Exec W A) (b b' : B) (w : W) → ((m >> pure b) w).0 ≡ ok b' → b' ≡ b
unfolding ◌>>=◌
value-then {W} {A} {B} m b b' w e = from (m w).0 (m w).1 e
  where
    from : (r : Result A) (w' : W) → (((λ (v : W). (r, w')) >> pure b) w).0 ≡ ok b' → b' ≡ b
    from (ok a) w' p = cc
    from (err x) w' p = absurd (cc)

module _ {W : Type 0} (c : Client W) (law : IsLawful c) (cfg : Config) (wet : cfg.dry_run ≡ false)
    (out : DeviceBasedOutput) where
  pub Keeps-AllStored :
      {A : Type 0} (m : Exec W A)
      → ((o : Object) → Wanted cfg out o → Keeps (Stored c o) m)
      → Keeps (AllStored c cfg out) m
  Keeps-AllStored m k = record {
    at = λ w h. record { all = λ o wanted. (k o wanted).at w (h.all o wanted) };
  }

  module _ (o' : Object) (wanted' : Wanted cfg out o') (lbl : Dict Text) (owner : ConfigMap) where
    Leads-plan_and_apply :
        (o : Object)
        → Wanted cfg out o
        → Leads (Stored c o) (plan_and_apply c cfg o' lbl owner) (Stored c o)
    Leads-plan_and_apply o wanted = elim (Bool-cases (is_at o.gvk o.namespace o.name o')) [
      | inl e ↦
          subst (λ x. Leads (Stored c o) (plan_and_apply c cfg o' lbl owner) (Stored c x))
            (same_object cfg out o o' wanted wanted' e)
            (stores c law cfg o' (HasSpec-Wanted cfg out o' wanted') wet lbl owner)
      | inr e ↦ Leads-keeps (apart c law cfg o o' lbl owner e)
    ]

    value-plan_and_apply :
        (w : W) (p : ApplyPlan)
        → Stored c o' w
        → (plan_and_apply c cfg o' lbl owner w).0 ≡ ok p
        → IsUnchanged p
    unfolding plan_and_apply ◌>>=◌
    value-plan_and_apply w p s e =
        ap (λ (x : ApplyPlan). x.action)
          (value-then (if cfg.dry_run then pure tt else apply_unstructured c o' false lbl owner)
            (plan_with c o' unchanged) p w
            (rw (plan_unstructured-Stored c law o' (HasSpec-Wanted cfg out o' wanted') w s) at e))

    pub Returns-plan_and_apply :
        Returns (AllStored c cfg out) (plan_and_apply c cfg o' lbl owner) IsUnchanged
    Returns-plan_and_apply = record {
      at = λ w p h e. (
        value-plan_and_apply w p (h.all o' wanted') e,
        record { all = λ o wanted. (Leads-plan_and_apply o wanted).at w p (h.all o wanted) e },
      );
    }

  pub Returns-apply_each :
      {V : Type 0} (f : Text → V → Exec W ApplyPlan) (l : Dict V)
      → Nodup (keys l)
      → ((k : Text) (v : V) → get k l ≡ some v → Returns (AllStored c cfg out) (f k v) IsUnchanged)
      → Returns (AllStored c cfg out) (apply_each c cfg f l) (All IsUnchanged)
  unfolding apply_each get
  Returns-apply_each {V} f [] u h = Returns-pure [] tt
  Returns-apply_each {V} f ((j, v) ∷ l) u h =
      Returns-bind (h j v (first (j == j) (eq_refl j))) λ plan p.
        Returns-bind (Returns-apply_each f l (Nodup-cons.0 u).1 (λ k x e. h k x (later k x e)))
          λ plans ps. Returns-pure (plan ∷ plans) (p, ps)
    where
      first : (b : Bool) → b ≡ true → (if b then some v else get j l) ≡ some v
      first b e = rw e refl

      later : (k : Text) (x : V) → get k l ≡ some x → (if j == k then some v else get k l) ≡ some x
      later k x e = elim (Bool-cases (j == k)) [
        | inl d ↦
            absurd
              ((Nodup-cons.0 u).0 (rw ((eq_iff j k).0 d) (mem-keys_of_is_some k l (rw e refl))))
        | inr d ↦ rw d e
      ]

  pub Returns-options_or_mark :
      (ds : List Device) (ns : List Network) (m : Exec W ApplyPlan)
      → Returns (AllStored c cfg out) m IsUnchanged
      → Returns (AllStored c cfg out) (options_or_mark c cfg ds ns m) IsUnchanged
  unfolding options_or_mark on_options_error
  Returns-options_or_mark ds ns m rm = record {
    at = λ w p h e. let (r, w') = m w in from r w' p (λ x q. rm.at w x h q) e;
  }
    where
      from :
          (r : Result ApplyPlan) (w' : W) (p : ApplyPlan)
          → ((x : ApplyPlan) → r ≡ ok x → IsUnchanged x × AllStored c cfg out w')
          → (on_options_error c cfg ds ns r w').0 ≡ ok p
          → IsUnchanged p × AllStored c cfg out (on_options_error c cfg ds ns r w').1
      from (ok plan) w' p k e =
          let q : plan ≡ p = cc e in (subst IsUnchanged q (k plan refl).0, (k plan refl).1)
      from (err x) w' p k e = absurd (raise-fails _ x w' p e)

  pub Keeps-config_map :
      (cm : ConfigMap) (f : ConfigMap → ConfigMap)
      → Keeps (AllStored c cfg out) (c.create_or_update_config_map cm f)
  Keeps-config_map cm f = Keeps-AllStored _ λ o wanted.
      Keeps-Stored c law o _
        λ w. law.get-config_map cm f w _ _ _ (is_external-Wanted cfg out o wanted)
