-- ===== src/Controller/Device/Keeps.antt =====
-- What the steps of the device reconciler keep: whatever the writes keep that are made outside a
-- dry run.
use homelab_operator.Prelude.{Text, Bool, true, false, ◌≡◌, refl, List, [], ◌∷◌, if◌then◌else◌}
use homelab_operator.Prelude.Dict.{Dict}
use homelab_operator.Api.{Device, Network}
use homelab_operator.Config.{Config}
use homelab_operator.Cluster.{Client, Object, ConfigMap, Result, ok, err}
use homelab_operator.Cluster.Exec.{
  Exec, Keeps, Keeps-pure, Keeps-raise, Keeps-reads, Keeps-if, Keeps-bind,
}
use homelab_operator.Ensure.{ApplyPlan, apply, apply_unstructured}
use homelab_operator.Controller.Status.Keeps.{Keeps-update_device_statuses}
use homelab_operator.Controller.Device.{
  ensure_anchor, plan_and_apply, apply_each, on_options_error, options_or_mark, free_radius_owner,
}

-- A step that is made outside a dry run alone.
Keeps-unless :
    {A W : Type 0} {P : W → Type 0} (dry : Bool) (m n : Exec W A)
    → Keeps P m
    → (dry ≡ false → Keeps P n)
    → Keeps P (if dry then m else n)
Keeps-unless true m n km kn = km
Keeps-unless false m n km kn = kn refl

module _ {W : Type 0} (c : Client W) (cfg : Config) (P : W → Type 0) where
  pub Keeps-ensure_anchor :
      ((cm : ConfigMap) (f : ConfigMap → ConfigMap)
        → cfg.dry_run ≡ false
        → Keeps P (c.create_or_update_config_map cm f))
      → (namespace name : Text) (lbl : Dict Text) → Keeps P (ensure_anchor c cfg namespace name lbl)
  unfolding ensure_anchor apply
  Keeps-ensure_anchor k namespace name lbl = Keeps-unless cfg.dry_run _ _ (Keeps-pure _) (k _ _)

  pub Keeps-plan_and_apply :
      (o : Object) (lbl : Dict Text) (owner : ConfigMap)
      → (cfg.dry_run ≡ false → Keeps P (apply_unstructured c o false lbl owner))
      → Keeps P (plan_and_apply c cfg o lbl owner)
  unfolding plan_and_apply
  Keeps-plan_and_apply o lbl owner k =
      Keeps-bind _ _ (Keeps-reads _)
        λ plan. Keeps-bind _ _ (Keeps-unless cfg.dry_run _ _ (Keeps-pure _) k) λ _. Keeps-pure _

  pub Keeps-apply_each :
      {V : Type 0} (f : Text → V → Exec W ApplyPlan) (m : Dict V)
      → ((k : Text) (v : V) → Keeps P (f k v))
      → Keeps P (apply_each c cfg f m)
  unfolding apply_each
  Keeps-apply_each f [] h = Keeps-pure _
  Keeps-apply_each f ((k, v) ∷ m) h =
      Keeps-bind _ _ (h k v) λ plan. Keeps-bind _ _ (Keeps-apply_each f m h) λ plans. Keeps-pure _

  Keeps-on_options_error :
      ((d : Device) → cfg.dry_run ≡ false → Keeps P (c.update_device_status d))
      → (ds : List Device) (ns : List Network) (r : Result ApplyPlan)
      → Keeps P (on_options_error c cfg ds ns r)
  unfolding on_options_error
  Keeps-on_options_error k ds ns (ok plan) = Keeps-pure _
  Keeps-on_options_error k ds ns (err e) =
      Keeps-bind _ _ (Keeps-update_device_statuses c cfg P k ns false (c.error_text e) ds)
        λ _. Keeps-raise e

  pub Keeps-options_or_mark :
      ((d : Device) → cfg.dry_run ≡ false → Keeps P (c.update_device_status d))
      → (ds : List Device) (ns : List Network) (m : Exec W ApplyPlan) → Keeps P m
      → Keeps P (options_or_mark c cfg ds ns m)
  unfolding options_or_mark
  Keeps-options_or_mark k ds ns m km = record {
    at = λ w h. let (r, w') = m w in (Keeps-on_options_error k ds ns r).at w' (km.at w h);
  }

  pub Keeps-free_radius_owner :
      ((cm : ConfigMap) (f : ConfigMap → ConfigMap)
        → cfg.dry_run ≡ false
        → Keeps P (c.create_or_update_config_map cm f))
      → (anchor : ConfigMap) → Keeps P (free_radius_owner c cfg anchor)
  unfolding free_radius_owner
  Keeps-free_radius_owner k anchor = Keeps-if _ _ _ (Keeps-pure _) (Keeps-ensure_anchor k _ _ _)
