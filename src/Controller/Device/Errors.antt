-- ===== src/Controller/Device/Errors.antt =====
-- A reconcile of devices whose DHCP options the API server refuses.
use homelab_operator.Prelude.{Text, false, Option, ◌≡◌, refl, sym, subst, List}
use homelab_operator.Prelude.Dict.{Dict}
use homelab_operator.Api.{Device, Network}
use homelab_operator.Config.{Config}
use homelab_operator.Cluster.{Client, Object, ConfigMap, Error, Result, ok, err}
use homelab_operator.Cluster.Exec.{Exec, raise, ◌>>=◌, Keeps, Keeps-reads}
use homelab_operator.Ensure.{ApplyPlan, apply_unstructured}
use homelab_operator.Dnsmasq.Netip.{Addr}
use homelab_operator.Dnsmasq.Unstructured.{dhcp_options_gvk, new_dhcp_options, new_object}
use homelab_operator.Dnsmasq.{DhcpOptionsSpec}
use homelab_operator.Controller.Status.Conditions.{SetsCondition}
use homelab_operator.Controller.Status.Marked.{IsMarked, Keeps-marked}
use homelab_operator.Controller.Device.{
  plan_and_apply, apply_dhcp_options, on_options_error, options_or_mark, sync, reconcile_namespace,
}
use homelab_operator.Controller.Device.Keeps.{Keeps-ensure_anchor}

-- `m` fails from every state with `P`, and keeps `P`.
record Stops {W A : Type 0} (P : W → Type 0) (m : Exec W A) : Type 0 where
  at : (w : W) → P w → ((e : Error) × ((m w).0 ≡ err e)) × P (m w).1

module _ {W A : Type 0} {P : W → Type 0} where
  Stops-raise : (e : Error) → Stops P (raise {A = A} e)
  Stops-raise e = record { at = λ w h. ((e, refl), h) }

module _ {W A B : Type 0} {P : W → Type 0} where
  continue-Stops :
      (r : Result A) (f : A → Exec W B) (w : W)
      → ((a : A) → Stops P (f a))
      → P w
      → ((e : Error) × ((((λ (v : W). (r, w)) >>= f) w).0 ≡ err e))
        × P (((λ (v : W). (r, w)) >>= f) w).1
  unfolding ◌>>=◌
  continue-Stops (ok a) f w k h = (k a).at w h
  continue-Stops (err e) f w k h = ((e, refl), h)

  -- A step that keeps `P`, before one that fails.
  Stops-after :
      (m : Exec W A) (f : A → Exec W B) → Keeps P m → ((a : A) → Stops P (f a)) → Stops P (m >>= f)
  unfolding ◌>>=◌
  Stops-after m f km kf = record {
    at = λ w h. let (r, w') = m w in continue-Stops r f w' kf (km.at w h);
  }

  -- What follows a step that fails does not run.
  Stops-bind : (m : Exec W A) (f : A → Exec W B) → Stops P m → Stops P (m >>= f)
  unfolding ◌>>=◌
  Stops-bind m f sm = record {
    at = λ w h. let ((e, q), k) = sm.at w h in let (r, w') = m w in rw q ((e, refl), k);
  }

-- The API server refuses each write of a DhcpOptions object, and such a write changes nothing.
pub record RefusesOptions {W : Type 0} (c : Client W) : Type 0 where
  pub refused :
      (o : Object) (f : Object → Result Object) (w : W)
      → o.gvk ≡ dhcp_options_gvk
      → (e : Error) × (c.create_or_update o f w ≡ (err e, w))

module _ {W : Type 0} (c : Client W) (refuses : RefusesOptions c) (cfg : Config)
    (wet : cfg.dry_run ≡ false) (P : W → Type 0) where
  Stops-apply_dhcp_options :
      (ns : Text) (spec : DhcpOptionsSpec) (anchor : ConfigMap)
      → Stops P (apply_dhcp_options c cfg ns spec anchor)
  unfolding apply_dhcp_options plan_and_apply apply_unstructured new_dhcp_options new_object
  Stops-apply_dhcp_options ns spec anchor = Stops-after _ _ (Keeps-reads _) λ plan. Stops-bind _ _ (
      rw wet (record {
        at = λ w h.
            let (e, q) = refuses.refused _ _ w refl in
            subst (λ r. ((x : Error) × (r.0 ≡ err x)) × P r.1) (sym q) ((e, refl), h);
      }))

  module _ (law : SetsCondition c)
      (marks : (d : Device) → IsMarked d → Keeps P (c.update_device_status d)) where
    Stops-on_options_error :
        (ds : List Device) (ns : List Network) (e : Error)
        → Stops P (on_options_error c cfg ds ns (err e))
    unfolding on_options_error
    Stops-on_options_error ds ns e =
        Stops-after _ _ (Keeps-marked c cfg law P marks ns (c.error_text e) ds) λ _. Stops-raise e

    Stops-options_or_mark :
        (ds : List Device) (ns : List Network) (m : Exec W ApplyPlan)
        → Stops P m
        → Stops P (options_or_mark c cfg ds ns m)
    unfolding options_or_mark
    Stops-options_or_mark ds ns m sm = record {
      at = λ w h.
          let ((e, q), k) = sm.at w h in
          let (r, w') = m w in rw q ((Stops-on_options_error ds ns e).at w' k);
    }

    Stops-reconcile_namespace :
        ((cm : ConfigMap) (f : ConfigMap → ConfigMap)
          → Keeps P (c.create_or_update_config_map cm f))
        → (range : (V : Type 0) → Dict V → Dict V) (v6 : Text → Option Addr) (ns : Text)
        → Stops P (reconcile_namespace c cfg range v6 ns)
    unfolding reconcile_namespace sync
    Stops-reconcile_namespace anchors range v6 ns = Stops-after _ _ (Keeps-reads _) λ ds.
        Stops-after _ _ (Keeps-reads _) λ networks.
          Stops-after _ _ (Keeps-ensure_anchor c cfg P (λ cm f _. anchors cm f) _ _ _) λ anchor.
            Stops-bind _ _ (Stops-options_or_mark _ _ _ (Stops-apply_dhcp_options _ _ anchor))

-- Outside a dry run, where the API server refuses the DHCP options, a reconcile of devices ends with an
-- error, whatever is in the cluster, and it writes ConfigMaps and the status of devices that it marks
-- as not ready, and nothing else: every property of the cluster that these writes keep, it keeps. No
-- DHCP or DNS hosts and no FreeRADIUS device is written, and nothing is pruned. What the API server
-- refuses it does not write, and `SetStatusCondition` sets the condition of its type alone.
pub reconcile_namespace_refused :
    {W : Type 0} (c : Client W) (cfg : Config) (range : (V : Type 0) → Dict V → Dict V)
    → (v6 : Text → Option Addr) (ns : Text) (w : W) (P : W → Type 0) → SetsCondition c
    → RefusesOptions c
    → cfg.dry_run ≡ false
    → ((cm : ConfigMap) (f : ConfigMap → ConfigMap) → Keeps P (c.create_or_update_config_map cm f))
    → ((d : Device) → IsMarked d → Keeps P (c.update_device_status d))
    → P w
    → ((e : Error) × ((reconcile_namespace c cfg range v6 ns w).0 ≡ err e))
      × P (reconcile_namespace c cfg range v6 ns w).1
reconcile_namespace_refused c cfg range v6 ns w P law refuses wet anchors marks h =
    (Stops-reconcile_namespace c refuses cfg wet P law marks anchors range v6 ns).at w h
