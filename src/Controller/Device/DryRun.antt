-- ===== src/Controller/Device/DryRun.antt =====
-- A dry run writes nothing, whatever the cluster answers.
use homelab_operator.Prelude.{Text, true, false, ◌≡◌, ◌∙◌, sym, refl, Option, List, []}
use homelab_operator.Prelude.Dict.{Dict}
use homelab_operator.Api.{Device, Network}
use homelab_operator.Config.{Config}
use homelab_operator.Cluster.{Client, Object, ConfigMap}
use homelab_operator.Cluster.Exec.{Exec, Keeps, Keeps-pure, Keeps-reads, Keeps-if, Keeps-bind}
use homelab_operator.Dnsmasq.Netip.{Addr}
use homelab_operator.Desired.DeviceBased.{DeviceBasedOutput}
use homelab_operator.Controller.Status.Keeps.{
  Keeps-update_device_statuses, Keeps-update_network_statuses,
}
use homelab_operator.Controller.Device.{
  apply_dhcp_options, apply_dhcp_hosts, apply_dns_hosts, apply_free_radius, plan_and_apply,
  apply_radius_devices, prune_all, sync, reconcile_namespace,
}
use homelab_operator.Controller.Device.Keeps.{
  Keeps-ensure_anchor, Keeps-plan_and_apply, Keeps-apply_each, Keeps-options_or_mark,
  Keeps-free_radius_owner,
}

module _ {W : Type 0} (c : Client W) (cfg : Config) (P : W → Type 0)
    (dry : cfg.dry_run ≡ true) where
  -- No write is made outside a dry run.
  pub never : {A : Type 0} (m : Exec W A) → cfg.dry_run ≡ false → Keeps P m
  never m e = absurd (cc (sym dry ∙ e))

  planned :
      (o : Object) (lbl : Dict Text) (owner : ConfigMap)
      → Keeps P (plan_and_apply c cfg o lbl owner)
  planned o lbl owner = Keeps-plan_and_apply c cfg P o lbl owner (never _)

  module _ (range : (V : Type 0) → Dict V → Dict V) where
    Keeps-apply_radius_devices :
        (out : DeviceBasedOutput) (anchor : ConfigMap)
        → Keeps P (apply_radius_devices c cfg range out anchor)
    unfolding apply_radius_devices apply_free_radius
    Keeps-apply_radius_devices out anchor =
        Keeps-if _ _ _
          (Keeps-bind _ _ (Keeps-free_radius_owner c cfg P (λ cm f. never _) anchor)
            λ owner. Keeps-apply_each c cfg P _ _ λ k v. planned _ _ _)
          (Keeps-pure _)

    Keeps-prune_all : (out : DeviceBasedOutput) → Keeps P (prune_all c cfg range out)
    unfolding prune_all
    Keeps-prune_all out = rw dry (Keeps-pure _)

    Keeps-sync :
        (out : DeviceBasedOutput) (ds : List Device) (ns : List Network)
        → Keeps P (sync c cfg range out ds ns)
    unfolding sync apply_dhcp_options apply_dhcp_hosts apply_dns_hosts
    Keeps-sync out ds ns =
        Keeps-bind _ _ (Keeps-ensure_anchor c cfg P (λ cm f. never _) _ _ _) λ anchor.
          Keeps-bind _ _ (Keeps-options_or_mark c cfg P (λ d. never _) ds ns _ (planned _ _ _))
            λ plan. Keeps-bind _ _ (Keeps-apply_each c cfg P _ _ λ k v. planned _ _ _) λ leases.
              Keeps-bind _ _ (Keeps-apply_each c cfg P _ _ λ k v. planned _ _ _) λ hosts.
                Keeps-bind _ _ (Keeps-apply_radius_devices out anchor) λ radius.
                  Keeps-bind _ _ (Keeps-prune_all out) λ _.
                    Keeps-bind _ _
                      (Keeps-update_device_statuses c cfg P (λ d. never _) ns true [] ds)
                      λ _.
                        Keeps-bind _ _
                          (Keeps-update_network_statuses c cfg P (λ n. never _) true [] ns)
                          λ _. Keeps-pure _

-- With `DryRun` set, a reconcile of devices leaves the cluster as it was, whether it succeeds or
-- fails, for every behaviour of the API server.
pub reconcile_namespace_dry_run :
    {W : Type 0} (c : Client W) (cfg : Config) (range : (V : Type 0) → Dict V → Dict V)
    (v6 : Text → Option Addr) (ns : Text) (w : W)
    → cfg.dry_run ≡ true
    → (reconcile_namespace c cfg range v6 ns w).1 ≡ w
unfolding reconcile_namespace
reconcile_namespace_dry_run c cfg range v6 ns w dry =
    (Keeps-bind {P = λ w'. w' ≡ w} _ _ (Keeps-reads _)
        λ devices. Keeps-bind _ _ (Keeps-reads _) λ networks. Keeps-sync c cfg _ dry range _ _ _).at
      w refl
