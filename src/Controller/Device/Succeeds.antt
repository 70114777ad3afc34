-- ===== src/Controller/Device/Succeeds.antt =====
-- A reconcile of a namespace succeeds where the API server answers its calls.
use homelab_operator.Prelude.{Text, true, Option, ◌≡◌, refl, List, [], ◌∷◌}
use homelab_operator.Prelude.Dict.{Dict, get}
use homelab_operator.Prelude.Keys.{is_some}
use homelab_operator.Api.{Device, Network}
use homelab_operator.Config.{Config}
use homelab_operator.Cluster.{Gvk, Client, Object, ConfigMap, Result, ok, err}
use homelab_operator.Cluster.Exec.{Exec, reads, Succeeds, Succeeds-pure, Succeeds-if, Succeeds-bind}
use homelab_operator.Cluster.Laws.{IsUp}
use homelab_operator.Ensure.{ApplyPlan, apply, apply_unstructured}
use homelab_operator.Ensure.Succeeds.{plan_unstructured-ok, mutate_object-ok}
use homelab_operator.Dnsmasq.Netip.{Addr}
use homelab_operator.Desired.DeviceBased.{DeviceBasedOutput}
use homelab_operator.Controller.Status.Succeeds.{
  Succeeds-update_device_statuses, Succeeds-update_network_statuses,
}
use homelab_operator.Controller.Prune.{NameSet, delete_stale, prune_kinds, prune_managed}
use homelab_operator.Controller.Device.{
  ensure_anchor, plan_and_apply, apply_dhcp_options, apply_dhcp_hosts, apply_dns_hosts,
  apply_free_radius, apply_each, on_options_error, options_or_mark, free_radius_owner,
  apply_radius_devices, prune_all, sync, reconcile_namespace,
}

pub Succeeds-reads :
    {W A : Type 0} (f : W → Result A) → ((w : W) → (a : A) × (f w ≡ ok a)) → Succeeds (reads f)
Succeeds-reads f h = record { at = h }

module _ {W : Type 0} (c : Client W) (cfg : Config) (up : IsUp c) where
  pub Succeeds-ensure_anchor :
      (namespace name : Text) (lbl : Dict Text) → Succeeds (ensure_anchor c cfg namespace name lbl)
  unfolding ensure_anchor apply
  Succeeds-ensure_anchor namespace name lbl =
      Succeeds-if cfg.dry_run _ _ (Succeeds-pure _) (record { at = up.writes_config_map _ _ })

  pub Succeeds-plan_and_apply :
      (o : Object) (lbl : Dict Text) (owner : ConfigMap)
      → Succeeds (plan_and_apply c cfg o lbl owner)
  unfolding plan_and_apply apply_unstructured
  Succeeds-plan_and_apply o lbl owner =
      Succeeds-bind _ _ (Succeeds-reads _ (plan_unstructured-ok c up o)) λ plan.
        Succeeds-bind _ _
          (Succeeds-if cfg.dry_run _ _ (Succeeds-pure _)
            (record { at = λ w. (tt, up.writes _ _ (mutate_object-ok c up o lbl owner) w) }))
          λ _. Succeeds-pure _

  Succeeds-apply_each :
      {V : Type 0} (f : Text → V → Exec W ApplyPlan) (m : Dict V)
      → ((k : Text) (v : V) → Succeeds (f k v))
      → Succeeds (apply_each c cfg f m)
  unfolding apply_each
  Succeeds-apply_each f [] h = Succeeds-pure _
  Succeeds-apply_each f ((k, v) ∷ m) h =
      Succeeds-bind _ _ (h k v)
        λ plan. Succeeds-bind _ _ (Succeeds-apply_each f m h) λ plans. Succeeds-pure _

  Succeeds-options_or_mark :
      (ds : List Device) (ns : List Network) (m : Exec W ApplyPlan)
      → Succeeds m
      → Succeeds (options_or_mark c cfg ds ns m)
  unfolding options_or_mark on_options_error
  Succeeds-options_or_mark ds ns m sm = record {
    at = λ w. let (r, w') = m w in let (a, e) = sm.at w in from r w' a e;
  }
    where
      from :
          (r : Result ApplyPlan) (w' : W) (a : ApplyPlan)
          → r ≡ ok a
          → (b : ApplyPlan) × ((on_options_error c cfg ds ns r w').0 ≡ ok b)
      from (ok plan) w' a e = (plan, refl)
      from (err x) w' a e = absurd (cc)

  Succeeds-delete_stale :
      (names : NameSet) (items : List Object) → Succeeds (delete_stale c cfg names items)
  unfolding delete_stale
  Succeeds-delete_stale names [] = Succeeds-pure _
  Succeeds-delete_stale names (item ∷ items) =
      let rest = Succeeds-delete_stale names items in
      Succeeds-if (is_some (get item.name names)) _ _ rest (
        Succeeds-if cfg.dry_run _ _ rest
          (Succeeds-bind _ _ (record { at = λ w. (tt, up.deletes item w) }) λ _. rest))

  Succeeds-prune_kinds :
      (namespace aggregate : Text) (names : NameSet) (gvks : List Gvk)
      → Succeeds (prune_kinds c cfg namespace aggregate names gvks)
  unfolding prune_kinds
  Succeeds-prune_kinds namespace aggregate names [] = Succeeds-pure _
  Succeeds-prune_kinds namespace aggregate names (gvk ∷ gvks) =
      let rest = Succeeds-prune_kinds namespace aggregate names gvks in
      Succeeds-bind _ _ (Succeeds-reads _ λ w. up.lists_managed w gvk namespace aggregate)
        λ items. Succeeds-bind _ _ (Succeeds-delete_stale names items) λ _. rest

  Succeeds-prune_managed :
      (namespace aggregate : Text) (names : NameSet) (gvks : List Gvk)
      → Succeeds (prune_managed c cfg namespace aggregate names gvks)
  unfolding prune_managed
  Succeeds-prune_managed namespace aggregate names [] = Succeeds-prune_kinds _ _ _ _
  Succeeds-prune_managed namespace aggregate names (g ∷ gvks) = Succeeds-prune_kinds _ _ _ _

  module _ (range : (V : Type 0) → Dict V → Dict V) where
    Succeeds-prune_all : (out : DeviceBasedOutput) → Succeeds (prune_all c cfg range out)
    unfolding prune_all
    Succeeds-prune_all out = Succeeds-if cfg.dry_run _ _ (Succeeds-pure _) (
        Succeeds-bind _ _ (Succeeds-prune_managed _ _ _ []) λ _.
          Succeeds-if cfg.enable_free_radius_devices _ _ (Succeeds-prune_managed _ _ _ _)
            (Succeeds-pure _))

    Succeeds-apply_radius_devices :
        (out : DeviceBasedOutput) (anchor : ConfigMap)
        → Succeeds (apply_radius_devices c cfg range out anchor)
    unfolding apply_radius_devices free_radius_owner apply_free_radius
    Succeeds-apply_radius_devices out anchor =
        Succeeds-if cfg.enable_free_radius_devices _ _
          (Succeeds-bind _ _ (Succeeds-if _ _ _ (Succeeds-pure _) (Succeeds-ensure_anchor _ _ _))
            λ owner. Succeeds-apply_each _ _ λ k v. Succeeds-plan_and_apply _ _ owner)
          (Succeeds-pure _)

    Succeeds-sync :
        (out : DeviceBasedOutput) (ds : List Device) (ns : List Network)
        → Succeeds (sync c cfg range out ds ns)
    unfolding sync apply_dhcp_options apply_dhcp_hosts apply_dns_hosts
    Succeeds-sync out ds ns = Succeeds-bind _ _ (Succeeds-ensure_anchor _ _ _) λ anchor.
        Succeeds-bind _ _ (Succeeds-options_or_mark ds ns _ (Succeeds-plan_and_apply _ _ anchor))
          λ plan.
            Succeeds-bind _ _ (Succeeds-apply_each _ _ λ k v. Succeeds-plan_and_apply _ _ anchor)
              λ leases.
                Succeeds-bind _ _
                  (Succeeds-apply_each _ _ λ k v. Succeeds-plan_and_apply _ _ anchor)
                  λ hosts. Succeeds-bind _ _ (Succeeds-apply_radius_devices out anchor) λ radius.
                    Succeeds-bind _ _ (Succeeds-prune_all out) λ _.
                      Succeeds-bind _ _ (Succeeds-update_device_statuses c cfg true [] ns ds) λ _.
                        Succeeds-bind _ _ (Succeeds-update_network_statuses c cfg true [] ns)
                          λ _. Succeeds-pure _

    pub Succeeds-reconcile_namespace :
        (v6 : Text → Option Addr) (namespace : Text)
        → Succeeds (reconcile_namespace c cfg range v6 namespace)
    unfolding reconcile_namespace
    Succeeds-reconcile_namespace v6 namespace =
        Succeeds-bind _ _ (Succeeds-reads _ λ w. up.lists_devices w namespace) λ ds.
          Succeeds-bind _ _ (Succeeds-reads _ λ w. up.lists_networks w namespace)
            λ ns. Succeeds-sync _ _ _
