-- ===== src/Controller/Prune.antt =====
-- `pruneManaged` of internal/controller/device_controller.go: managed objects that are no longer
-- wanted are deleted.
pub mod Safety
use homelab_operator.Prelude.{Text, Bool, List, [], ◌∷◌, if◌then◌else◌}
use homelab_operator.Prelude.Dict.{Dict, get}
use homelab_operator.Prelude.Keys.{is_some}
use homelab_operator.Cluster.{Gvk, Object, Client}
use homelab_operator.Cluster.Exec.{Exec, pure, reads, ◌>>=◌, ◌>>◌}
use homelab_operator.Config.{Config}
use homelab_operator.Dnsmasq.Unstructured.{dhcp_hosts_gvk, dns_hosts_gvk}

-- A Go `map[string]struct{}`.
abbrev pub NameSet : Type 0
NameSet = Dict (Unit {0})

module _ {W : Type 0} (c : Client W) (cfg : Config) where
  -- The loop over the items of one kind.
  unfoldable pub delete_stale : NameSet → List Object → Exec W (Unit {0})
  delete_stale keep [] = pure tt
  delete_stale keep (item ∷ items) =
      let rest = delete_stale keep items in
      if is_some (get item.name keep)
      then rest
      else (if cfg.dry_run then rest else c.delete item >> rest)

  -- The loop over the kinds. The list is by namespace, aggregate label and the operator's label.
  unfoldable pub prune_kinds : Text → Text → NameSet → List Gvk → Exec W (Unit {0})
  prune_kinds namespace aggregate keep [] = pure tt
  prune_kinds namespace aggregate keep (gvk ∷ gvks) = do
    items ← reads (λ w. c.list_managed w gvk namespace aggregate)
    delete_stale keep items
    prune_kinds namespace aggregate keep gvks

  -- With no kind given, the kinds are DhcpHosts and DnsHosts.
  unfoldable pub prune_managed : Text → Text → NameSet → List Gvk → Exec W (Unit {0})
  prune_managed namespace aggregate keep [] =
      prune_kinds namespace aggregate keep (dhcp_hosts_gvk ∷ dns_hosts_gvk ∷ [])
  prune_managed namespace aggregate keep (gvk ∷ gvks) =
      prune_kinds namespace aggregate keep (gvk ∷ gvks)
