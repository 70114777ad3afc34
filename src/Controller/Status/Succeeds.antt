-- ===== src/Controller/Status/Succeeds.antt =====
-- The status loops never fail: an error of a status write is dropped.
use homelab_operator.Prelude.{Text, Bool, true, false, ◌≡◌, refl, List, [], ◌∷◌, if◌then◌else◌}
use homelab_operator.Api.{Device, Network, IngressRouter}
use homelab_operator.Config.{Config}
use homelab_operator.Cluster.{Client, Result, ok}
use homelab_operator.Cluster.Exec.{Succeeds, Succeeds-pure, Succeeds-bind}
use homelab_operator.Controller.Status.{
  update_device, update_device_statuses, update_network, update_network_statuses, update_router,
  update_router_statuses,
}

-- The two guards before a status write.
guarded_write :
    {W : Type 0} (same dry : Bool) (w w' : W)
    → (if◌then◌else◌ {A = Result (Unit {0}) × W} same
        (ok tt, w)
        (if dry then (ok tt, w) else (ok tt, w'))).0
      ≡ ok tt
guarded_write true dry w w' = refl
guarded_write false true w w' = refl
guarded_write false false w w' = refl

module _ {W : Type 0} (c : Client W) (cfg : Config) (ok_ : Bool) (msg : Text) where
  pub Succeeds-update_device_statuses :
      (ns : List Network) (ds : List Device) → Succeeds (update_device_statuses c cfg ns ok_ msg ds)
  unfolding update_device_statuses update_device
  Succeeds-update_device_statuses ns [] = Succeeds-pure _
  Succeeds-update_device_statuses ns (d ∷ ds) =
      Succeeds-bind _ _ (record { at = λ w. (tt, guarded_write _ cfg.dry_run w _) })
        λ _. Succeeds-update_device_statuses ns ds

  pub Succeeds-update_network_statuses :
      (ns : List Network) → Succeeds (update_network_statuses c cfg ok_ msg ns)
  unfolding update_network_statuses update_network
  Succeeds-update_network_statuses [] = Succeeds-pure _
  Succeeds-update_network_statuses (n ∷ ns) =
      Succeeds-bind _ _ (record { at = λ w. (tt, guarded_write _ cfg.dry_run w _) })
        λ _. Succeeds-update_network_statuses ns

  pub Succeeds-update_router_statuses :
      (rs : List IngressRouter) → Succeeds (update_router_statuses c cfg ok_ msg rs)
  unfolding update_router_statuses update_router
  Succeeds-update_router_statuses [] = Succeeds-pure _
  Succeeds-update_router_statuses (r ∷ rs) =
      Succeeds-bind _ _ (record { at = λ w. (tt, guarded_write _ cfg.dry_run w _) })
        λ _. Succeeds-update_router_statuses rs
