-- ===== src/Controller/Status/Keeps.antt =====
-- What the status loops keep: whatever the status writes keep that are made outside a dry run.
use homelab_operator.Prelude.{Text, Bool, true, false, ◌≡◌, refl, List, [], ◌∷◌, if◌then◌else◌}
use homelab_operator.Api.{Device, Network, IngressRouter}
use homelab_operator.Config.{Config}
use homelab_operator.Cluster.{Client, ok}
use homelab_operator.Cluster.Exec.{Exec, Keeps, Keeps-pure, Keeps-bind}
use homelab_operator.Controller.Status.{
  drop_error, update_device, update_device_statuses, update_network, update_network_statuses,
  update_router, update_router_statuses,
}

-- The two guards before a status write.
pub guarded_write :
    {W : Type 0} (P : W → Type 0) (same dry : Bool) (m : Exec W (Unit {0})) (w : W)
    → P w
    → (dry ≡ false → Keeps P m)
    → P (if same then (ok tt, w) else (if dry then (ok tt, w) else drop_error m w)).1
guarded_write P true dry m w h k = h
guarded_write P false true m w h k = h
guarded_write P false false m w h k = (k refl).at w h

module _ {W : Type 0} (c : Client W) (cfg : Config) (P : W → Type 0) where
  Keeps-update_device :
      ((d : Device) → cfg.dry_run ≡ false → Keeps P (c.update_device_status d))
      → (ns : List Network) (ok_ : Bool) (msg : Text) (d : Device)
      → Keeps P (update_device c cfg ns ok_ msg d)
  unfolding update_device
  Keeps-update_device k ns ok_ msg d = record {
    at = λ w h. guarded_write P _ cfg.dry_run _ w h (k _);
  }

  pub Keeps-update_device_statuses :
      ((d : Device) → cfg.dry_run ≡ false → Keeps P (c.update_device_status d))
      → (ns : List Network) (ok_ : Bool) (msg : Text) (ds : List Device)
      → Keeps P (update_device_statuses c cfg ns ok_ msg ds)
  unfolding update_device_statuses
  Keeps-update_device_statuses k ns ok_ msg [] = Keeps-pure _
  Keeps-update_device_statuses k ns ok_ msg (d ∷ ds) =
      Keeps-bind _ _ (Keeps-update_device k ns ok_ msg d)
        λ _. Keeps-update_device_statuses k ns ok_ msg ds

  Keeps-update_network :
      ((n : Network) → cfg.dry_run ≡ false → Keeps P (c.update_network_status n))
      → (ok_ : Bool) (msg : Text) (n : Network) → Keeps P (update_network c cfg ok_ msg n)
  unfolding update_network
  Keeps-update_network k ok_ msg n = record {
    at = λ w h. guarded_write P _ cfg.dry_run _ w h (k _);
  }

  pub Keeps-update_network_statuses :
      ((n : Network) → cfg.dry_run ≡ false → Keeps P (c.update_network_status n))
      → (ok_ : Bool) (msg : Text) (ns : List Network)
      → Keeps P (update_network_statuses c cfg ok_ msg ns)
  unfolding update_network_statuses
  Keeps-update_network_statuses k ok_ msg [] = Keeps-pure _
  Keeps-update_network_statuses k ok_ msg (n ∷ ns) =
      Keeps-bind _ _ (Keeps-update_network k ok_ msg n)
        λ _. Keeps-update_network_statuses k ok_ msg ns

  Keeps-update_router :
      ((r : IngressRouter) → cfg.dry_run ≡ false → Keeps P (c.update_router_status r))
      → (ok_ : Bool) (msg : Text) (r : IngressRouter) → Keeps P (update_router c cfg ok_ msg r)
  unfolding update_router
  Keeps-update_router k ok_ msg r = record { at = λ w h. guarded_write P _ cfg.dry_run _ w h (k _) }

  pub Keeps-update_router_statuses :
      ((r : IngressRouter) → cfg.dry_run ≡ false → Keeps P (c.update_router_status r))
      → (ok_ : Bool) (msg : Text) (rs : List IngressRouter)
      → Keeps P (update_router_statuses c cfg ok_ msg rs)
  unfolding update_router_statuses
  Keeps-update_router_statuses k ok_ msg [] = Keeps-pure _
  Keeps-update_router_statuses k ok_ msg (r ∷ rs) =
      Keeps-bind _ _ (Keeps-update_router k ok_ msg r)
        λ _. Keeps-update_router_statuses k ok_ msg rs
