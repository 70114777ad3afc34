-- ===== src/Controller/Status/Marked.antt =====
-- What `updateDeviceStatuses` keeps after an error: whatever the writes of devices keep that are not
-- ready.
use homelab_operator.Prelude.{Text, true, false, some, ◌≡◌, inl, inr, List, [], ◌∷◌, codes}
use homelab_operator.Api.{Device, Network, condition_ready}
use homelab_operator.Config.{Config}
use homelab_operator.Cluster.{Client}
use homelab_operator.Cluster.Exec.{Keeps, Keeps-pure, Keeps-bind}
use homelab_operator.Controller.Status.{device_status, update_device, update_device_statuses}
use homelab_operator.Controller.Status.Conditions.{SetsCondition, status_of, device_status_lem}
use homelab_operator.Controller.Status.Keeps.{guarded_write}

-- The device has the condition Ready with the status False.
abbrev pub IsMarked : Device → Type 0
IsMarked dev = status_of condition_ready dev.status.conditions ≡ some (codes "False")

module _ {W : Type 0} (c : Client W) (cfg : Config) (law : SetsCondition c) (P : W → Type 0)
    (marks : (d : Device) → IsMarked d → Keeps P (c.update_device_status d)) where
  device_status-IsMarked :
      (ns : List Network) (msg : Text) (d : Device) (w : W)
      → IsMarked (device_status c cfg ns false msg d w)
  device_status-IsMarked ns msg d w =
      let s = device_status_lem c cfg law ns false msg d w in
      elim s.not_ready [
        | inl e ↦ let never : false ≡ true = (s.ready.0 e).0 in absurd (cc never)
        | inr e ↦ e
      ]

  Keeps-mark :
      (ns : List Network) (msg : Text) (d : Device) → Keeps P (update_device c cfg ns false msg d)
  unfolding update_device
  Keeps-mark ns msg d = record {
    at = λ w h.
        let d' = device_status c cfg ns false msg d w in
        guarded_write P _ cfg.dry_run (c.update_device_status d') w h
          λ _. marks d' (device_status-IsMarked ns msg d w);
  }

  pub Keeps-marked :
      (ns : List Network) (msg : Text) (ds : List Device)
      → Keeps P (update_device_statuses c cfg ns false msg ds)
  unfolding update_device_statuses
  Keeps-marked ns msg [] = Keeps-pure _
  Keeps-marked ns msg (d ∷ ds) = Keeps-bind _ _ (Keeps-mark ns msg d) λ _. Keeps-marked ns msg ds
