-- ===== src/Controller/Status.antt =====
-- The status updates of internal/controller: `updateDeviceStatuses`, `updateNetworkStatuses`,
-- `updateRouterStatuses`. An error of the update itself is dropped, as in the code.
pub mod Conditions
pub mod Keeps
pub mod Marked
pub mod Succeeds
use homelab_operator.Prelude.{
  ℤ, int_eq, Text, Bool, true, false, not, ◌&&◌, some, List, [], ◌∷◌, ◌==◌, codes, is_empty,
  if◌then◌else◌,
}
use homelab_operator.Prelude.Lists.{any}
use homelab_operator.Api.{
  Condition, HomelabStatus, Device, Network, IngressRouter, condition_ready,
  condition_network_available,
}
use homelab_operator.Cluster.{Client, ok}
use homelab_operator.Cluster.Exec.{Exec, pure, ◌>>◌}
use homelab_operator.Config.{Config}

abbrev pub reason_synced : Text
reason_synced = codes "Synced"

abbrev pub reason_not_synced : Text
reason_not_synced = codes "NotSynced"

-- A condition as the code writes it, before `SetStatusCondition` stamps it.
abbrev pub condition : Text → Bool → Text → Text → Condition
condition type status reason message = record {
  type = type;
  status = if status then codes "True" else codes "False";
  reason = reason;
  message = message;
  last_transition_time = 0;
}

-- Type, status and reason are compared, position by position.
unfoldable pub condition_slice_equal : List Condition → List Condition → Bool
condition_slice_equal [] [] = true
condition_slice_equal (a ∷ as') (b ∷ bs) =
    a.type == b.type && a.status == b.status && a.reason == b.reason && condition_slice_equal as' bs
condition_slice_equal _ _ = false

-- `_ = r.Status().Update(…)`
abbrev drop_error : {W : Type 0} → Exec W (Unit {0}) → Exec W (Unit {0})
drop_error m w = (ok tt, (m w).1)

-- The network that the device names is one of the list.
abbrev pub network_exists : List Network → Device → Bool
network_exists networks dev = any (λ (n : Network). n.name == dev.spec.network) networks

abbrev pub is_ready : List Network → Bool → Device → Bool
is_ready networks ok_ dev = ok_ && (not (is_empty dev.spec.network) && network_exists networks dev)

module _ {W : Type 0} (c : Client W) (cfg : Config) where
  -- The three writes of the condition NetworkAvailable.
  unfoldable pub availability : List Network → Device → List Condition → List Condition
  availability networks dev conds =
      let missing = c.set_status_condition conds (
        condition condition_network_available false (codes "NetworkMissing")
          (codes "Referenced network does not exist")) in
      if is_empty dev.spec.network
      then c.set_status_condition missing (
          condition condition_network_available false (codes "NetworkNotSet")
            (codes "spec.network is empty"))
      else (if network_exists networks dev
          then c.set_status_condition missing
              (condition condition_network_available true (codes "NetworkFound") [])
          else missing)

  unfoldable pub readiness : Bool → Text → List Condition → List Condition
  readiness ready err_msg conds =
      if ready
      then c.set_status_condition conds (condition condition_ready true reason_synced [])
      else c.set_status_condition conds (
          condition condition_ready false reason_not_synced
            (if is_empty err_msg then codes "Device not synced" else err_msg))

  abbrev pub device_conditions : List Network → Bool → Text → Device → List Condition
  device_conditions networks ok_ err_msg dev =
      readiness (is_ready networks ok_ dev) err_msg
        (availability networks dev dev.status.conditions)

  -- The status that the loop computes for a device.
  unfoldable pub device_status : List Network → Bool → Text → Device → W → Device
  unfolding availability readiness
  device_status networks ok_ err_msg dev w = record dev {
    status = record {
      observed_generation = dev.generation;
      last_sync_time =
          if is_ready networks ok_ dev then some (c.now w) else dev.status.last_sync_time;
      conditions = device_conditions networks ok_ err_msg dev;
    };
  }

  -- One round of the loop of `updateDeviceStatuses`.
  unfoldable pub update_device : List Network → Bool → Text → Device → Exec W (Unit {0})
  update_device networks ok_ err_msg dev w =
      let dev' = device_status networks ok_ err_msg dev w in
      if int_eq dev.status.observed_generation dev'.status.observed_generation
        && condition_slice_equal dev.status.conditions dev'.status.conditions
      then (ok tt, w)
      else (if cfg.dry_run then (ok tt, w) else drop_error (c.update_device_status dev') w)

  unfoldable pub update_device_statuses :
      List Network → Bool → Text → List Device → Exec W (Unit {0})
  update_device_statuses networks ok_ err_msg [] = pure tt
  update_device_statuses networks ok_ err_msg (dev ∷ devs) =
      update_device networks ok_ err_msg dev >> update_device_statuses networks ok_ err_msg devs

  unfoldable pub ready_condition : Bool → Text → List Condition → List Condition
  ready_condition ok_ err_msg conds = c.set_status_condition conds (
      if ok_
      then condition condition_ready true reason_synced []
      else condition condition_ready false reason_not_synced err_msg)

  abbrev pub next_status : Bool → Text → HomelabStatus → ℤ → W → HomelabStatus
  next_status ok_ err_msg status generation w = record {
    observed_generation = generation;
    last_sync_time = if ok_ then some (c.now w) else status.last_sync_time;
    conditions = ready_condition ok_ err_msg status.conditions;
  }

  -- One round of the loop of `updateNetworkStatuses`.
  unfoldable pub update_network : Bool → Text → Network → Exec W (Unit {0})
  update_network ok_ err_msg net w =
      let status = next_status ok_ err_msg net.status net.generation w in
      if int_eq net.status.observed_generation status.observed_generation
        && condition_slice_equal net.status.conditions status.conditions
      then (ok tt, w)
      else (if cfg.dry_run
          then (ok tt, w)
          else drop_error (c.update_network_status (record net { status = status })) w)

  unfoldable pub update_network_statuses : Bool → Text → List Network → Exec W (Unit {0})
  update_network_statuses ok_ err_msg [] = pure tt
  update_network_statuses ok_ err_msg (n ∷ ns) =
      update_network ok_ err_msg n >> update_network_statuses ok_ err_msg ns

  -- One round of the loop of `updateRouterStatuses`, which compares the conditions alone.
  unfoldable pub update_router : Bool → Text → IngressRouter → Exec W (Unit {0})
  update_router ok_ err_msg ir w =
      let status = next_status ok_ err_msg ir.status ir.generation w in
      if condition_slice_equal ir.status.conditions status.conditions
      then (ok tt, w)
      else (if cfg.dry_run
          then (ok tt, w)
          else drop_error (c.update_router_status (record ir { status = status })) w)

  unfoldable pub update_router_statuses : Bool → Text → List IngressRouter → Exec W (Unit {0})
  update_router_statuses ok_ err_msg [] = pure tt
  update_router_statuses ok_ err_msg (ir ∷ irs) =
      update_router ok_ err_msg ir >> update_router_statuses ok_ err_msg irs
