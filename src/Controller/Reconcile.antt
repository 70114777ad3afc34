-- ===== src/Controller/Reconcile.antt =====
-- internal/controller: the methods `Reconcile`, which run a reconciler behind its gate, and
-- `reconcileGate.run` as one goroutine sees it when no other one comes in between.
use homelab_operator.Prelude.{
  ℕ, Text, Bool, true, false, ◌&&◌, not, Option, none, some, ◌≡◌, refl, ◌∙◌, inl, inr, Bool-cases,
  List, [], ◌∷◌, eq_iff, codes, is_empty, if◌then◌else◌, arith,
}
use homelab_operator.Prelude.Dict.{Dict, get, put, get-put, get-remove}
use homelab_operator.Prelude.Keys.{is_some}
use homelab_operator.Config.{Config}
use homelab_operator.Cluster.{Client, Result}
use homelab_operator.Ensure.{ApplyPlan}
use homelab_operator.Dnsmasq.Netip.{Addr}
use homelab_operator.Controller.Gate.{Gate, Decision, requeue_after, run_fn, enter, leave}
use homelab_operator.Controller.Trigger.{
  ReconcileTrigger, TriggerRecorder, consume, trigger_log_values,
}
use homelab_operator.Controller.Device.{reconcile_namespace}
use homelab_operator.Controller.Dns.{reconcile_ingress, reconcile_load_balancer}

-- What a call comes back with: nothing to do, a time in milliseconds after which it is to be called
-- again, or what the function returned.
pub data Outcome (R : Type 0) : Type 0 where
  skipped : Outcome R
  again : ℕ → Outcome R
  ran : R → Outcome R

module _ {S R : Type 0} where
  abbrev after : Text → (S → R × S) → S → Decision × Gate → Outcome R × (Gate × S)
  after key fn s (requeue_after ms, g) = (again ms, (g, s))
  after key fn s (run_fn, g) = let (r, s') = fn s in (ran r, (leave key g, s'))

  unfoldable pub run : Text → (S → R × S) → Gate × S → Outcome R × (Gate × S)
  run key fn (g, s) = after key fn s (enter key g)

  -- After a call the gate holds what it held before.
  get-run :
      (key : Text) (fn : S → R × S) (g : Gate) (s : S) (k : Text)
      → get k (run key fn (g, s)).1.0 ≡ get k g
  unfolding run enter leave
  get-run key fn g s k = elim (Bool-cases (is_some (get key g))) [
    | inl e ↦ rw e refl
    | inr e ↦
        rw e (get-remove key k (put key tt g) ∙ ground (arith, get-put key k tt g, eq_iff key k, e))
  ]

module _ {S R : Type 0} (key : Text) (fn : S → R × S) (g : Gate) (s : S) where
  get-guarded :
      (enabled : Bool) (k : Text)
      → get k (if enabled then run key fn (g, s) else (skipped, (g, s))).1.0 ≡ get k g
  get-guarded true k = get-run key fn g s k
  get-guarded false k = refl

  idle-guarded :
      (enabled : Bool)
      → (enabled && not (is_some (get key g))) ≡ false
      → (if enabled then run key fn (g, s) else (skipped, (g, s))).1.1 ≡ s
  unfolding run enter
  idle-guarded true h = elim (Bool-cases (is_some (get key g))) [
    | inl b ↦ rw b refl
    | inr b ↦ absurd (ground arith)
  ]
  idle-guarded false h = refl

-- The values that the logger gets: those of the trigger, or else the name of the request.
unfoldable pub request_log_values : Option ReconcileTrigger → Text → List Text
request_log_values (some tr) name = trigger_log_values tr
request_log_values none name =
    if is_empty name
    then []
    else codes "triggerKind" ∷ codes "Network" ∷ codes "trigger" ∷ name ∷ []

-- What a reconcile of devices returns: the logger's values and the result.
abbrev pub Logged : Type 0
Logged = List Text × Result (List ApplyPlan)

module _ {W : Type 0} (c : Client W) (cfg : Config) (v6 : Text → Option Addr) where
  module _ (range : (V : Type 0) → Dict V → Dict V) where
    -- `reconcileNamespace` from its first line.
    unfoldable pub reconcile_request :
        Text → Text → TriggerRecorder × W → Logged × (TriggerRecorder × W)
    reconcile_request ns name (triggers, w) =
        let (tr, triggers') = consume ns triggers in
        let (r, w') = reconcile_namespace c cfg range v6 ns w in
        ((request_log_values tr name, r), (triggers', w'))

    -- `DeviceReconciler.Reconcile`
    unfoldable pub reconcile_device :
        Text → Text → Gate × (TriggerRecorder × W) → Outcome Logged × (Gate × (TriggerRecorder × W))
    reconcile_device ns name s =
        if cfg.enable_device_based_hosts then run ns (reconcile_request ns name) s else (skipped, s)

  -- `IngressDNSReconciler.Reconcile`
  unfoldable pub reconcile_ingress_dns : Gate × W → Outcome (Result (List ApplyPlan)) × (Gate × W)
  reconcile_ingress_dns s =
      if cfg.enable_ingress_based_dns_hosts
      then run cfg.dnsmasq_resources_namespace
          (reconcile_ingress c cfg v6 cfg.dnsmasq_resources_namespace) s
      else (skipped, s)

  -- `LoadBalancerDNSReconciler.Reconcile`
  unfoldable pub reconcile_load_balancer_dns :
      Gate × W → Outcome (Result (List ApplyPlan)) × (Gate × W)
  reconcile_load_balancer_dns s =
      if cfg.enable_load_balancer_based_dns_hosts
      then run cfg.dnsmasq_resources_namespace
          (reconcile_load_balancer c cfg v6 cfg.dnsmasq_resources_namespace) s
      else (skipped, s)

module _ {W : Type 0} (c : Client W) (cfg : Config) (v6 : Text → Option Addr)
    (range : (V : Type 0) → Dict V → Dict V) (ns name : Text) (g : Gate)
    (s : TriggerRecorder × W) where
  -- A call of the device reconciler leaves the gate with the keys it had, on every branch, also
  -- where the reconcile fails.
  pub get-reconcile_device :
      (key : Text) → get key (reconcile_device c cfg v6 range ns name (g, s)).1.0 ≡ get key g
  unfolding reconcile_device
  get-reconcile_device key =
      get-guarded ns (reconcile_request c cfg v6 range ns name) g s cfg.enable_device_based_hosts
        key

  -- While the device reconciler is switched off, or the gate holds the namespace, a call changes
  -- neither the cluster nor the recorded triggers.
  pub reconcile_device_idle :
      (cfg.enable_device_based_hosts && not (is_some (get ns g))) ≡ false
      → (reconcile_device c cfg v6 range ns name (g, s)).1.1 ≡ s
  unfolding reconcile_device
  reconcile_device_idle h =
      idle-guarded ns (reconcile_request c cfg v6 range ns name) g s cfg.enable_device_based_hosts h
