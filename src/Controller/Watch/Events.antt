-- ===== src/Controller/Watch/Events.antt =====
-- The three SetupWithManager of internal/controller: what the watches that they register enqueue for
-- an event. A controller that is switched off registers nothing. `For` enqueues the object itself.
pub mod Canonical
use homelab_operator.Prelude.{
  Text, Bool, true, false, not, ◌&&◌, ◌≡◌, refl, ap, ◌∙◌, inl, inr, Bool-cases, List, [], ◌∷◌, ◌==◌,
  eq_iff, if◌then◌else◌, arith,
}
use homelab_operator.Prelude.Lists.{All}
use homelab_operator.Api.{Device, Network, IngressRouter, Ingress}
use homelab_operator.Config.{Config, is_nil}
use homelab_operator.Cluster.{Client, Object}
use homelab_operator.Controller.Dns.{ingress_anchor_name, lb_anchor_name}
use homelab_operator.Controller.Trigger.{TriggerRecorder}
use homelab_operator.Controller.Watch.{
  Request, ServiceEvent, canonical_network_request, is_canonical, enqueue_canonical_network,
  map_device_to_network, lb_only,
}

-- An object of a watched type for which an event comes in; a ConfigMap by namespace and name.
pub data Seen : Type 0 where
  network : Network → Seen
  device : Device → Seen
  router : IngressRouter → Seen
  ingress : Ingress → Seen
  http_route : Object → Seen
  service : ServiceEvent → Seen
  config_map : Text → Text → Seen

abbrev pub anchor_request : Config → Text → Request
anchor_request cfg name = record { namespace = cfg.dnsmasq_resources_namespace; name = name }

-- `For` with `anchorOnly`
abbrev pub own_anchor : Config → Text → Text → Text → List Request
own_anchor cfg anchor namespace name =
    if namespace == cfg.dnsmasq_resources_namespace && name == anchor
    then record { namespace = namespace; name = name } ∷ []
    else []

unfoldable pub ingress_requests : Config → Seen → List Request
ingress_requests cfg seen = if not cfg.enable_ingress_based_dns_hosts then [] else elim seen [
  | config_map namespace name ↦ own_anchor cfg ingress_anchor_name namespace name
  | router r ↦ anchor_request cfg ingress_anchor_name ∷ []
  | ingress i ↦ anchor_request cfg ingress_anchor_name ∷ []
  | http_route o ↦ anchor_request cfg ingress_anchor_name ∷ []
  | _ ↦ []
]

unfoldable pub load_balancer_requests : Config → Seen → List Request
load_balancer_requests cfg seen =
    if not cfg.enable_load_balancer_based_dns_hosts then [] else elim seen [
      | config_map namespace name ↦ own_anchor cfg lb_anchor_name namespace name
      | service e ↦ if lb_only e then anchor_request cfg lb_anchor_name ∷ [] else []
      | _ ↦ []
    ]

module _ {W : Type 0} (c : Client W) where
  -- A network passes two watches: `For` with its predicate, and the one with the map function.
  unfoldable pub network_requests : Network → W → TriggerRecorder → List Request × TriggerRecorder
  network_requests n w triggers =
      let (requests, triggers') = enqueue_canonical_network c n w triggers in
      (
        if is_canonical c n w
            then record { namespace = n.namespace; name = n.name } ∷ requests
            else requests,
        triggers',
      )

  unfoldable pub device_requests :
      Config → Seen → W → TriggerRecorder → List Request × TriggerRecorder
  unfolding network_requests
  device_requests cfg seen w triggers =
      if not cfg.enable_device_based_hosts then ([], triggers) else elim seen [
        | network n ↦ network_requests n w triggers
        | device d ↦ map_device_to_network c d w triggers
        | _ ↦ ([], triggers)
      ]
