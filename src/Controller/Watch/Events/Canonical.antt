-- ===== src/Controller/Watch/Events/Canonical.antt =====
-- The requests of a controller: one for each namespace, or one at all.
use homelab_operator.Prelude.{
  Text, Bool, true, false, not, ◌&&◌, ◌≡◌, refl, ap, ◌∙◌, inl, inr, Bool-cases, List, [], ◌∷◌, ◌==◌,
  eq_iff, if◌then◌else◌, arith,
}
use homelab_operator.Prelude.Lists.{All}
use homelab_operator.Api.{Network}
use homelab_operator.Config.{Config, is_nil}
use homelab_operator.Cluster.{Client}
use homelab_operator.Controller.Dns.{ingress_anchor_name, lb_anchor_name}
use homelab_operator.Controller.Trigger.{TriggerRecorder}
use homelab_operator.Controller.Watch.{
  Request, canonical_network_request, is_canonical, enqueue_canonical_network,
  map_device_to_network, lb_only,
}
use homelab_operator.Controller.Watch.Events.{
  Seen, network, device, router, ingress, http_route, service, config_map, anchor_request,
  own_anchor, ingress_requests, load_balancer_requests, network_requests, device_requests,
}

-- The namespace of the object, where it is a network or a device.
abbrev pub seen_namespace : Seen → Text
seen_namespace (network n) = n.namespace
seen_namespace (device d) = d.namespace
seen_namespace _ = []

abbrev pub is_device_event : Seen → Bool
is_device_event (network n) = true
is_device_event (device d) = true
is_device_event _ = false

module _ {W : Type 0} (c : Client W) (cfg : Config) (w : W) (triggers : TriggerRecorder) where
  own_request :
      (n : Network)
      → is_canonical c n w ≡ true
      → record { namespace = n.namespace; name = n.name }
        ≡ canonical_network_request c n.namespace w
  unfolding is_canonical canonical_network_request
  own_request n e = ap (λ t. record { namespace = n.namespace; name = t }) ((eq_iff _ _).0 e)

  abbrev AllCanonical : Text → List Request → Type 0
  AllCanonical namespace = All (λ r. r ≡ canonical_network_request c namespace w)

  All-network_requests :
      (n : Network)
      → AllCanonical n.namespace (network_requests c n w triggers).0
        × (is_nil (network_requests c n w triggers).0 ≡ false)
  unfolding network_requests enqueue_canonical_network
  All-network_requests n = elim (Bool-cases (is_canonical c n w)) [
    | inl e ↦ rw e ((own_request n e, (refl, tt)), refl)
    | inr e ↦ rw e ((refl, tt), refl)
  ]

  All-on :
      (seen : Seen)
      → cfg.enable_device_based_hosts ≡ true
      → AllCanonical (seen_namespace seen) (device_requests c cfg seen w triggers).0
        × (is_nil (device_requests c cfg seen w triggers).0 ≡ not (is_device_event seen))
  unfolding device_requests map_device_to_network
  All-on (network n) on = rw on (All-network_requests n)
  All-on (device d) on = rw on ((refl, tt), refl)
  All-on (router r) on = rw on (tt, refl)
  All-on (ingress i) on = rw on (tt, refl)
  All-on (http_route o) on = rw on (tt, refl)
  All-on (service e) on = rw on (tt, refl)
  All-on (config_map namespace name) on = rw on (tt, refl)

  All-device_requests :
      (seen : Seen)
      → All
          (λ r. r ≡ canonical_network_request c (seen_namespace seen) w)
          (device_requests c cfg seen w triggers).0
        × (is_nil (device_requests c cfg seen w triggers).0
            ≡ not (cfg.enable_device_based_hosts && is_device_event seen))
  unfolding device_requests
  All-device_requests seen = elim (Bool-cases cfg.enable_device_based_hosts) [
    | inl on ↦ let (all, some_) = All-on seen on in (all, some_ ∙ rw on refl)
    | inr off ↦ rw (off, device_requests) (tt, refl)
  ]

-- All that the two DNS controllers enqueue for an event is the request of their anchor.
module _ (cfg : Config) where
  All-own_anchor :
      (anchor namespace name : Text)
      → All (λ r. r ≡ anchor_request cfg anchor) (own_anchor cfg anchor namespace name)
  All-own_anchor anchor namespace name =
      elim (Bool-cases (namespace == cfg.dnsmasq_resources_namespace && name == anchor)) [
        | inl e ↦ rw e (
            rw
              (
                (eq_iff namespace cfg.dnsmasq_resources_namespace).0 (ground (arith, e)),
                (eq_iff name anchor).0 (ground (arith, e)),
              )
              (refl, tt))
        | inr e ↦ rw e tt
      ]

  when_on :
      (on : Bool) (anchor : Text) (requests : List Request)
      → All (λ r. r ≡ anchor_request cfg anchor) requests
      → All (λ r. r ≡ anchor_request cfg anchor) (if not on then [] else requests)
  when_on true anchor requests h = h
  when_on false anchor requests h = tt

  All-ingress_requests :
      (seen : Seen)
      → All (λ r. r ≡ anchor_request cfg ingress_anchor_name) (ingress_requests cfg seen)
  unfolding ingress_requests
  All-ingress_requests seen =
      when_on cfg.enable_ingress_based_dns_hosts ingress_anchor_name _ (from seen)
    where
      from :
          (seen : Seen)
          → All
              (λ r. r ≡ anchor_request cfg ingress_anchor_name)
              (elim seen [
                | config_map namespace name ↦ own_anchor cfg ingress_anchor_name namespace name
                | router r ↦ anchor_request cfg ingress_anchor_name ∷ []
                | ingress i ↦ anchor_request cfg ingress_anchor_name ∷ []
                | http_route o ↦ anchor_request cfg ingress_anchor_name ∷ []
                | _ ↦ []
              ])
      from (network n) = tt
      from (device d) = tt
      from (router r) = (refl, tt)
      from (ingress i) = (refl, tt)
      from (http_route o) = (refl, tt)
      from (service e) = tt
      from (config_map namespace name) = All-own_anchor ingress_anchor_name namespace name

  one_or_none :
      (b : Bool) (anchor : Text)
      → All (λ r. r ≡ anchor_request cfg anchor) (if b then anchor_request cfg anchor ∷ [] else [])
  one_or_none true anchor = (refl, tt)
  one_or_none false anchor = tt

  All-load_balancer_requests :
      (seen : Seen)
      → All (λ r. r ≡ anchor_request cfg lb_anchor_name) (load_balancer_requests cfg seen)
  unfolding load_balancer_requests
  All-load_balancer_requests seen =
      when_on cfg.enable_load_balancer_based_dns_hosts lb_anchor_name _ (from seen)
    where
      from :
          (seen : Seen)
          → All
              (λ r. r ≡ anchor_request cfg lb_anchor_name)
              (elim seen [
                | config_map namespace name ↦ own_anchor cfg lb_anchor_name namespace name
                | service e ↦ if lb_only e then anchor_request cfg lb_anchor_name ∷ [] else []
                | _ ↦ []
              ])
      from (network n) = tt
      from (device d) = tt
      from (router r) = tt
      from (ingress i) = tt
      from (http_route o) = tt
      from (service e) = one_or_none (lb_only e) lb_anchor_name
      from (config_map namespace name) = All-own_anchor lb_anchor_name namespace name

-- What an event enqueues. The device controller, where it is on, enqueues requests for every event of
-- a network or of a device and for no other, and all of them are the canonical request of the
-- object's namespace, although a network passes two watches; where it is off there are none. The
-- requests of the ingress controller, and those of the load balancer controller, are all that of its
-- anchor, also those that an event of a ConfigMap leads to.
pub All-requests :
    {W : Type 0} (c : Client W) (cfg : Config) (w : W) (triggers : TriggerRecorder) (seen : Seen)
    → All
        (λ r. r ≡ canonical_network_request c (seen_namespace seen) w)
        (device_requests c cfg seen w triggers).0
      × (is_nil (device_requests c cfg seen w triggers).0
          ≡ not (cfg.enable_device_based_hosts && is_device_event seen))
      × All (λ r. r ≡ anchor_request cfg ingress_anchor_name) (ingress_requests cfg seen)
      × All (λ r. r ≡ anchor_request cfg lb_anchor_name) (load_balancer_requests cfg seen)
All-requests c cfg w triggers seen = (
  (All-device_requests c cfg w triggers seen).0,
  (All-device_requests c cfg w triggers seen).1,
  All-ingress_requests cfg seen,
  All-load_balancer_requests cfg seen,
)
