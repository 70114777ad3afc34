-- ===== src/Controller/Watch.antt =====
-- internal/controller: which watch events lead to which request. The type assertions of the source
-- hold for the objects of a typed watch, so the functions here take a network, a device or a service.
pub mod Events
use mathlib.Core.List.{Mem, mem-cons_self, not-mem-nil}
use homelab_operator.Prelude.{
  Text, Bool, true, false, Ordering, ◌≡◌, ◌≢◌, sym, subst, ◌↔◌, List, [], ◌∷◌, ◌==◌, eq_iff, codes,
  compare, compare-IsOrder, path_of_compare, arith,
}
use homelab_operator.Prelude.Sort.{
  sort_func, IsSorted, IsOrder, compare_on-IsOrder, heads_le, sort_func-IsSorted, mem-sort_func,
}
use homelab_operator.Api.{Device, Network, Service, service_type_load_balancer}
use homelab_operator.Cluster.{Client, Result, ok, err}
use homelab_operator.Desired.DeviceBased.{by_network_name}
use homelab_operator.Controller.Trigger.{TriggerRecorder, note}

-- `reconcile.Request`
pub record Request : Type 0 where
  pub namespace : Text
  pub name : Text

abbrev head_name : List Network → Text
head_name [] = codes "default"
head_name (n ∷ ns) = n.name

abbrev canonical_name : Result (List Network) → Text
canonical_name (err e) = codes "default"
canonical_name (ok nets) = head_name (sort_func by_network_name nets)

module _ {W : Type 0} (c : Client W) where
  -- The request that stands for all events of a namespace.
  unfoldable pub canonical_network_request : Text → W → Request
  canonical_network_request namespace w = record {
    namespace = namespace;
    name = canonical_name (c.list_networks w namespace);
  }

  -- The predicate of the networks that the controller is for.
  unfoldable pub is_canonical : Network → W → Bool
  is_canonical n w = n.name == (canonical_network_request n.namespace w).name

  unfoldable pub enqueue_canonical_network :
      Network → W → TriggerRecorder → List Request × TriggerRecorder
  enqueue_canonical_network n w triggers = (
    canonical_network_request n.namespace w ∷ [],
    note n.namespace (codes "Network") n.name triggers,
  )

  unfoldable pub map_device_to_network :
      Device → W → TriggerRecorder → List Request × TriggerRecorder
  map_device_to_network d w triggers = (
    canonical_network_request d.namespace w ∷ [],
    note d.namespace (codes "Device") d.name triggers,
  )

-- The events of a watch on services.
pub data ServiceEvent : Type 0 where
  created : Service → ServiceEvent
  updated : Service → Service → ServiceEvent
  deleted : Service → ServiceEvent
  generic : ServiceEvent

-- `lbOnly`: an update counts by the new object alone.
unfoldable pub lb_only : ServiceEvent → Bool
lb_only (created s) = s.type == service_type_load_balancer
lb_only (updated old new) = new.type == service_type_load_balancer
lb_only (deleted s) = s.type == service_type_load_balancer
lb_only generic = false

by_network_name-IsOrder : IsOrder by_network_name
by_network_name-IsOrder = compare_on-IsOrder (λ (n : Network). n.name) compare-IsOrder

-- In a sorted list, the networks with the name of the head are those that no name is below.
head_name_iff :
    (l : List Network) (n : Network)
    → IsSorted by_network_name l
    → Mem n l
    → (n.name == head_name l) ≡ true
      ↔ ((m : Network) → Mem m l → compare n.name m.name ≢ Ordering.gt)
head_name_iff [] n s i = absurd (not-mem-nil i)
head_name_iff (a ∷ l) n s i = (
  (λ e m j.
      subst (λ t. compare t m.name ≢ Ordering.gt) (sym ((eq_iff n.name a.name).0 e))
        (heads_le by_network_name-IsOrder s j)),
  (λ below. (eq_iff n.name a.name).1 (
      path_of_compare n.name a.name (
        ground (
          arith,
          below a mem-cons_self,
          heads_le by_network_name-IsOrder s i,
          compare-IsOrder.flips a.name n.name,
        )))),
)

-- Of the networks that the API server lists for a namespace, those that pass the predicate of the
-- controller are those with no smaller name in the list.
pub is_canonical_iff :
    {W : Type 0} (c : Client W) (w : W) (nets : List Network) (n : Network)
    → c.list_networks w n.namespace ≡ ok nets
    → Mem n nets
    → (is_canonical c n w ≡ true)
      ↔ ((m : Network) → Mem m nets → compare n.name m.name ≢ Ordering.gt)
unfolding is_canonical canonical_network_request
is_canonical_iff c w nets n e i =
    let sorted = sort_func by_network_name nets in
    let there = λ (m : Network). mem-sort_func by_network_name m nets in
    let iff =
      head_name_iff sorted n (sort_func-IsSorted by_network_name-IsOrder nets) ((there n).1 i) in
    rw e ((λ t m j. iff.0 t m ((there m).1 j)), (λ b. iff.1 (λ m j. b m ((there m).0 j))))
