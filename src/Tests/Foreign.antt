-- ===== src/Tests/Foreign.antt =====
-- Examples for the objects of other controllers: an API server whose lists leave out what is overwritten.
use mathlib.Core.Logic.Or
use mathlib.Core.List.{Mem, mem-cons, not-mem-nil}
use homelab_operator.Prelude.{
  Text, Bool, true, false, not, ◌≡◌, ◌≢◌, refl, sym, subst, ap, ◌∙◌, Option, some, none, [], ◌∷◌,
  ◌==◌, codes, arith,
}
use homelab_operator.Prelude.Lists.{keep}
use homelab_operator.Prelude.Lookup.{mem-keep}
use homelab_operator.Prelude.Dict.{Dict, get, put}
use homelab_operator.Labels.{managed, aggregate_key}
use homelab_operator.Cluster.{Client, Object, ok}
use homelab_operator.Cluster.Laws.{IsLawful, is_at}
use homelab_operator.Dnsmasq.Netip.{no_ipv6}
use homelab_operator.Dnsmasq.Unstructured.{dns_hosts_gvk}
use homelab_operator.Prelude.Sort.{sort_func}
use homelab_operator.Desired.DeviceBased.{
  build_device_based, normalize_all, add_devices, add_device, net_by_name, append_dns,
  device_based_network_name,
}
use homelab_operator.Controller.Dns.{ingress_based}
use homelab_operator.Controller.Device.{device_based, reconcile_namespace}
use homelab_operator.Controller.Device.Established.Loops.{VisitsAll}
use homelab_operator.Controller.Device.Foreign.{ListsStored, get-reconcile_namespace}
use homelab_operator.Tests.Data.{nas, lan, settings}
use homelab_operator.Tests.Server.{Cluster, api_server, find, is_selected}
use homelab_operator.Tests.ServerLaws.{
  api_server-IsLawful, is_selected-IsManaged, is_at_self, listed,
}

-- The first object under each key.
abbrev visible : Cluster → Cluster
visible [] = []
visible (o ∷ w) = o ∷ keep (λ x. not (is_at x.gvk x.namespace x.name o)) (visible w)

abbrev server : Client Cluster
server = record api_server {
  list_managed =
      λ w gvk namespace aggregate. ok (keep (is_selected gvk namespace aggregate) (visible w));
}

-- The object that is found under the key of a visible one passes each test that this one passes.
find-visible :
    (p : Object → Bool) (item x : Object) (w : Cluster)
    → Mem item (visible w)
    → p item ≡ true
    → find item.gvk item.namespace item.name w ≡ ok x
    → p x ≡ true
unfolding find
find-visible p item x [] m t e = absurd (not-mem-nil m)
find-visible p item x (o ∷ w) m t e =
    Or.elim (hlevel) (mem-cons.0 m)
      (λ q. let i : o ≡ x = cc (rw (q, is_at_self o) at e) in subst (λ y. p y ≡ true) (q ∙ i) t)
      λ later.
        let (there, far) =
          (mem-keep (λ y. not (is_at y.gvk y.namespace y.name o)) item (visible w)).0 later in
        let missed : is_at item.gvk item.namespace item.name o ≡ false = ground (arith, far) in
        find-visible p item x w there t (rw missed at e)

server-IsLawful : IsLawful server
server-IsLawful = record {
  written = λ o f w e.
      let k = api_server-IsLawful.written o f w e in
      record { before = k.before; after = k.after; mutated = k.mutated; got = k.got };
  get-create_or_update = api_server-IsLawful.get-create_or_update;
  get-delete = api_server-IsLawful.get-delete;
  get-config_map = api_server-IsLawful.get-config_map;
  get-device_status = api_server-IsLawful.get-device_status;
  get-network_status = api_server-IsLawful.get-network_status;
  get-router_status = api_server-IsLawful.get-router_status;
  nested_map_obj = api_server-IsLawful.nested_map_obj;
  owner_keeps_spec = api_server-IsLawful.owner_keeps_spec;
  deep_equal_refl = api_server-IsLawful.deep_equal_refl;
}

server-ListsStored : ListsStored server
server-ListsStored = record {
  stored = λ w gvk namespace aggregate items e item m x g.
      let (there, t) =
        (mem-keep (is_selected gvk namespace aggregate) item (visible w)).0
          (subst (Mem item) (sym (ap listed e)) m) in
      (is_selected-IsManaged gvk namespace aggregate x
        (find-visible (is_selected gvk namespace aggregate) item x w there t g)).of_aggregate;
}

abbrev in_order : (V : Type 0) → Dict V → Dict V
in_order V m = m

in_order-VisitsAll : VisitsAll in_order
in_order-VisitsAll = record { once = λ V m u. u; same = λ V m k. refl }

-- An object of the ingress controller, and a stale one of the device controller.
abbrev dns_object : Text → Text → Object
dns_object name aggregate = record {
  gvk = dns_hosts_gvk;
  namespace = codes "dnsmasq";
  name = name;
  labels = managed aggregate [];
  owners = [];
  spec = none;
}

abbrev of_ingress : Object
of_ingress = dns_object (codes "ingress-based") ingress_based

abbrev before : Cluster
before = of_ingress ∷ dns_object (codes "device-based-old") (codes "device-based") ∷ []

abbrev is_named : Option Text → Bool
is_named none = false
is_named (some v) = v == device_based

other_aggregate : get aggregate_key of_ingress.labels ≢ some device_based
unfolding get put managed ◌==◌
other_aggregate e = let q : false ≡ true = ap is_named e in absurd (cc q)

get-reconcile_namespace_example :
    server.get
      (reconcile_namespace server settings in_order no_ipv6 (codes "homelab") before).1
      dns_hosts_gvk
      (codes "dnsmasq")
      (codes "ingress-based")
    ≡ ok of_ingress
unfolding find get ◌==◌ build_device_based normalize_all add_devices sort_func add_device
    net_by_name put append_dns device_based_network_name
get-reconcile_namespace_example =
    get-reconcile_namespace server settings in_order no_ipv6 (codes "homelab") before (nas ∷ [])
      (lan ∷ []) of_ingress (codes "dnsmasq") (codes "ingress-based") server-IsLawful
      server-ListsStored in_order-VisitsAll refl refl other_aggregate refl refl
