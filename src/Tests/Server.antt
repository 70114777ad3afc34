-- ===== src/Tests/Server.antt =====
-- An API server that keeps a list of objects.
use homelab_operator.Prelude.{
  Text, Bool, true, false, not, ◌&&◌, Option, none, some, List, [], ◌∷◌, ◌==◌, codes, if◌then◌else◌,
}
use homelab_operator.Prelude.Int.{int_eq}
use homelab_operator.Prelude.Lists.{keep}
use homelab_operator.Prelude.Dict.{get}
use homelab_operator.Api.{Condition}
use homelab_operator.Labels.{managed_by, managed_by_value, aggregate_key}
use homelab_operator.Cluster.{
  Gvk, Json, null, bool, int, str, arr, obj, Items, nil, cons, Fields, end, field, Object,
  not_found, other, Result, ok, err, Client,
}
use homelab_operator.Cluster.Laws.{same_kind, is_at}
use homelab_operator.Tests.Data.{nas, lan, web, traefik, wiki}

-- The cluster is the list of its objects; the first that stands under a key counts.
abbrev pub Cluster : Type 0
Cluster = List Object

-- reflect.DeepEqual on the values of a `map[string]any`
unfoldable mutual
  pub json_eq : Json → Json → Bool
  json_eq null null = true
  json_eq (bool a) (bool b) = if a then b else not b
  json_eq (int a) (int b) = int_eq a b
  json_eq (str a) (str b) = a == b
  json_eq (arr a) (arr b) = items_eq a b
  json_eq (obj a) (obj b) = fields_eq a b
  json_eq _ _ = false

  pub items_eq : Items → Items → Bool
  items_eq nil nil = true
  items_eq (cons a as') (cons b bs) = json_eq a b && items_eq as' bs
  items_eq _ _ = false

  pub fields_eq : Fields → Fields → Bool
  fields_eq end end = true
  fields_eq (field j a as') (field k b bs) = j == k && (json_eq a b && fields_eq as' bs)
  fields_eq _ _ = false

abbrev pub spec_eq : Option Json → Option Json → Bool
spec_eq none none = true
spec_eq (some a) (some b) = json_eq a b
spec_eq _ _ = false

unfoldable pub find : Gvk → Text → Text → Cluster → Result Object
find gvk namespace name [] = err not_found
find gvk namespace name (o ∷ w) =
    let rest = find gvk namespace name w in if is_at gvk namespace name o then ok o else rest

abbrev pub found_or : Object → Result Object → Object
found_or o (ok x) = x
found_or o (err e) = o

-- A mutation that changes the key is refused.
unfoldable pub store : Object → Cluster → Result Object → Result (Unit {0}) × Cluster
store o w (ok y) = if is_at o.gvk o.namespace o.name y then (ok tt, y ∷ w) else (err (other []), w)
store o w (err e) = (err e, w)

unfoldable pub set_condition : List Condition → Condition → List Condition
set_condition [] c = c ∷ []
set_condition (x ∷ cs) c =
    let rest = set_condition cs c in if x.type == c.type then c ∷ cs else x ∷ rest

abbrev pub has_label : Text → Text → Object → Bool
has_label key value o = elim (get key o.labels) [ none ↦ false | some v ↦ v == value ]

abbrev pub is_selected : Gvk → Text → Text → Object → Bool
is_selected gvk namespace aggregate o =
    same_kind o.gvk gvk
    && (o.namespace == namespace
        && (has_label managed_by managed_by_value o && has_label aggregate_key aggregate o))

abbrev pub api_server : Client Cluster
api_server = record {
  get = λ w gvk namespace name. find gvk namespace name w;
  list_managed = λ w gvk namespace aggregate. ok (keep (is_selected gvk namespace aggregate) w);
  list_devices = λ w ns. ok (nas ∷ []);
  list_networks = λ w ns. ok (lan ∷ []);
  list_routers = λ w. ok (traefik ∷ []);
  list_ingresses = λ w. ok (wiki ∷ []);
  list_http_routes = λ w. ok [];
  list_services = λ w. ok (web ∷ []);
  create_or_update = λ o f w. store o w (f (found_or o (find o.gvk o.namespace o.name w)));
  create_or_update_config_map = λ cm f w. (ok (f cm), w);
  delete = λ o w. (ok tt, keep (λ x. not (is_at o.gvk o.namespace o.name x)) w);
  update_device_status = λ d w. (ok tt, w);
  update_network_status = λ n w. (ok tt, w);
  update_router_status = λ r w. (ok tt, w);
  now = λ w. 0;
  set_status_condition = set_condition;
  deep_equal = spec_eq;
  set_owner_reference = λ cm o. ok o;
  error_text = λ e. codes "error";
  show_length = λ n. n ∷ [];
  show_value = λ v. [];
  nested_map = λ o. ok o.spec;
  nested_slice = λ o k. none;
  nested_string_slice = λ o k. none;
}
