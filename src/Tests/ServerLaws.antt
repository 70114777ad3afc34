-- ===== src/Tests/ServerLaws.antt =====
-- The laws that the API server of the examples obeys.
use mathlib.Core.List.{Mem}
use homelab_operator.Prelude.{
  ℤ, pos, negsuc, Text, true, false, Option, none, some, ◌≡◌, refl, ◌∙◌, sym, ap, subst, ◌⊎◌, inl,
  inr, Option-cases, Bool-cases, List, [], ◌∷◌, ◌==◌, eq_iff, eq_refl, codes, if◌then◌else◌, arith,
}
use homelab_operator.Prelude.Int.{int_eq}
use homelab_operator.Prelude.Lists.{any}
use homelab_operator.Prelude.Lookup.{mem-keep}
use homelab_operator.Prelude.Dict.{get}
use homelab_operator.Prelude.Keys.{is_some}
use homelab_operator.Api.{Condition}
use homelab_operator.Labels.{managed_by, managed_by_value, aggregate_key}
use homelab_operator.Cluster.{
  Gvk, Json, null, bool, int, str, arr, obj, Items, nil, cons, Fields, end, field, Object,
  not_found, Result, ok, err,
}
use homelab_operator.Cluster.Laws.Keys.{same_kind_path}
use homelab_operator.Cluster.Laws.{is_at, SameKey, Written, IsLawful, IsUp, KeepsLists}
use homelab_operator.Controller.Prune.{NameSet}
use homelab_operator.Controller.Status.Conditions.{SetsCondition, status_of}
use homelab_operator.Controller.Prune.Safety.{IsManaged, ListSelects}
use homelab_operator.Tests.Server.{
  json_eq, items_eq, fields_eq, spec_eq, find, found_or, store, set_condition, has_label,
  is_selected, api_server, Cluster,
}

int_eq_refl : (a : ℤ) → int_eq a a ≡ true
int_eq_refl (pos n) = ground arith
int_eq_refl (negsuc n) = ground arith

mutual
  unfolding json_eq items_eq fields_eq

  json_eq_refl : (a : Json) → json_eq a a ≡ true
  json_eq_refl null = refl
  json_eq_refl (bool true) = refl
  json_eq_refl (bool false) = refl
  json_eq_refl (int a) = int_eq_refl a
  json_eq_refl (str a) = eq_refl a
  json_eq_refl (arr a) = items_eq_refl a
  json_eq_refl (obj a) = fields_eq_refl a

  items_eq_refl : (a : Items) → items_eq a a ≡ true
  items_eq_refl nil = refl
  items_eq_refl (cons a as') = ground (arith, json_eq_refl a, items_eq_refl as')

  fields_eq_refl : (a : Fields) → fields_eq a a ≡ true
  fields_eq_refl end = refl
  fields_eq_refl (field k a as') = ground (arith, eq_refl k, json_eq_refl a, fields_eq_refl as')

spec_eq_refl : (v : Option Json) → spec_eq v v ≡ true
spec_eq_refl none = refl
spec_eq_refl (some a) = json_eq_refl a

is_at_key : (o y : Object) → is_at o.gvk o.namespace o.name y ≡ true → SameKey o y
is_at_key o y e = record {
  gvk = sym (same_kind_path o.gvk y.gvk (ground arith));
  namespace = sym ((eq_iff o.namespace y.namespace).0 (ground arith));
  name = sym ((eq_iff o.name y.name).0 (ground arith));
}

is_at-SameKey :
    (o y : Object) (gvk : Gvk) (namespace name : Text)
    → SameKey o y
    → is_at gvk namespace name y ≡ is_at gvk namespace name o
is_at-SameKey o y gvk namespace name k = rw (k.gvk, k.namespace, k.name) refl

pub is_at_self : (o : Object) → is_at o.gvk o.namespace o.name o ≡ true
is_at_self o = ground (
  arith,
  eq_refl o.gvk.kind,
  eq_refl o.gvk.group,
  eq_refl o.gvk.version,
  eq_refl o.namespace,
  eq_refl o.name,
)

store-Written :
    (o base : Object) (f : Object → Result Object) (w : Cluster) (r : Result Object)
    → f base ≡ r
    → (store o w r).0 ≡ ok tt
    → Written api_server o f (store o w r).1
unfolding store find
store-Written o base f w (err x) e h = absurd (cc)
store-Written o base f w (ok y) e h = elim (Bool-cases (is_at o.gvk o.namespace o.name y)) [
  | inl t ↦ rw t (record { before = base; after = y; mutated = e; got = rw t refl })
  | inr t ↦ absurd (cc (rw t at h))
]

find-store :
    (o : Object) (w : Cluster) (r : Result Object) (gvk : Gvk) (namespace name : Text)
    → is_at gvk namespace name o ≡ false
    → find gvk namespace name (store o w r).1 ≡ find gvk namespace name w
unfolding store find
find-store o w (err x) gvk namespace name e = refl
find-store o w (ok y) gvk namespace name e = elim (Bool-cases (is_at o.gvk o.namespace o.name y)) [
  | inl t ↦ rw (t, is_at-SameKey o y gvk namespace name (is_at_key o y t), e) refl
  | inr t ↦ rw t refl
]

find-delete :
    (o : Object) (w : Cluster) (gvk : Gvk) (namespace name : Text)
    → is_at gvk namespace name o ≡ false
    → find gvk namespace name (api_server.delete o w).1 ≡ find gvk namespace name w
unfolding find
find-delete o [] gvk namespace name e = refl
find-delete o (x ∷ w) gvk namespace name e =
    let rest = find-delete o w gvk namespace name e in
    elim (Bool-cases (is_at o.gvk o.namespace o.name x)) [
      | inl t ↦ rw (t, is_at-SameKey o x gvk namespace name (is_at_key o x t), e) rest
      | inr t ↦ rw (t, rest) refl
    ]

abbrev spec_of : Result Object → Option Json
spec_of (ok o) = o.spec
spec_of (err e) = none

pub api_server-IsLawful : IsLawful api_server
api_server-IsLawful = record {
  written = λ o f w h. store-Written o _ f w _ refl h;
  get-create_or_update = λ o f w gvk namespace name e. find-store o w _ gvk namespace name e;
  get-delete = λ o w gvk namespace name e. find-delete o w gvk namespace name e;
  get-config_map = λ cm f w gvk namespace name e. refl;
  get-device_status = λ d w gvk namespace name e. refl;
  get-network_status = λ n w gvk namespace name e. refl;
  get-router_status = λ r w gvk namespace name e. refl;
  nested_map_obj = λ o fs e. ap ok e;
  owner_keeps_spec = λ cm o o' e. ap spec_of (sym e);
  deep_equal_refl = spec_eq_refl;
}

find_answers :
    (w : Cluster) (gvk : Gvk) (namespace name : Text)
    → ((o : Object) × (find gvk namespace name w ≡ ok o))
      ⊎ (find gvk namespace name w ≡ err not_found)
unfolding find
find_answers [] gvk namespace name = inr refl
find_answers (o ∷ w) gvk namespace name = elim (Bool-cases (is_at gvk namespace name o)) [
  | inl t ↦ inl (o, rw t refl)
  | inr t ↦ rw t (find_answers w gvk namespace name)
]

found_or-SameKey :
    (o : Object) (w : Cluster) → SameKey o (found_or o (find o.gvk o.namespace o.name w))
unfolding find
found_or-SameKey o [] = record { gvk = refl; namespace = refl; name = refl }
found_or-SameKey o (x ∷ w) = elim (Bool-cases (is_at o.gvk o.namespace o.name x)) [
  | inl t ↦ rw t (is_at_key o x t)
  | inr t ↦ rw t (found_or-SameKey o w)
]

trans_key : {o x y : Object} → SameKey o x → SameKey x y → SameKey o y
trans_key k l = record {
  gvk = l.gvk ∙ k.gvk;
  namespace = l.namespace ∙ k.namespace;
  name = l.name ∙ k.name;
}

store_ok :
    (o y : Object) (w : Cluster) (r : Result Object)
    → r ≡ ok y
    → SameKey o y
    → (store o w r).0 ≡ ok tt
unfolding store
store_ok o y w r e k =
    rw (e, store, is_at-SameKey o y o.gvk o.namespace o.name k, is_at_self o) refl

pub api_server-IsUp : IsUp api_server
api_server-IsUp = record {
  get_answers = find_answers;
  lists_managed = λ w gvk namespace aggregate. (_, refl);
  lists_devices = λ w ns. (_, refl);
  lists_networks = λ w ns. (_, refl);
  lists_routers = λ w. (_, refl);
  lists_ingresses = λ w. (_, refl);
  lists_http_routes = λ w. (_, refl);
  lists_services = λ w. (_, refl);
  writes = λ o f h w.
      let (y, (e, k)) = h (found_or o (find o.gvk o.namespace o.name w)) in
      store_ok o y w _ e (trans_key (found_or-SameKey o w) k);
  writes_config_map = λ cm f w. (_, refl);
  deletes = λ o w. refl;
  owner_set = λ cm o. (o, (refl, record { gvk = refl; namespace = refl; name = refl }));
  nested_map_ok = λ o. (_, refl);
}

pub api_server-KeepsLists : KeepsLists api_server
api_server-KeepsLists = record {
  routers = λ cm f w. refl;
  ingresses = λ cm f w. refl;
  http_routes = λ cm f w. refl;
  services = λ cm f w. refl;
}

status_of-set_condition :
    (t : Text) (cs : List Condition) (x : Condition)
    → status_of t (set_condition cs x) ≡ (if x.type == t then some x.status else status_of t cs)
unfolding set_condition
status_of-set_condition t [] x = refl
status_of-set_condition t (y ∷ cs) x =
    ground (
      arith,
      status_of-set_condition t cs x,
      eq_iff y.type x.type,
      eq_iff y.type t,
      eq_iff x.type t,
    )

pub api_server-SetsCondition : SetsCondition api_server
api_server-SetsCondition = record { sets = status_of-set_condition }

get_of_has_label :
    (key value : Text) (o : Object) → has_label key value o ≡ true → get key o.labels ≡ some value
get_of_has_label key value o h = elim (Option-cases (get key o.labels)) [
  | inl e ↦ absurd (ground arith)
  | inr (v, e) ↦ e ∙ ap some ((eq_iff v value).0 (ground arith))
]

pub is_selected-IsManaged :
    (gvk : Gvk) (namespace aggregate : Text) (o : Object)
    → is_selected gvk namespace aggregate o ≡ true
    → IsManaged gvk namespace aggregate o
is_selected-IsManaged gvk namespace aggregate o h = record {
  of_kind = same_kind_path o.gvk gvk (ground arith);
  in_namespace = (eq_iff o.namespace namespace).0 (ground arith);
  by_operator = get_of_has_label managed_by managed_by_value o (ground arith);
  of_aggregate = get_of_has_label aggregate_key aggregate o (ground arith);
}

abbrev pub listed : Result (List Object) → List Object
listed (ok items) = items
listed (err e) = []

pub api_server-ListSelects : ListSelects api_server
api_server-ListSelects = record {
  selects = λ w gvk namespace aggregate items e item m.
      is_selected-IsManaged gvk namespace aggregate item
        ((mem-keep (is_selected gvk namespace aggregate) item w).0
          (subst (Mem item) (sym (ap listed e)) m)).1;
}

-- The names that the example of the prune keeps.
abbrev pub kept_names : NameSet
kept_names = (codes "device-based-lan", tt) ∷ []

-- The cluster holds an object with the kept name.
abbrev pub HoldsKept : Cluster → Type 0
HoldsKept w = any (λ o. o.name == codes "device-based-lan") w ≡ true

pub HoldsKept-delete :
    (item : Object) (w : Cluster)
    → is_some (get item.name kept_names) ≡ false
    → HoldsKept w
    → HoldsKept (api_server.delete item w).1
unfolding get
HoldsKept-delete item [] n h = h
HoldsKept-delete item (o ∷ w) n h = ground (
  arith,
  eq_iff item.name o.name,
  eq_iff o.name (codes "device-based-lan"),
  eq_iff (codes "device-based-lan") item.name,
  n,
  HoldsKept-delete item w n,
)
