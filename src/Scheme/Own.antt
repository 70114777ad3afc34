-- ===== src/Scheme/Own.antt =====
-- api/v1/groupversion_info.go and the functions init of api/v1 and of cmd/main.go, which fill the scheme.
-- The calls of k8s.io/apimachinery and of k8s.io/client-go are the fields of `Registry`. Every
-- function that is registered here returns nil as its error.
use homelab_operator.Prelude.{Text, Bool, false, ◌||◌, ◌≡◌, ap, ◌∙◌, List, [], ◌∷◌, codes, arith}
use homelab_operator.Prelude.Lists.{any}
use homelab_operator.Cluster.{Gvk}
use homelab_operator.Cluster.Laws.{same_kind}
use homelab_operator.Scheme.{
  Types, Registers, is_listed, external_gvks, add_external, recognizes-add_external,
}

pub record GroupVersion : Type 0 where
  pub group : Text
  pub version : Text

abbrev pub with_kind : GroupVersion → Text → Gvk
with_kind gv kind = record { group = gv.group; version = gv.version; kind = kind }

abbrev pub scheme_group_version : GroupVersion
scheme_group_version = record { group = codes "homelab.valdron.ca"; version = codes "v1" }

-- One of these types, by its name in Go.
abbrev pub is_type : GroupVersion → List Text → Gvk → Bool
is_type gv names h = any (λ name. same_kind (with_kind gv name) h) names

pub record Registry (S : Type 0) : Type 0 where
  pub types : Types S
  -- `AddKnownTypes`
  pub add_known_types : S → GroupVersion → List Text → S
  -- `metav1.AddToGroupVersion`
  pub add_to_group_version : S → GroupVersion → S
  -- `SchemeBuilder.AddToScheme`
  pub run_builder : List (S → S) → S → S
  -- `clientgoscheme.AddToScheme`
  pub add_client_go : S → S

-- A scheme recognizes what was added, and still what it did before; a builder calls its functions in
-- the order in which they were registered. `meta` and `client_go` tell the kinds that
-- AddToGroupVersion and client-go add.
pub record FillsScheme {S : Type 0} (t : Registry S) (meta : GroupVersion → Gvk → Bool)
    (client_go : Gvk → Bool) : Type 0 where
  pub registers : Registers t.types
  pub known_types :
      (s : S) (gv : GroupVersion) (names : List Text) (h : Gvk)
      → t.types.recognizes (t.add_known_types s gv names) h
        ≡ (is_type gv names h || t.types.recognizes s h)
  pub group_version :
      (s : S) (gv : GroupVersion) (h : Gvk)
      → t.types.recognizes (t.add_to_group_version s gv) h ≡ (meta gv h || t.types.recognizes s h)
  pub builder_empty : (s : S) → t.run_builder [] s ≡ s
  pub builder_step :
      (f : S → S) (fs : List (S → S)) (s : S) → t.run_builder (f ∷ fs) s ≡ t.run_builder fs (f s)
  pub client_go_kinds :
      (s : S) (h : Gvk)
      → t.types.recognizes (t.add_client_go s) h ≡ (client_go h || t.types.recognizes s h)

module _ {S : Type 0} (t : Registry S) where
  abbrev pub register_group_version : S → S
  register_group_version s = t.add_to_group_version s scheme_group_version

  abbrev pub register_device : S → S
  register_device s =
      t.add_known_types s scheme_group_version (codes "Device" ∷ codes "DeviceList" ∷ [])

  abbrev pub register_ingress_router : S → S
  register_ingress_router s =
      t.add_known_types s scheme_group_version
        (codes "IngressRouter" ∷ codes "IngressRouterList" ∷ [])

  abbrev pub register_network : S → S
  register_network s =
      t.add_known_types s scheme_group_version (codes "Network" ∷ codes "NetworkList" ∷ [])

  -- The functions init of a package run in the order of its files.
  abbrev pub scheme_builder : List (S → S)
  scheme_builder =
      register_group_version ∷ register_device ∷ register_ingress_router ∷ register_network ∷ []

  unfoldable pub add_to_scheme : S → S
  add_to_scheme s = t.run_builder scheme_builder s

  unfoldable pub init_scheme : S → S
  unfolding add_to_scheme
  init_scheme s = add_external t.types (add_to_scheme (t.add_client_go s))

-- The kinds of api/v1.
abbrev pub own_types : List Text
own_types =
    codes "Device"
    ∷ codes "DeviceList"
    ∷ codes "IngressRouter"
    ∷ codes "IngressRouterList"
    ∷ codes "Network"
    ∷ codes "NetworkList"
    ∷ []

abbrev is_own : Gvk → Text → Bool
is_own h name = same_kind (with_kind scheme_group_version name) h

-- Three pairs of tests, from the last to the first, are one list of them.
or_pairs :
    (a b c d e f x : Bool)
    → ((e || (f || false)) || ((c || (d || false)) || ((a || (b || false)) || x)))
      ≡ ((a || (b || (c || (d || (e || (f || false)))))) || x)
or_pairs a b c d e f x = ground arith

module _ {S : Type 0} (t : Registry S) (meta : GroupVersion → Gvk → Bool) (client_go : Gvk → Bool)
    (law : FillsScheme t meta client_go) where
  run_scheme_builder :
      (s : S)
      → add_to_scheme t s
        ≡ register_network t
            (register_ingress_router t (register_device t (register_group_version t s)))
  unfolding add_to_scheme
  run_scheme_builder s =
      law.builder_step _ _ s
      ∙ law.builder_step _ _ _
      ∙ law.builder_step _ _ _
      ∙ law.builder_step _ _ _
      ∙ law.builder_empty _

  recognizes-add_to_scheme :
      (s : S) (h : Gvk)
      → t.types.recognizes (add_to_scheme t s) h ≡ (
          is_type scheme_group_version own_types h
          || (meta scheme_group_version h || t.types.recognizes s h))
  recognizes-add_to_scheme s h =
      ap (λ u. t.types.recognizes u h) (run_scheme_builder s)
      ∙ law.known_types _ _ _ h
      ∙ ap (λ b. is_type scheme_group_version (codes "Network" ∷ codes "NetworkList" ∷ []) h || b)
          (law.known_types _ _ _ h
            ∙ ap
                (λ b.
                  is_type scheme_group_version
                    (codes "IngressRouter" ∷ codes "IngressRouterList" ∷ []) h
                  || b)
                (law.known_types _ _ _ h
                  ∙ ap
                      (λ b.
                        is_type scheme_group_version (codes "Device" ∷ codes "DeviceList" ∷ []) h
                        || b)
                      (law.group_version _ _ h)))
      ∙ or_pairs (is_own h (codes "Device")) (is_own h (codes "DeviceList"))
          (is_own h (codes "IngressRouter")) (is_own h (codes "IngressRouterList"))
          (is_own h (codes "Network")) (is_own h (codes "NetworkList"))
          (meta scheme_group_version h || t.types.recognizes s h)

-- The scheme that the process starts with recognizes these kinds and no others: the six types of api/v1
-- in the group homelab.valdron.ca and version v1, the kinds of `AddExternal` with their lists, the
-- kinds that `AddToGroupVersion` adds for that group and version, those of client-go, and what the
-- scheme recognized when it was made. The calls of apimachinery add what they document.
pub recognizes-init_scheme :
    {S : Type 0} (t : Registry S) (meta : GroupVersion → Gvk → Bool) (client_go : Gvk → Bool)
    → FillsScheme t meta client_go
    → (s : S) (h : Gvk)
    → t.types.recognizes (init_scheme t s) h ≡ (
        is_listed h external_gvks
        || (is_type scheme_group_version own_types h
            || (meta scheme_group_version h || (client_go h || t.types.recognizes s h))))
unfolding init_scheme
recognizes-init_scheme t meta client_go law s h =
    recognizes-add_external t.types law.registers _ h
    ∙ ap (λ b. is_listed h external_gvks || b)
        (recognizes-add_to_scheme t meta client_go law _ h
          ∙ ap (λ b. is_type scheme_group_version own_types h || (meta scheme_group_version h || b))
              (law.client_go_kinds s h))
