-- ===== src/Api/DeepCopy/Items.antt =====
-- The copies of the items of a list, and of a list.
use homelab_operator.Prelude.{
  ℕ, suc, ◌≤◌, ◌<◌, ◌≡◌, refl, sym, ap, ap₂, ◌∙◌, some, none, List, [], ◌∷◌, map, arith, ◌⊎◌, inl,
  inr,
}
use homelab_operator.Prelude.Lists.{All}
use homelab_operator.Api.Memory.{
  Ptr, Kind, device, network, ingress_router, ResourceStruct, Heap, ListStruct, set_items,
}
use homelab_operator.Api.Memory.Agree.{
  SameAt, Agrees-trans, Agrees-narrow, Extends, Extends-refl, Extends-trans,
}
use homelab_operator.Api.Memory.View.{
  view_resource, view_items, view_list_meta, view_list, ResourceWithin, ItemsWithin, ListWithin,
}
use homelab_operator.Api.Memory.View.Keeps.{
  view_each-Agrees, view_items-Agrees, ItemsWithin-Extends, All-ResourceWithin-Extends,
}
use homelab_operator.Api.DeepCopy.{
  Foreign, resource_deep_copy_into, copy_each, items_deep_copy, list_deep_copy_into,
}
use homelab_operator.Api.DeepCopy.Made.{CopiesDeeply, Made, Reads-Extends, set_at_same}
use homelab_operator.Api.DeepCopy.Resource.{Made-resource_deep_copy_into}

module _ {T : Type 0} where
  set_items-other :
      (j : Kind) (p : ℕ) (l : List (ResourceStruct T j)) (h : Heap T) (q : ℕ)
      → (q < p) ⊎ (p < q)
      → (i : Kind) → h.items i q ≡ set_items j p l h i q
  set_items-other device p l h q b device = ground arith
  set_items-other network p l h q b network = ground arith
  set_items-other ingress_router p l h q b ingress_router = ground arith
  set_items-other device p l h q b network = refl
  set_items-other device p l h q b ingress_router = refl
  set_items-other network p l h q b device = refl
  set_items-other network p l h q b ingress_router = refl
  set_items-other ingress_router p l h q b device = refl
  set_items-other ingress_router p l h q b network = refl

  set_items_same :
      (j : Kind) (p : ℕ) (l : List (ResourceStruct T j)) (h : Heap T) → set_items j p l h j p ≡ l
  set_items_same device p l h = set_at_same (h.items device) p l
  set_items_same network p l h = set_at_same (h.items network) p l
  set_items_same ingress_router p l h = set_at_same (h.items ingress_router) p l

  -- An address other than that of the items holds what it held.
  with_items-SameAt :
      (j : Kind) (p : ℕ) (l : List (ResourceStruct T j)) (h : Heap T) (q : ℕ)
      → (q < p) ⊎ (p < q)
      → SameAt h (record h { items = set_items j p l h }) q
  with_items-SameAt j p l h q b = record {
    texts = refl;
    maps = refl;
    counts = refl;
    times = refl;
    conditions = refl;
    items = set_items-other j p l h q b;
  }

module _ {T : Type 0} (k : Foreign T) (law : CopiesDeeply k) where
  Made-copy_each :
      (j : Kind) (lo : ℕ) (h : Heap T) (l : List (ResourceStruct T j))
      → lo ≤ h.next
      → All (ResourceWithin j h) l
      → Made lo (λ g. map (view_resource j g)) h (map (view_resource j h) l) (copy_each k j l h)
  unfolding copy_each
  Made-copy_each j lo h [] x w = record { extends = Extends-refl h; reads = λ g a. refl }
  Made-copy_each j lo h (r ∷ l) x (w, ws) =
      let h1 = (resource_deep_copy_into k j r h).1 in
      let m = Made-resource_deep_copy_into k law lo j h r x w in
      let n =
        Made-copy_each j lo h1 l (omega (arith, x, m.extends.grows))
          (All-ResourceWithin-Extends j l m.extends ws) in
      record {
        extends = Extends-trans m.extends n.extends;
        reads = λ g a.
            ap₂ ◌∷◌ (Reads-Extends (view_resource j) n.extends m.reads g a)
              (n.reads g a ∙ view_each-Agrees j l ws m.extends.keeps);
      }

  Made-items_deep_copy :
      (j : Kind) (lo : ℕ) (h : Heap T) (p : Ptr)
      → lo ≤ h.next
      → ItemsWithin j h p
      → Made lo (view_items j) h (view_items j h p) (items_deep_copy k j p h)
  unfolding items_deep_copy view_items ItemsWithin
  Made-items_deep_copy j lo h none x w = record { extends = Extends-refl h; reads = λ g a. refl }
  Made-items_deep_copy j lo h (some p) x (b, ws) =
      let h1 : Heap T = record h { next = suc h.next } in
      let l = h.items j p in
      let reserved : Extends h h1 = record {
        grows = omega arith;
        keeps = λ q y z. record {
          texts = refl;
          maps = refl;
          counts = refl;
          times = refl;
          conditions = refl;
          items = λ i. refl;
        };
      } in
      let m =
        Made-copy_each j (suc h.next) h1 l (omega arith)
          (All-ResourceWithin-Extends j l reserved ws) in
      let r = copy_each k j l h1 in
      record {
        extends = record {
          grows = omega (arith, m.extends.grows);
          keeps =
              Agrees-trans (Extends-trans reserved m.extends).keeps
                λ q y z. with_items-SameAt j h.next r.0 r.1 q (inl z);
        };
        reads = λ g a.
            ap (λ n. some (map (view_resource j g) n))
              (sym ((a h.next x (omega (arith, m.extends.grows))).items j)
                ∙ set_items_same j h.next r.0 r.1)
            ∙ ap some (
                m.reads g (
                  Agrees-trans
                    (λ q y z. with_items-SameAt j h.next r.0 r.1 q (inr (omega (arith, y))))
                    (Agrees-narrow (omega (arith, x)) (omega arith) a))
                ∙ view_each-Agrees j l ws reserved.keeps);
      }

  pub Made-list_deep_copy_into :
      (j : Kind) (h : Heap T) (l : ListStruct T)
      → ListWithin j h l
      → Made h.next (view_list j) h (view_list j h l) (list_deep_copy_into k j l h)
  unfolding list_deep_copy_into view_list ListWithin
  Made-list_deep_copy_into j h l (meta, items) =
      let h1 = (k.copy_list_meta l.list_meta h).1 in
      let m = law.list_meta h.next h l.list_meta (omega arith) meta in
      let n =
        Made-items_deep_copy j h.next h1 l.items m.extends.grows
          (ItemsWithin-Extends j l.items m.extends items) in
      record {
        extends = Extends-trans m.extends n.extends;
        reads = λ g a.
            ap₂ (λ u v. (l.type_meta, u, v)) (Reads-Extends view_list_meta n.extends m.reads g a)
              (n.reads g a ∙ view_items-Agrees j l.items items m.extends.keeps);
      }
