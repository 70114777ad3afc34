-- ===== src/Tests/Copies.antt =====
-- The copies of k8s.io/apimachinery that the examples use: each map, slice and pointer gets a new place.
use homelab_operator.Prelude.{
  ℕ, ◌≤◌, refl, sym, ap, ap₂, ◌∙◌, Text, Option, none, some, List, arith,
}
use homelab_operator.Prelude.Dict.{Dict}
use homelab_operator.Api.Memory.{
  Ptr, MetaStruct, ListMetaStruct, Heap, Mem, set_at, pure, ◌>>=◌, reserve,
}
use homelab_operator.Api.Memory.Agree.{Extends-refl, Extends-trans}
use homelab_operator.Api.Memory.View.{read, view_meta, view_list_meta, MetaWithin, ListMetaWithin}
use homelab_operator.Api.Memory.View.Keeps.{read_eq}
use homelab_operator.Api.DeepCopy.{Foreign, copy_texts}
use homelab_operator.Api.DeepCopy.Made.{
  CopiesDeeply, Made, Reads-Extends, Made-copy_texts, set_at-below, set_at_same,
}

module _ {T : Type 0} where
  unfoldable copy_map : Ptr → Mem T Ptr
  copy_map none = pure none
  copy_map (some p) = do q ← reserve; λ h. (some q, record h { maps = set_at h.maps q (h.maps p) })

  unfoldable copy_count : Ptr → Mem T Ptr
  copy_count none = pure none
  copy_count (some p) = do
    q ← reserve
    λ h. (some q, record h { counts = set_at h.counts q (h.counts p) })

  Made-copy_map :
      (lo : ℕ) (h : Heap T) (p : Ptr)
      → lo ≤ h.next
      → Made lo (λ g. read g.maps) h (read h.maps p) (copy_map p h)
  unfolding copy_map
  Made-copy_map lo h none x = record { extends = Extends-refl h; reads = λ g a. refl }
  Made-copy_map lo h (some p) x = record {
    extends = record {
      grows = omega arith;
      keeps = λ q a b. record {
        texts = refl;
        maps = set_at-below h.maps h.next (h.maps p) q b;
        counts = refl;
        times = refl;
        conditions = refl;
        items = λ k. refl;
      };
    };
    reads =
        λ g a. ap some (sym (a h.next x (omega arith)).maps ∙ set_at_same h.maps h.next (h.maps p));
  }

  Made-copy_count :
      (lo : ℕ) (h : Heap T) (p : Ptr)
      → lo ≤ h.next
      → Made lo (λ g. read g.counts) h (read h.counts p) (copy_count p h)
  unfolding copy_count
  Made-copy_count lo h none x = record { extends = Extends-refl h; reads = λ g a. refl }
  Made-copy_count lo h (some p) x = record {
    extends = record {
      grows = omega arith;
      keeps = λ q a b. record {
        texts = refl;
        maps = refl;
        counts = set_at-below h.counts h.next (h.counts p) q b;
        times = refl;
        conditions = refl;
        items = λ k. refl;
      };
    };
    reads = λ g a.
        ap some (sym (a h.next x (omega arith)).counts ∙ set_at_same h.counts h.next (h.counts p));
  }

  unfoldable pub copy_meta : MetaStruct → Mem T MetaStruct
  unfolding copy_map copy_texts
  copy_meta m = do
    labels ← copy_map m.labels
    annotations ← copy_map m.annotations
    finalizers ← copy_texts m.finalizers
    pure (record m { labels = labels; annotations = annotations; finalizers = finalizers })

  unfoldable pub copy_list_meta : ListMetaStruct → Mem T ListMetaStruct
  unfolding copy_count
  copy_list_meta m = do
    count ← copy_count m.remaining_item_count
    pure (record m { remaining_item_count = count })

  Made-copy_meta :
      (lo : ℕ) (h : Heap T) (m : MetaStruct)
      → lo ≤ h.next
      → MetaWithin h m
      → Made lo view_meta h (view_meta h m) (copy_meta m h)
  unfolding copy_meta view_meta MetaWithin
  Made-copy_meta lo h m x (labels, annotations, finalizers) =
      let h1 = (copy_map m.labels h).1 in
      let h2 = (copy_map m.annotations h1).1 in
      let a = Made-copy_map lo h m.labels x in
      let x1 : lo ≤ h1.next = omega (arith, x, a.extends.grows) in
      let b = Made-copy_map lo h1 m.annotations x1 in
      let d = Made-copy_texts lo h2 m.finalizers (omega (arith, x1, b.extends.grows)) in
      let upto = Extends-trans a.extends b.extends in
      record {
        extends = Extends-trans upto d.extends;
        reads = λ g i.
            ap₂
              (λ u (v : Option (Dict Text) × Option (List Text)).
                (record m { labels = none; annotations = none; finalizers = none }, u, v.0, v.1))
              (Reads-Extends (λ f. read f.maps) (Extends-trans b.extends d.extends) a.reads g i)
              (ap₂ (λ u v. (u, v))
                (Reads-Extends (λ f. read f.maps) d.extends b.reads g i
                  ∙ read_eq h.maps h1.maps h.next m.annotations
                      (λ q y. (a.extends.keeps q (omega arith) y).maps) annotations)
                (d.reads g i
                  ∙ read_eq h.texts h2.texts h.next m.finalizers
                      (λ q y. (upto.keeps q (omega arith) y).texts) finalizers));
      }

  Made-copy_list_meta :
      (lo : ℕ) (h : Heap T) (m : ListMetaStruct)
      → lo ≤ h.next
      → ListMetaWithin h m
      → Made lo view_list_meta h (view_list_meta h m) (copy_list_meta m h)
  unfolding copy_list_meta view_list_meta
  Made-copy_list_meta lo h m x w =
      let a = Made-copy_count lo h m.remaining_item_count x in
      record {
        extends = a.extends;
        reads = λ g i. ap (λ u. (record m { remaining_item_count = none }, u)) (a.reads g i);
      }

abbrev pub copies : Foreign Text
copies = record {
  copy_meta = copy_meta;
  copy_list_meta = copy_list_meta;
  copy_condition = λ c. c;
  copy_time = λ t. t;
}

pub copies-CopiesDeeply : CopiesDeeply copies
copies-CopiesDeeply = record {
  meta = Made-copy_meta;
  list_meta = Made-copy_list_meta;
  condition = λ c. refl;
  time = λ t. refl;
}
