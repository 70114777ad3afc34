-- ===== src/Api/DeepCopy/Made.antt =====
-- What it means that a copy was made: the heap grew, and the copy reads as wanted on each heap that
-- agrees at the addresses from `lo` on, so that it leads to none below `lo`.
use homelab_operator.Prelude.{
  ℕ, ◌≤◌, ◌<◌, ◌≡◌, refl, sym, ap, ap₂, ◌∙◌, none, some, List, [], ◌∷◌, map, arith,
}
use homelab_operator.Api.{Condition}
use homelab_operator.Api.Memory.{Ptr, MetaStruct, ListMetaStruct, Heap, set_at}
use homelab_operator.Api.Memory.Agree.{Agrees, Agrees-trans, Agrees-narrow, Extends, Extends-refl}
use homelab_operator.Api.Memory.View.{read, view_meta, view_list_meta, MetaWithin, ListMetaWithin}
use homelab_operator.Api.DeepCopy.{Foreign, copy_texts, copy_time_ptr, copy_conditions}

-- What is written at a free address changes nothing below it.
pub set_at-below : {A : Type 0} (f : ℕ → A) (p : ℕ) (a : A) (q : ℕ) → q < p → f q ≡ set_at f p a q
set_at-below f p a q b = ground arith

pub set_at_same : {A : Type 0} (f : ℕ → A) (p : ℕ) (a : A) → set_at f p a p ≡ a
set_at_same f p a = ground arith

map_same : {A : Type 0} (f : A → A) → ((a : A) → f a ≡ a) → (l : List A) → map f l ≡ l
map_same f e [] = refl
map_same f e (x ∷ l) = ap₂ ◌∷◌ (e x) (map_same f e l)

module _ {T : Type 0} where
  abbrev pub Reads : {E V : Type 0} → ℕ → (Heap T → E → V) → V → E → Heap T → Type 0
  Reads lo view v y h = (g : Heap T) → Agrees lo h.next h g → view g y ≡ v

  pub record Made {E V : Type 0} (lo : ℕ) (view : Heap T → E → V) (h : Heap T) (v : V)
      (r : E × Heap T) : Type 0 where
    pub extends : Extends h r.1
    pub reads : Reads lo view v r.0 r.1

  -- A struct that was copied earlier reads the same after more copies.
  pub Reads-Extends :
      {E V : Type 0} {lo : ℕ} (view : Heap T → E → V) {v : V} {y : E} {h h' : Heap T}
      → Extends h h'
      → Reads lo view v y h
      → Reads lo view v y h'
  Reads-Extends view x r g a = r g (
      Agrees-trans (Agrees-narrow (omega arith) (omega arith) x.keeps)
        (Agrees-narrow (omega arith) x.grows a))

  pub Made-copy_texts :
      (lo : ℕ) (h : Heap T) (p : Ptr)
      → lo ≤ h.next
      → Made lo (λ g. read g.texts) h (read h.texts p) (copy_texts p h)
  unfolding copy_texts
  Made-copy_texts lo h none x = record { extends = Extends-refl h; reads = λ g a. refl }
  Made-copy_texts lo h (some p) x = record {
    extends = record {
      grows = omega arith;
      keeps = λ q a b. record {
        maps = refl;
        counts = refl;
        texts = set_at-below h.texts h.next (h.texts p) q b;
        times = refl;
        conditions = refl;
        items = λ k. refl;
      };
    };
    reads = λ g a.
        ap some (sym (a h.next x (omega arith)).texts ∙ set_at_same h.texts h.next (h.texts p));
  }

  -- The copies of k8s.io/apimachinery read as what is copied, and lead to new memory alone.
  pub record CopiesDeeply (k : Foreign T) : Type 0 where
    pub meta :
        (lo : ℕ) (h : Heap T) (m : MetaStruct)
        → lo ≤ h.next
        → MetaWithin h m
        → Made lo view_meta h (view_meta h m) (k.copy_meta m h)
    pub list_meta :
        (lo : ℕ) (h : Heap T) (m : ListMetaStruct)
        → lo ≤ h.next
        → ListMetaWithin h m
        → Made lo view_list_meta h (view_list_meta h m) (k.copy_list_meta m h)
    pub condition : (c : Condition) → k.copy_condition c ≡ c
    pub time : (t : ℕ) → k.copy_time t ≡ t

  module _ (k : Foreign T) (law : CopiesDeeply k) where
    pub Made-copy_time_ptr :
        (lo : ℕ) (h : Heap T) (p : Ptr)
        → lo ≤ h.next
        → Made lo (λ g. read g.times) h (read h.times p) (copy_time_ptr k p h)
    unfolding copy_time_ptr
    Made-copy_time_ptr lo h none x = record { extends = Extends-refl h; reads = λ g a. refl }
    Made-copy_time_ptr lo h (some p) x = record {
      extends = record {
        grows = omega arith;
        keeps = λ q a b. record {
          texts = refl;
          maps = refl;
          counts = refl;
          times = set_at-below h.times h.next (k.copy_time (h.times p)) q b;
          conditions = refl;
          items = λ k. refl;
        };
      };
      reads = λ g a. ap some (
          sym (a h.next x (omega arith)).times
          ∙ set_at_same h.times h.next (k.copy_time (h.times p))
          ∙ law.time (h.times p));
    }

    pub Made-copy_conditions :
        (lo : ℕ) (h : Heap T) (p : Ptr)
        → lo ≤ h.next
        → Made lo (λ g. read g.conditions) h (read h.conditions p) (copy_conditions k p h)
    unfolding copy_conditions
    Made-copy_conditions lo h none x = record { extends = Extends-refl h; reads = λ g a. refl }
    Made-copy_conditions lo h (some p) x = record {
      extends = record {
        grows = omega arith;
        keeps = λ q a b. record {
          texts = refl;
          maps = refl;
          counts = refl;
          times = refl;
          conditions = set_at-below h.conditions h.next (map k.copy_condition (h.conditions p)) q b;
          items = λ k. refl;
        };
      };
      reads = λ g a. ap some (
          sym (a h.next x (omega arith)).conditions
          ∙ set_at_same h.conditions h.next (map k.copy_condition (h.conditions p))
          ∙ map_same k.copy_condition law.condition (h.conditions p));
    }
