-- ===== src/Ensure/Succeeds.antt =====
-- The plan and the mutation of an object give a result where the API server answers.
use homelab_operator.Prelude.{Text, Option, none, some, ◌≡◌, refl, ◌∙◌, inl, inr}
use homelab_operator.Prelude.Dict.{Dict}
use homelab_operator.Cluster.{Client, Object, ConfigMap, Json, ok}
use homelab_operator.Cluster.Laws.{IsUp, SameKey}
use homelab_operator.Ensure.{
  ApplyPlan, plan_from, compare_specs, plan_unstructured, mutate_object, copy_labels,
}

module _ {W : Type 0} (c : Client W) (up : IsUp c) where
  compare_specs-ok : (o current : Object) → (p : ApplyPlan) × (compare_specs c o current ≡ ok p)
  unfolding compare_specs
  compare_specs-ok o current =
      let (v, e) = up.nested_map_ok o in
      let (v', e') = up.nested_map_ok current in rw (e, e', compare_specs) (_, refl)

  pub plan_unstructured-ok :
      (o : Object) (w : W) → (p : ApplyPlan) × (plan_unstructured c o w ≡ ok p)
  unfolding plan_unstructured plan_from
  plan_unstructured-ok o w = elim (up.get_answers w o.gvk o.namespace o.name) [
    | inl (current, e) ↦ rw e (compare_specs-ok o current)
    | inr e ↦ rw e (_, refl)
  ]

  pub mutate_object-ok :
      (o : Object) (lbl : Dict Text) (owner : ConfigMap) (x : Object)
      → (y : Object) × ((mutate_object c o lbl owner x ≡ ok y) × SameKey x y)
  unfolding mutate_object
  mutate_object-ok o lbl owner x = let (v, e) = up.nested_map_ok o in rw (e, mutate_object) (from v)
    where
      labels : Dict Text
      labels = copy_labels c lbl x.labels

      rekeyed :
          {z y : Object}
          → z.gvk ≡ x.gvk
          → z.namespace ≡ x.namespace
          → z.name ≡ x.name
          → SameKey z y
          → SameKey x y
      rekeyed a b d k = record { gvk = k.gvk ∙ a; namespace = k.namespace ∙ b; name = k.name ∙ d }

      from :
          (v : Option Json)
          → (y : Object) × ((c.set_owner_reference owner (elim v [
            | none ↦ record x { labels = labels }
            | some s ↦ record x { spec = some s; labels = labels }
          ])
                ≡ ok y)
              × SameKey x y)
      from none =
          let (y, (e, k)) = up.owner_set owner (record x { labels = labels }) in
          (y, (e, rekeyed refl refl refl k))
      from (some s) =
          let (y, (e, k)) = up.owner_set owner (record x { spec = some s; labels = labels }) in
          (y, (e, rekeyed refl refl refl k))
