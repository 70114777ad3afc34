-- ===== src/Ensure/Stored.antt =====
-- What a write by `ApplyUnstructured` leaves in the cluster, and what `PlanUnstructured` then says.
use homelab_operator.Prelude.{Text, false, some, ◌≡◌, refl, sym, ◌∙◌}
use homelab_operator.Prelude.Dict.{Dict}
use homelab_operator.Cluster.{Object, ConfigMap, obj, Fields, Client, ok}
use homelab_operator.Cluster.Exec.{Exec, Keeps, Leads}
use homelab_operator.Cluster.Laws.{HasSpec, IsLawful, Written}
use homelab_operator.Ensure.{
  plan_with, plan_from, plan_unstructured, unchanged, compare_specs, mutate_object,
  apply_unstructured,
}

-- The cluster holds the spec of the object under its key.
pub record Stored {W : Type 0} (c : Client W) (o : Object) (w : W) : Type 0 where
  pub current : Object
  pub got : c.get w o.gvk o.namespace o.name ≡ ok current
  pub same_spec : current.spec ≡ o.spec

module _ {W : Type 0} (c : Client W) (law : IsLawful c) (o : Object) where
  -- The plan for an object that is stored is to leave it unchanged.
  pub plan_unstructured-Stored :
      HasSpec o → (w : W) → Stored c o w → plan_unstructured c o w ≡ ok (plan_with c o unchanged)
  unfolding plan_unstructured plan_from
  plan_unstructured-Stored (fs, e) w s =
      rw
        (
          s.got,
          compare_specs,
          law.nested_map_obj o fs e,
          law.nested_map_obj s.current fs (s.same_spec ∙ e),
          law.deep_equal_refl (some (obj fs)),
        )
        refl

  spec-mutate_object :
      (fs : Fields) (lbl : Dict Text) (owner : ConfigMap) (before after : Object)
      → o.spec ≡ some (obj fs)
      → mutate_object c o lbl owner before ≡ ok after
      → after.spec ≡ o.spec
  unfolding mutate_object
  spec-mutate_object fs lbl owner before after e m =
      law.owner_keeps_spec owner _ after (rw (law.nested_map_obj o fs e, mutate_object) at m)
      ∙ sym e

  -- A successful write stores the object.
  pub apply_unstructured-Stored :
      {P : W → Type 0}
      → HasSpec o
      → (lbl : Dict Text) (owner : ConfigMap)
      → Leads P (apply_unstructured c o false lbl owner) (Stored c o)
  unfolding apply_unstructured
  apply_unstructured-Stored (fs, e) lbl owner = record {
    at = λ w a h q.
        let made : Written c _ (mutate_object c o lbl owner) _ = law.written _ _ w q in
        record {
          current = made.after;
          got = made.got;
          same_spec = spec-mutate_object fs lbl owner made.before made.after e made.mutated;
        };
  }

  -- A step that does not change what is read under the key keeps the object stored.
  pub Keeps-Stored :
      {A : Type 0} (m : Exec W A)
      → ((w : W) → c.get (m w).1 o.gvk o.namespace o.name ≡ c.get w o.gvk o.namespace o.name)
      → Keeps (Stored c o) m
  Keeps-Stored m same = record {
    at = λ w s. record { current = s.current; got = same w ∙ s.got; same_spec = s.same_spec };
  }
