-- ===== src/Api/DeepCopy/Resource.antt =====
-- The copies of a spec, a status and a resource, field by field.
use homelab_operator.Prelude.{ℕ, ◌≤◌, refl, ap₂, ◌∙◌, none, arith}
use homelab_operator.Api.Memory.{
  StatusStruct, Kind, device, network, ingress_router, SpecStruct, ResourceStruct, Heap,
}
use homelab_operator.Api.Memory.Agree.{Extends-refl, Extends-trans}
use homelab_operator.Api.Memory.View.{
  read, SpecView, StatusView, view_meta, view_spec, view_status, view_resource, SpecWithin,
  StatusWithin, ResourceWithin,
}
use homelab_operator.Api.Memory.View.Keeps.{
  read_eq, view_spec-Agrees, SpecWithin-Extends, view_status-Agrees, StatusWithin-Extends,
}
use homelab_operator.Api.DeepCopy.{
  Foreign, copy_texts, device_spec_deep_copy_into, spec_deep_copy_into, copy_time_ptr,
  status_deep_copy_into, resource_deep_copy_into,
}
use homelab_operator.Api.DeepCopy.Made.{
  CopiesDeeply, Made, Reads-Extends, Made-copy_texts, Made-copy_time_ptr, Made-copy_conditions,
}

module _ {T : Type 0} (lo : ℕ) (h : Heap T) (x : lo ≤ h.next) where
  pub Made-spec_deep_copy_into :
      (j : Kind) (s : SpecStruct j)
      → SpecWithin j h s
      → Made lo (view_spec j) h (view_spec j h s) (spec_deep_copy_into j s h)
  unfolding spec_deep_copy_into device_spec_deep_copy_into view_spec SpecWithin
  Made-spec_deep_copy_into device s (macs, hosts) =
      let h1 = (copy_texts s.mac_addresses h).1 in
      let m = Made-copy_texts lo h s.mac_addresses x in
      let n = Made-copy_texts lo h1 s.additional_hostnames (omega (arith, x, m.extends.grows)) in
      record {
        extends = Extends-trans m.extends n.extends;
        reads = λ g a.
            ap₂ (λ u v. (record s { mac_addresses = none; additional_hostnames = none }, u, v))
              (Reads-Extends (λ f. read f.texts) n.extends m.reads g a)
              (n.reads g a
                ∙ read_eq h.texts h1.texts h.next s.additional_hostnames
                    (λ q b. (m.extends.keeps q (omega arith) b).texts) hosts);
      }
  Made-spec_deep_copy_into network s w = record { extends = Extends-refl h; reads = λ g a. refl }
  Made-spec_deep_copy_into ingress_router s w = record {
    extends = Extends-refl h;
    reads = λ g a. refl;
  }

  module _ (k : Foreign T) (law : CopiesDeeply k) where
    pub Made-status_deep_copy_into :
        (s : StatusStruct)
        → StatusWithin h s
        → Made lo view_status h (view_status h s) (status_deep_copy_into k s h)
    unfolding status_deep_copy_into view_status StatusWithin
    Made-status_deep_copy_into s (time, conditions) =
        let h1 = (copy_time_ptr k s.last_sync_time h).1 in
        let m = Made-copy_time_ptr k law lo h s.last_sync_time x in
        let n = Made-copy_conditions k law lo h1 s.conditions (omega (arith, x, m.extends.grows)) in
        record {
          extends = Extends-trans m.extends n.extends;
          reads = λ g a.
              ap₂ (λ u v. (record s { last_sync_time = none; conditions = none }, u, v))
                (Reads-Extends (λ f. read f.times) n.extends m.reads g a)
                (n.reads g a
                  ∙ read_eq h.conditions h1.conditions h.next s.conditions
                      (λ q b. (m.extends.keeps q (omega arith) b).conditions) conditions);
        }

module _ {T : Type 0} (k : Foreign T) (law : CopiesDeeply k) (lo : ℕ) where
  pub Made-resource_deep_copy_into :
      (j : Kind) (h : Heap T) (r : ResourceStruct T j)
      → lo ≤ h.next
      → ResourceWithin j h r
      → Made lo (view_resource j) h (view_resource j h r) (resource_deep_copy_into k j r h)
  unfolding resource_deep_copy_into view_resource ResourceWithin
  Made-resource_deep_copy_into j h r x (meta, spec, status) =
      let h1 = (k.copy_meta r.meta h).1 in
      let h2 = (spec_deep_copy_into j r.spec h1).1 in
      let l = law.meta lo h r.meta x meta in
      let x1 : lo ≤ h1.next = omega (arith, x, l.extends.grows) in
      let m =
        Made-spec_deep_copy_into lo h1 x1 j r.spec (SpecWithin-Extends j r.spec l.extends spec) in
      let upto = Extends-trans l.extends m.extends in
      let n =
        Made-status_deep_copy_into lo h2 (omega (arith, x1, m.extends.grows)) k law r.status
          (StatusWithin-Extends r.status upto status) in
      record {
        extends = Extends-trans upto n.extends;
        reads = λ g a.
            ap₂ (λ u (v : SpecView j × StatusView). (r.type_meta, u, v.0, v.1))
              (Reads-Extends view_meta (Extends-trans m.extends n.extends) l.reads g a)
              (ap₂ (λ u v. (u, v))
                (Reads-Extends (view_spec j) n.extends m.reads g a
                  ∙ view_spec-Agrees j r.spec spec l.extends.keeps)
                (n.reads g a ∙ view_status-Agrees r.status status upto.keeps));
      }
