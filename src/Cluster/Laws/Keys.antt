-- ===== src/Cluster/Laws/Keys.antt =====
-- Objects that stand under one key.
use homelab_operator.Prelude.{Text, true, ◌≡◌, refl, eq_iff, arith}
use homelab_operator.Cluster.{Gvk, Object, Client}
use homelab_operator.Cluster.Laws.{same_kind, is_at}

pub same_kind_path : (g h : Gvk) → same_kind g h ≡ true → g ≡ h
same_kind_path g h e =
    let a : g.kind ≡ h.kind = (eq_iff g.kind h.kind).0 (ground arith) in
    let b : g.group ≡ h.group = (eq_iff g.group h.group).0 (ground arith) in
    let d : g.version ≡ h.version = (eq_iff g.version h.version).0 (ground arith) in
    rw (a, b, d) refl

-- What is read under the key of an object that stands at the key.
pub get-is_at :
    {W : Type 0} (c : Client W) (w : W) (gvk : Gvk) (namespace name : Text) (o : Object)
    → is_at gvk namespace name o ≡ true
    → c.get w gvk namespace name ≡ c.get w o.gvk o.namespace o.name
get-is_at c w gvk namespace name o e =
    let a : gvk ≡ o.gvk = same_kind_path gvk o.gvk (ground arith) in
    let b : namespace ≡ o.namespace = (eq_iff namespace o.namespace).0 (ground arith) in
    let d : name ≡ o.name = (eq_iff name o.name).0 (ground arith) in cc (a, b, d)
