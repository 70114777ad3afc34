-- ===== src/Controller/Device/Established/Loops.antt =====
-- A loop over the objects of a map stores each of them, in whatever order Go visits the map.
use mathlib.Core.List.{Nodup, Nodup-cons}
use homelab_operator.Prelude.{
  Text, true, false, some, ◌≡◌, inl, inr, Bool-cases, [], ◌∷◌, ◌==◌, eq_iff, arith,
}
use homelab_operator.Prelude.Dict.{Dict, get, keys}
use homelab_operator.Prelude.Keys.{is_some, mem-keys_of_is_some}
use homelab_operator.Config.{Config}
use homelab_operator.Cluster.{Client}
use homelab_operator.Cluster.Exec.{
  Exec, Keeps, Keeps-pure, Keeps-bind, Leads, Leads-keeps, Leads-bind,
}
use homelab_operator.Ensure.{ApplyPlan}
use homelab_operator.Controller.Device.{apply_each}
use homelab_operator.Controller.Device.Established.Steps.{Anywhere, Leads-Anywhere}

-- Go visits each entry of a map once, and no other.
pub record VisitsAll (range : (V : Type 0) → Dict V → Dict V) : Type 1 where
  pub once : (V : Type 0) (m : Dict V) → Nodup (keys m) → Nodup (keys (range V m))
  pub same : (V : Type 0) (m : Dict V) (k : Text) → get k (range V m) ≡ get k m

module _ {W V : Type 0} (c : Client W) (cfg : Config) (k : Text) (f : Text → V → Exec W ApplyPlan)
    (P : W → Type 0) (other : (j : Text) (u : V) → (j == k) ≡ false → Keeps P (f j u)) where
  pub Keeps-others : (l : Dict V) → is_some (get k l) ≡ false → Keeps P (apply_each c cfg f l)
  unfolding apply_each get
  Keeps-others [] h = Keeps-pure _
  Keeps-others ((j, u) ∷ l) h = elim (Bool-cases (j == k)) [
    | inl e ↦ absurd (ground arith)
    | inr e ↦
        Keeps-bind _ _ (other j u e)
          λ plan. Keeps-bind _ _ (Keeps-others l (rw e at h)) λ plans. Keeps-pure _
  ]

  -- If the entry of the key leads to `P`, and the others keep it, the loop leads to `P`.
  pub Leads-apply_each :
      (v : V)
      → ((R : W → Type 0) → Leads R (f k v) P)
      → {R : W → Type 0} (l : Dict V) → Nodup (keys l)
      → get k l ≡ some v
      → Leads R (apply_each c cfg f l) P
  unfolding apply_each get
  Leads-apply_each v own [] u h = absurd (cc)
  Leads-apply_each v own {R} ((j, w) ∷ l) u h = elim (Bool-cases (j == k)) [
    | inl e ↦ Leads-bind {Q = P} (first e) λ plan.
        Leads-bind {Q = P} (Leads-keeps (Keeps-others l (unseen e)))
          λ plans. Leads-keeps (Keeps-pure _)
    | inr e ↦ Leads-bind {Q = Anywhere} (Leads-Anywhere _) λ plan.
        Leads-bind {Q = P} (Leads-apply_each v own {R = Anywhere} l (Nodup-cons.0 u).1 (rw e at h))
          λ plans. Leads-keeps (Keeps-pure _)
  ]
    where
      first : (j == k) ≡ true → Leads R (f j w) P
      first e = let q : w ≡ v = cc (rw e at h) in rw ((eq_iff j k).0 e, q) (own R)

      unseen : (j == k) ≡ true → is_some (get k l) ≡ false
      unseen e = elim (Bool-cases (is_some (get k l))) [
        | inl t ↦ absurd ((Nodup-cons.0 u).0 (rw ((eq_iff j k).0 e) (mem-keys_of_is_some k l t)))
        | inr t ↦ t
      ]
