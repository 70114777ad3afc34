-- ===== src/Prelude/Keys.antt =====
-- The keys of a dictionary: each stands once, and they are the texts whose lookup succeeds.
use mathlib.Core.Logic.Or
use mathlib.Core.Path.{◌≡◌, sym}
use mathlib.Core.Bool.{Bool, true, false}
use mathlib.Core.Logic.{inl, inr}
use mathlib.Core.Option.{Option, none, some}
use mathlib.Core.List.{
  [], ◌∷◌, Mem, Nodup, Nodup-cons, mem-cons, mem-cons_self, mem-cons_of_mem, not-mem-nil,
}
use native.Mathlib.Omega.{arith}
use mathlib.Core.Path.{refl}
use package.homelab_operator.Prelude.Lists.{any}
use package.homelab_operator.Prelude.Tests.{Bool-cases}
use package.homelab_operator.Prelude.Bytes.{Text, ◌==◌, eq_iff}
use package.homelab_operator.Prelude.Dict.{Dict, get, put, keys, get-put}

abbrev pub is_some {ℓ} : {A : Type ℓ} → Option A → Bool
is_some none = false
is_some (some a) = true

module _ {ℓ} {V : Type ℓ} where
  pub is_some_of_mem-keys : (k : Text) (m : Dict V) → Mem k (keys m) → is_some (get k m) ≡ true
  unfolding get
  is_some_of_mem-keys k [] h = absurd (not-mem-nil h)
  is_some_of_mem-keys k ((j, v) ∷ m) h =
      Or.elim (hlevel) (mem-cons.0 h) (λ e. ground (arith, eq_iff j k, sym e))
        (λ i. ground (arith, is_some_of_mem-keys k m i))

  pub mem-keys_of_is_some : (k : Text) (m : Dict V) → is_some (get k m) ≡ true → Mem k (keys m)
  unfolding get
  mem-keys_of_is_some k [] h = absurd (cc)
  mem-keys_of_is_some k ((j, v) ∷ m) h = elim (Bool-cases (j == k)) [
    | inl e ↦ rw ((eq_iff j k).0 e) mem-cons_self
    | inr e ↦ mem-cons_of_mem j (mem-keys_of_is_some k m (ground arith))
  ]

  pub any-keys : (k : Text) (m : Dict V) → any (λ j. j == k) (keys m) ≡ is_some (get k m)
  unfolding get
  any-keys k [] = refl
  any-keys k ((j, v) ∷ m) = ground (arith, any-keys k m)

  pub Nodup-keys-put : (k : Text) (v : V) (m : Dict V) → Nodup (keys m) → Nodup (keys (put k v m))
  unfolding put
  Nodup-keys-put k v [] h = Nodup-cons.1 (not-mem-nil, h)
  Nodup-keys-put k v ((j, w) ∷ m) h = elim (Bool-cases (j == k)) [
    | inl e ↦ rw e (rw (sym ((eq_iff j k).0 e)) h)
    | inr e ↦ rw e (
        Nodup-cons.1 (
          (λ i. (Nodup-cons.0 h).0 (mem-keys_of_is_some j m (kept i e))),
          Nodup-keys-put k v m (Nodup-cons.0 h).1,
        ))
  ]
    where
      kept : Mem j (keys (put k v m)) → (j == k) ≡ false → is_some (get j m) ≡ true
      kept i e =
          ground
            (arith, is_some_of_mem-keys j (put k v m) i, get-put k j v m, eq_iff j k, eq_iff k j)
