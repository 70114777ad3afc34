-- ===== src/Api/Memory/Agree.antt =====
-- Heaps that hold the same at a range of addresses, and heaps that grow.
use homelab_operator.Prelude.{ℕ, zero, ◌≤◌, ◌<◌, ◌≡◌, refl, ◌∙◌, arith}
use homelab_operator.Api.Memory.{Kind, Heap}

module _ {T : Type 0} where
  pub record SameAt (h g : Heap T) (q : ℕ) : Type 0 where
    pub texts : h.texts q ≡ g.texts q
    pub maps : h.maps q ≡ g.maps q
    pub counts : h.counts q ≡ g.counts q
    pub times : h.times q ≡ g.times q
    pub conditions : h.conditions q ≡ g.conditions q
    pub items : (k : Kind) → h.items k q ≡ g.items k q

  -- The addresses from `lo` on and below `hi`.
  abbrev pub Agrees : ℕ → ℕ → Heap T → Heap T → Type 0
  Agrees lo hi h g = (q : ℕ) → lo ≤ q → q < hi → SameAt h g q

  -- Two heaps that differ at most in their first free address.
  pub SameAt-next : (h : Heap T) (n q : ℕ) → SameAt h (record h { next = n }) q
  SameAt-next h n q = record {
    texts = refl;
    maps = refl;
    counts = refl;
    times = refl;
    conditions = refl;
    items = λ k. refl;
  }

  pub Agrees-refl : (lo hi : ℕ) (h : Heap T) → Agrees lo hi h h
  Agrees-refl lo hi h q a b = SameAt-next h h.next q

  pub Agrees-trans :
      {lo hi : ℕ} {h g f : Heap T} → Agrees lo hi h g → Agrees lo hi g f → Agrees lo hi h f
  Agrees-trans s t q a b = record {
    texts = (s q a b).texts ∙ (t q a b).texts;
    maps = (s q a b).maps ∙ (t q a b).maps;
    counts = (s q a b).counts ∙ (t q a b).counts;
    times = (s q a b).times ∙ (t q a b).times;
    conditions = (s q a b).conditions ∙ (t q a b).conditions;
    items = λ k. (s q a b).items k ∙ (t q a b).items k;
  }

  pub Agrees-narrow :
      {lo hi lo' hi' : ℕ} {h g : Heap T}
      → lo ≤ lo'
      → hi' ≤ hi
      → Agrees lo hi h g
      → Agrees lo' hi' h g
  Agrees-narrow x y s q a b = s q (omega arith) (omega arith)

  -- The addresses that were in use hold what they held.
  pub record Extends (h g : Heap T) : Type 0 where
    pub grows : h.next ≤ g.next
    pub keeps : Agrees zero h.next h g

  pub Extends-refl : (h : Heap T) → Extends h h
  Extends-refl h = record { grows = omega arith; keeps = Agrees-refl zero h.next h }

  pub Extends-trans : {h g f : Heap T} → Extends h g → Extends g f → Extends h f
  Extends-trans s t = record {
    grows = omega (arith, s.grows, t.grows);
    keeps = Agrees-trans s.keeps (Agrees-narrow (omega arith) s.grows t.keeps);
  }
