-- ===== src/Base/BTreeMap/Order.antt =====
-- The entries of a `BTreeMap` stand in the order of their keys, so that a map is its lookups.
use Prim.Native.Nat.{Ordering}
use Prim.Native.String.{String, compare}
use mathlib.Core.Path.{◌≡◌, refl, sym, subst}
use mathlib.Core.Logic.{◌⊎◌, inl, inr}
use mathlib.Core.Option.{none, some}
use mathlib.Core.List.{[], ◌∷◌}
use native.Mathlib.Omega.{arith}
use text.Mathlib.TextEquality.{eq_iff, path_by_compare}
use text.Mathlib.TextPositions.{compare_refl}
use package.kubernetes_identity_fede.Base.Lists.{All}
use package.kubernetes_identity_fede.Base.TextOrder.{compare_trans, compare-flip}
use package.kubernetes_identity_fede.Base.BTreeMap.{BTreeMap, lookup, insert}

Ordering-cases : (o : Ordering) → (o ≡ Ordering.lt) ⊎ ((o ≡ Ordering.eq) ⊎ (o ≡ Ordering.gt))
Ordering-cases Ordering.lt = inl refl
Ordering-cases Ordering.eq = inr (inl refl)
Ordering-cases Ordering.gt = inr (inr refl)

-- The key stands before those of the entries.
abbrev pub IsBefore {ℓ} : {V : Type ℓ} → String → BTreeMap V → Type 0
IsBefore {V} k = All (λ (e : String × V). compare k e.0 ≡ Ordering.lt)

abbrev pub IsSorted {ℓ} : {V : Type ℓ} → BTreeMap V → Type 0
IsSorted [] = Unit
IsSorted ((k, v) ∷ m) = IsBefore k m × IsSorted m

module _ {ℓ} {V : Type ℓ} where
  IsBefore-trans :
      (j k : String) (m : BTreeMap V) → compare j k ≡ Ordering.lt → IsBefore k m → IsBefore j m
  IsBefore-trans j k [] h b = tt
  IsBefore-trans j k ((i, v) ∷ m) h (p, b) = (compare_trans j k i h p, IsBefore-trans j k m h b)

  -- A new key stands behind the same keys as before.
  IsBefore-insert :
      (j k : String) (v : V) (m : BTreeMap V)
      → compare j k ≡ Ordering.lt
      → IsBefore j m
      → IsBefore j (insert k v m)
  unfolding insert
  IsBefore-insert j k v [] h b = (h, tt)
  IsBefore-insert j k v ((i, w) ∷ m) h (p, b) = ground (arith, IsBefore-insert j k v m h b)

  pub insert-IsSorted : (k : String) (v : V) (m : BTreeMap V) → IsSorted m → IsSorted (insert k v m)
  unfolding insert
  insert-IsSorted k v [] s = (tt, tt)
  insert-IsSorted k v ((i, w) ∷ m) (b, s) = elim (Ordering-cases (compare k i)) [
    | inl before ↦ rw (before, IsSorted) ((before, IsBefore-trans k i m before b), (b, s))
    | inr (inl same) ↦
        rw (same, IsSorted) (subst (λ j. IsBefore j m) (sym (path_by_compare k i same)) b, s)
    | inr (inr after) ↦
        rw (after, IsSorted)
          (IsBefore-insert i k v m (compare-flip k i after) b, insert-IsSorted k v m s)
  ]

  lookup-IsBefore : (k : String) (m : BTreeMap V) → IsBefore k m → lookup k m ≡ none
  unfolding lookup
  lookup-IsBefore k [] b = refl
  lookup-IsBefore k ((i, v) ∷ m) (p, b) =
      ground (arith, lookup-IsBefore k m b, eq_iff i k, compare_refl k)

  lookup-head : (k : String) (v : V) (m : BTreeMap V) → lookup k ((k, v) ∷ m) ≡ some v
  unfolding lookup
  lookup-head k v m = ground (arith, eq_iff k k)

  -- Behind equal heads the maps have the same lookups.
  lookup-tail :
      (j k : String) (v w : V) (m m' : BTreeMap V)
      → IsBefore j m
      → IsBefore j m'
      → lookup k ((j, v) ∷ m) ≡ lookup k ((j, w) ∷ m')
      → lookup k m ≡ lookup k m'
  unfolding lookup
  lookup-tail j k v w m m' b b' h =
      ground (arith, eq_iff j k, lookup-IsBefore j m b, lookup-IsBefore j m' b')

  -- A map does not begin with a key that is missing from the other.
  head-IsBefore :
      (k : String) (v : V) (m m' : BTreeMap V)
      → IsBefore k m'
      → lookup k ((k, v) ∷ m) ≡ lookup k m'
      → ⊥
  head-IsBefore k v m m' b h = absurd (cc (lookup-head k v m, lookup-IsBefore k m' b, h))

  IsSorted-ext_same :
      (j k : String)
      → j ≡ k
      → (v w : V) (m m' : BTreeMap V) → IsBefore j m
      → IsBefore k m'
      → ((i : String) → lookup i ((j, v) ∷ m) ≡ lookup i ((k, w) ∷ m'))
      → (((i : String) → lookup i m ≡ lookup i m') → m ≡ m')
      → (j, v) ∷ m ≡ (k, w) ∷ m'
  IsSorted-ext_same j k same v w m m' b b' h tails =
      let b'' = subst (λ i. IsBefore i m') (sym same) b' in
      let h' = rw (← same) at h in
      let tail = tails (λ i. lookup-tail j i v w m m' b b'' (h' i)) in
      let head : v ≡ w = cc (lookup-head j v m, lookup-head j w m', h' j) in
      λ i. (same i, head i) ∷ tail i

  -- Maps with the same lookups are equal.
  pub IsSorted-ext :
      (m m' : BTreeMap V)
      → IsSorted m
      → IsSorted m'
      → ((k : String) → lookup k m ≡ lookup k m')
      → m ≡ m'
  unfolding lookup
  IsSorted-ext [] [] s s' h = refl
  IsSorted-ext [] ((k, v) ∷ m') s s' h = absurd (head-IsBefore k v m' [] tt (sym (h k)))
  IsSorted-ext ((k, v) ∷ m) [] s s' h = absurd (head-IsBefore k v m [] tt (h k))
  IsSorted-ext ((j, v) ∷ m) ((k, w) ∷ m') (b, s) (b', s') h = elim (Ordering-cases (compare j k)) [
    | inl before ↦
        absurd (head-IsBefore j v m ((k, w) ∷ m') (before, IsBefore-trans j k m' before b') (h j))
    | inr (inl same) ↦
        IsSorted-ext_same j k (path_by_compare j k same) v w m m' b b' h (IsSorted-ext m m' s s')
    | inr (inr after) ↦
        let before = compare-flip j k after in
        absurd
          (head-IsBefore k w m' ((j, v) ∷ m) (before, IsBefore-trans k j m before b) (sym (h k)))
  ]
