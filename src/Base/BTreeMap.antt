-- ===== src/Base/BTreeMap.antt =====
-- `BTreeMap<String, V>`: the entries in the order of their keys.
pub mod Order
use Prim.Native.Nat.{Ordering}
use Prim.Native.String.{String, compare}
use mathlib.Core.Path.{◌≡◌, refl}
use mathlib.Core.Bool.{Bool}
use mathlib.Core.Option.{Option, none, some}
use mathlib.Core.List.{List, [], ◌∷◌}
use native.Mathlib.Omega.{arith}
use text.Mathlib.TextEquality.{eq_iff, path_by_compare}
use package.kubernetes_identity_fede.Base.Tests.{if◌then◌else◌, ◌==◌, string_has_eq}
use package.kubernetes_identity_fede.Base.Results.{is_some}

abbrev pub BTreeMap {ℓ} : Type ℓ → Type ℓ
BTreeMap V = List (String × V)

module _ {ℓ} {V : Type ℓ} where
  -- `get`
  unfoldable pub lookup : String → BTreeMap V → Option V
  lookup k [] = none
  lookup k ((j, v) ∷ m) = if j == k then some v else lookup k m

  -- `insert`: a present key gets the new value, a new key goes to its place in the order.
  unfoldable pub insert : String → V → BTreeMap V → BTreeMap V
  insert k v [] = (k, v) ∷ []
  insert k v ((j, w) ∷ m) = elim (compare k j) [
    | Ordering.lt ↦ (k, v) ∷ (j, w) ∷ m
    | Ordering.eq ↦ (k, v) ∷ m
    | Ordering.gt ↦ (j, w) ∷ insert k v m
  ]

  abbrev pub contains_key : String → BTreeMap V → Bool
  contains_key k m = is_some (lookup k m)

  pub lookup-insert :
      (new key : String) (value : V) (m : BTreeMap V)
      → lookup key (insert new value m) ≡ (if new == key then some value else lookup key m)
  unfolding lookup insert
  lookup-insert new key value [] = refl
  lookup-insert new key value ((name, held) ∷ m) = ground (
    arith,
    path_by_compare new name,
    eq_iff new key,
    eq_iff name new,
    eq_iff name key,
    lookup-insert new key value m,
  )
