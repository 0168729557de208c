-- ===== src/Webhook/Merge/Extras.antt =====
-- merge.rs: the loop over `attributes.extra`, one map or several in a row.
use kubernetes_identity_fede.Base.{
  String, ◌≡◌, refl, none, List, [], ◌∷◌, ◌++◌, ok, ◌>>=◌, option_or, All, arith, eq_iff, subst,
  ok-injective, Option-cases, inl, inr, string_has_eq,
}
use kubernetes_identity_fede.Base.BTreeMap.{BTreeMap, insert, lookup, lookup-insert}
use kubernetes_identity_fede.Base.BTreeMap.Order.{IsSorted, insert-IsSorted}
use kubernetes_identity_fede.Webhook.Merge.{take_extra}

-- No key of the entries is in the map.
abbrev pub Unused : BTreeMap String → List (String × String) → Type 0
Unused seen = All (λ e. lookup e.0 seen ≡ none)

abbrev pub NodupKeys : List (String × String) → Type 0
NodupKeys [] = Unit
NodupKeys ((k, v) ∷ es) = (lookup k es ≡ none) × NodupKeys es

module _ (k v : String) (seen : BTreeMap String) where
  -- What is unused in a larger map is unused in the smaller one, and has other keys.
  Unused-insert_inv :
      (es : List (String × String))
      → Unused (insert k v seen) es
      → (Unused seen es) × (lookup k es ≡ none)
  unfolding lookup
  Unused-insert_inv [] h = (tt, refl)
  Unused-insert_inv ((j, w) ∷ es) (p, h) =
      let (u, n) = Unused-insert_inv es h in
      ground (arith, lookup-insert k j v seen, eq_iff k j, eq_iff j k)

  Unused-insert :
      (es : List (String × String))
      → Unused seen es
      → lookup k es ≡ none
      → Unused (insert k v seen) es
  unfolding lookup
  Unused-insert [] h n = tt
  Unused-insert ((j, w) ∷ es) (p, h) n = (
    ground (arith, lookup-insert k j v seen, eq_iff k j, eq_iff j k),
    Unused-insert es h (ground arith),
  )

module _ (names : List String) where
  pub take_extra-append :
      (es fs : List (String × String)) (seen : BTreeMap String)
      → take_extra names (es ++ fs) seen ≡ (take_extra names es seen >>= take_extra names fs)
  unfolding take_extra
  take_extra-append [] fs seen = refl
  take_extra-append ((k, v) ∷ es) fs seen =
      ground (arith, take_extra-append es fs (insert k v seen))

  pub take_extra_sound :
      (es : List (String × String)) (seen r : BTreeMap String)
      → take_extra names es seen ≡ ok r
      → (Unused seen es) × (NodupKeys es)
  unfolding take_extra
  take_extra_sound [] seen r h = (tt, tt)
  take_extra_sound ((k, v) ∷ es) seen r h = elim (Option-cases (lookup k seen)) [
    | inl fresh ↦
        let (u, n) = take_extra_sound es (insert k v seen) r (ground arith) in
        let (u', absent) = Unused-insert_inv k v seen es u in ((fresh, u'), (absent, n))
    | inr (w, taken) ↦ ground arith
  ]

  pub take_extra_complete :
      (es : List (String × String)) (seen : BTreeMap String)
      → Unused seen es
      → NodupKeys es
      → (r : BTreeMap String) × (take_extra names es seen ≡ ok r)
  unfolding take_extra
  take_extra_complete [] seen u n = (seen, refl)
  take_extra_complete ((k, v) ∷ es) seen (fresh, u) (absent, n) =
      let (r, e) =
        take_extra_complete es (insert k v seen) (Unused-insert k v seen es u absent) n in
      (r, ground arith)

  pub take_extra-IsSorted :
      (es : List (String × String)) (seen r : BTreeMap String)
      → IsSorted seen
      → take_extra names es seen ≡ ok r
      → IsSorted r
  unfolding take_extra
  take_extra-IsSorted [] seen r s h = subst IsSorted (ok-injective h) s
  take_extra-IsSorted ((k, v) ∷ es) seen r s h =
      take_extra-IsSorted es (insert k v seen) r (insert-IsSorted k v seen s) (ground arith)

  -- The merged map has the entries of both.
  pub lookup-take_extra :
      (j : String) (es : List (String × String)) (seen r : BTreeMap String)
      → take_extra names es seen ≡ ok r
      → lookup j r ≡ option_or (lookup j es) (lookup j seen)
  unfolding take_extra lookup
  lookup-take_extra j [] seen r h = ground arith
  lookup-take_extra j ((k, v) ∷ es) seen r h =
      let (u, n) = take_extra_sound ((k, v) ∷ es) seen r h in
      ground
        (arith, lookup-take_extra j es (insert k v seen) r, lookup-insert k j v seen, eq_iff k j)
