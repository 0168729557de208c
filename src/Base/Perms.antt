-- ===== src/Base/Perms.antt =====
-- Lists up to the order of their elements.
use mathlib.Core.Path.{◌≡◌, refl, ap, subst}
use mathlib.Core.Option.{Option}
use mathlib.Core.List.{List, [], ◌∷◌, ◌++◌, append_assoc}
use mathlib.Core.List.Permᴰ
use mathlib.Core.List.Permᴰ.{Permᴰ, nil, cons, swap, trans}
use package.kubernetes_identity_fede.Base.Lists.{All, flat_map, filter_map, opt_list}

module _ {ℓ κ} {A : Type ℓ} (P : A → Type κ) where
  pub Perm-All : {xs ys : List A} → Permᴰ xs ys → All P xs → All P ys
  Perm-All nil h = h
  Perm-All (cons e d) (p, h) = (subst P e p, Perm-All d h)
  Perm-All (swap e e') (p, (q, h)) = (subst P e' q, (subst P e p, h))
  Perm-All (trans d d') h = Perm-All d' (Perm-All d h)

module _ {ℓ κ} {A : Type ℓ} {B : Type κ} (f : A → List B) where
  append-swap : (xs ys zs : List B) → Permᴰ (xs ++ (ys ++ zs)) (ys ++ (xs ++ zs))
  append-swap xs ys zs =
      rw (← append_assoc xs ys zs, ← append_assoc ys xs zs)
        (Permᴰ.append_right zs (Permᴰ.append_comm xs ys))

  pub flat_map-Perm : {xs ys : List A} → Permᴰ xs ys → Permᴰ (flat_map f xs) (flat_map f ys)
  flat_map-Perm nil = nil
  flat_map-Perm (cons {a = a} {l₁ = l} {l₂ = l'} e d) =
      subst (λ b. Permᴰ (f a ++ flat_map f l) (f b ++ flat_map f l')) e
        (Permᴰ.append_left (f a) (flat_map-Perm d))
  flat_map-Perm (swap {a = a} {b = b} {l = l} e e') =
      subst (λ (c, d). Permᴰ (f a ++ (f b ++ flat_map f l)) (f c ++ (f d ++ flat_map f l)))
        (λ i. (e' i, e i)) (append-swap (f a) (f b) (flat_map f l))
  flat_map-Perm (trans d d') = trans (flat_map-Perm d) (flat_map-Perm d')

module _ {ℓ κ} {A : Type ℓ} {B : Type κ} (f : A → Option B) where
  filter_map-flat_map : (xs : List A) → filter_map f xs ≡ flat_map (λ x. opt_list (f x)) xs
  filter_map-flat_map [] = refl
  filter_map-flat_map (x ∷ xs) = ap (λ ys. opt_list (f x) ++ ys) (filter_map-flat_map xs)

  pub filter_map-Perm : {xs ys : List A} → Permᴰ xs ys → Permᴰ (filter_map f xs) (filter_map f ys)
  filter_map-Perm {xs} {ys} d =
      rw (filter_map-flat_map xs, filter_map-flat_map ys) (flat_map-Perm (λ x. opt_list (f x)) d)

module _ {ℓ} {A : Type ℓ} where
  Perm-nil : {xs ys : List A} → Permᴰ xs ys → xs ≡ [] → ys ≡ []
  Perm-nil nil h = refl
  Perm-nil (cons e d) h = absurd (cc h)
  Perm-nil (swap e e') h = absurd (cc h)
  Perm-nil (trans d d') h = Perm-nil d' (Perm-nil d h)

  pub Perm-singleton : (a : A) {xs ys : List A} → Permᴰ xs ys → xs ≡ a ∷ [] → ys ≡ a ∷ []
  Perm-singleton a nil h = absurd (cc h)
  Perm-singleton a (cons {a = x} {b = y} {l₁ = xs} {l₂ = ys} e d) h =
      let none_left : xs ≡ [] = cc h in cc (Perm-nil d none_left, e, h)
  Perm-singleton a (swap e e') h = absurd (cc h)
  Perm-singleton a (trans d d') h = Perm-singleton a d' (Perm-singleton a d h)
