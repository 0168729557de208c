-- ===== src/Base/Lists.antt =====
-- Lists: lengths over the native numbers, Boolean searches, and predicates by recursion.
use Prim.Native.Nat.{ℕ, suc, ◌+◌}
use mathlib.Core.Path.{◌≡◌, refl, sym, ap, ◌∙◌}
use mathlib.Core.Logic.{inl, inr}
use mathlib.Core.Bool.{Bool, true, false, ◌||◌}
use mathlib.Core.List.{List, [], ◌∷◌, ◌++◌, append_assoc}
use mathlib.Core.Option.{Option, none, some}
use native.Mathlib.Omega.{arith}
use package.kubernetes_identity_fede.Base.Tests.{if◌then◌else◌, Eq, ◌==◌, Bool-cases}

module _ {ℓ} {A : Type ℓ} where
  abbrev pub length : List A → ℕ
  length [] = 0
  length (x ∷ xs) = suc (length xs)

  pub length-append : (xs ys : List A) → length (xs ++ ys) ≡ length xs + length ys
  length-append [] ys = omega arith
  length-append (x ∷ xs) ys = omega (arith, length-append xs ys)

  -- `iter().any(p)`
  abbrev pub any : (A → Bool) → List A → Bool
  any p [] = false
  any p (x ∷ xs) = p x || any p xs

  -- `iter().find(p)`
  abbrev pub find : (A → Bool) → List A → Option A
  find p [] = none
  find p (x ∷ xs) = if p x then some x else find p xs

  -- `iter().filter(p)`, with a Boolean test
  abbrev pub filter : (A → Bool) → List A → List A
  filter p [] = []
  filter p (x ∷ xs) = let rest = filter p xs in if p x then x ∷ rest else rest

  -- The elements of an optional list; `iter().flatten()`.
  abbrev pub or_nil : Option (List A) → List A
  or_nil none = []
  or_nil (some xs) = xs

  abbrev pub opt_list : Option A → List A
  opt_list none = []
  opt_list (some a) = a ∷ []

-- `iter().filter_map(f)`
abbrev pub filter_map {ℓ κ} : {A : Type ℓ} {B : Type κ} → (A → Option B) → List A → List B
filter_map f [] = []
filter_map f (x ∷ xs) = opt_list (f x) ++ filter_map f xs

abbrev pub flat_map {ℓ κ} : {A : Type ℓ} {B : Type κ} → (A → List B) → List A → List B
flat_map f [] = []
flat_map f (x ∷ xs) = f x ++ flat_map f xs

-- `contains`
abbrev pub contains {ℓ} : {A : Type ℓ} ⦃e : Eq A⦄ → List A → A → Bool
contains xs a = any (λ x. x == a) xs

module _ {ℓ κ} {A : Type ℓ} (P : A → Type κ) where
  abbrev pub All : List A → Type κ
  All [] = Unit
  All (x ∷ xs) = P x × All xs

  pub All-append : (xs ys : List A) → All xs → All ys → All (xs ++ ys)
  All-append [] ys h k = k
  All-append (x ∷ xs) ys (p, h) k = (p, All-append xs ys h k)

  pub All-append_inv : (xs ys : List A) → All (xs ++ ys) → All xs × All ys
  All-append_inv [] ys h = (tt, h)
  All-append_inv (x ∷ xs) ys (p, h) = let (l, r) = All-append_inv xs ys h in ((p, l), r)

  -- Some element satisfies the predicate.
  pub data Any : List A → Type (ℓ ⊔ κ) where
    here : {x : A} {xs : List A} → P x → Any (x ∷ xs)
    there : {x : A} {xs : List A} → Any xs → Any (x ∷ xs)

pub opt_list-singleton {ℓ} : {A : Type ℓ} (o : Option A) (a : A) → opt_list o ≡ a ∷ [] → o ≡ some a
opt_list-singleton none a h = cc
opt_list-singleton (some b) a h = cc

pub All-imp {ℓ κ μ} :
    {A : Type ℓ} (P : A → Type κ) (Q : A → Type μ) (f : (a : A) → P a → Q a) (xs : List A)
    → All P xs
    → All Q xs
All-imp P Q f [] h = tt
All-imp P Q f (x ∷ xs) (p, h) = (f x p, All-imp P Q f xs h)

pub any-append {ℓ} :
    {A : Type ℓ} (p : A → Bool) (xs ys : List A) → any p (xs ++ ys) ≡ (any p xs || any p ys)
any-append p [] ys = refl
any-append p (x ∷ xs) ys = ground (arith, any-append p xs ys)

module _ {ℓ} {A : Type ℓ} (p : A → Bool) where
  -- What is pushed unless it is there is there.
  pub any-push_unless :
      (x : A) (xs : List A) → p x ≡ true → any p (if any p xs then xs else xs ++ (x ∷ [])) ≡ true
  any-push_unless x xs h = elim (Bool-cases (any p xs)) [
    | inl found ↦ rw found found
    | inr absent ↦ rw (absent, any-append p xs (x ∷ [])) (ground arith)
  ]

  pub any-push_mono :
      (b : Bool) (xs ys : List A) → any p xs ≡ true → any p (if b then xs else xs ++ ys) ≡ true
  any-push_mono true xs ys h = h
  any-push_mono false xs ys h = rw (any-append p xs ys) (ground arith)

-- `any` as a predicate.
pub any-Any {ℓ} :
    {A : Type ℓ} (p : A → Bool) (xs : List A) → any p xs ≡ true → Any (λ x. p x ≡ true) xs
any-Any p [] h = absurd (ground arith)
any-Any p (x ∷ xs) h = elim (Bool-cases (p x)) [
  | inl yes_ ↦ here yes_
  | inr no_ ↦ there (any-Any p xs (ground arith))
]

pub Any-any {ℓ} :
    {A : Type ℓ} (p : A → Bool) (xs : List A) → Any (λ x. p x ≡ true) xs → any p xs ≡ true
Any-any p [] h = elim h [ ]
Any-any p (x ∷ xs) (here h) = rw h refl
Any-any p (x ∷ xs) (there h) = ground (arith, Any-any p xs h)

pub Any-imp {ℓ κ μ} :
    {A : Type ℓ} (P : A → Type κ) (Q : A → Type μ) (f : (a : A) → P a → Q a) (xs : List A)
    → Any P xs
    → Any Q xs
Any-imp P Q f [] h = elim h [ ]
Any-imp P Q f (x ∷ xs) (here h) = here (f x h)
Any-imp P Q f (x ∷ xs) (there h) = there (Any-imp P Q f xs h)

-- What all satisfy, the one that is found satisfies.
pub Any-All {ℓ κ μ ν} :
    {A : Type ℓ} (P : A → Type κ) (Q : A → Type μ) (R : A → Type ν) (f : (a : A) → P a → Q a → R a)
    (xs : List A)
    → Any P xs
    → All Q xs
    → Any R xs
Any-All P Q R f [] h k = elim h [ ]
Any-All P Q R f (x ∷ xs) (here h) (q, k) = here (f x h q)
Any-All P Q R f (x ∷ xs) (there h) (q, k) = there (Any-All P Q R f xs h k)

module _ {ℓ κ} {A : Type ℓ} (P : A → Type κ) where
  pub Any-left : (xs ys : List A) → Any P xs → Any P (xs ++ ys)
  Any-left [] ys h = elim h [ ]
  Any-left (x ∷ xs) ys (here p) = here p
  Any-left (x ∷ xs) ys (there h) = there (Any-left xs ys h)

  pub Any-last : (xs : List A) {x : A} → P x → Any P (xs ++ (x ∷ []))
  Any-last [] p = here p
  Any-last (y ∷ xs) p = there (Any-last xs p)

pub flat_map-append {ℓ κ} :
    {A : Type ℓ} {B : Type κ} (f : A → List B) (xs ys : List A)
    → flat_map f (xs ++ ys) ≡ flat_map f xs ++ flat_map f ys
flat_map-append f [] ys = refl
flat_map-append f (x ∷ xs) ys =
    ap (λ zs. f x ++ zs) (flat_map-append f xs ys)
    ∙ sym (append_assoc (f x) (flat_map f xs) (flat_map f ys))
