-- ===== src/Base/Calls.antt =====
-- Calls of a server: a state that they read and change, and an error that ends a chain of them. What
-- was written before the error stays.
use mathlib.Core.Path.{◌≡◌, ap}
use mathlib.Core.Logic.{inl, inr}
use Prim.Native.String.{String}
use native.Mathlib.Omega.{arith}
use package.kubernetes_identity_fede.Base.Results.{Result, ok, err, Result-cases}

abbrev pub Calls {ℓ κ} : Type ℓ → Type κ → Type (ℓ ⊔ κ)
Calls S A = S → Result A String × S

module _ {ℓ} {S : Type ℓ} where
  infixl 5 ◌>>=◌ ◌>>◌
  abbrev pub ◌>>=◌ {κ μ} : {A : Type κ} {B : Type μ} → Calls S A → (A → Calls S B) → Calls S B
  ◌>>=◌ m f s = let (r, s') = m s in elim r [ ok a ↦ f a s' | err e ↦ (err e, s') ]

  abbrev pub ◌>>◌ {μ} : {B : Type μ} → Calls S (Unit {0}) → Calls S B → Calls S B
  m >> k = m >>= λ _. k

  abbrev pub skip : Calls S (Unit {0})
  skip s = (ok tt, s)

  abbrev pub lift {κ} : {A : Type κ} → Result A String → Calls S A
  lift r s = (r, s)

  abbrev pub read {κ} : {A : Type κ} → (S → Result A String) → Calls S A
  read f s = (f s, s)

  -- A call that writes: a failure changes nothing.
  abbrev pub change : (S → Result S String) → Calls S (Unit {0})
  change f s = elim (f s) [ ok s' ↦ (ok tt, s') | err e ↦ (err e, s) ]

  -- A chain that succeeds has a first step that succeeds.
  pub bind_inv {κ μ} :
      {A : Type κ} {B : Type μ} (m : Calls S A) (f : A → Calls S B) (s : S) {b : B} {s' : S}
      → (m >>= f) s ≡ (ok b, s')
      → (a : A) × (s₁ : S) × (m s ≡ (ok a, s₁)) × (f a s₁ ≡ (ok b, s'))
  bind_inv m f s h = elim (Result-cases (m s).0) [
    | inl (a, e) ↦ (a, (m s).1, ground arith, ground arith)
    | inr (e, failed) ↦ absurd (ground arith)
  ]

  pub change_inv :
      (f : S → Result S String) (s : S) {s' : S} {u : Unit {0}}
      → change f s ≡ (ok u, s')
      → f s ≡ ok s'
  change_inv f s h = elim (Result-cases (f s)) [
    | inl (t, e) ↦ ground arith
    | inr (e, failed) ↦ absurd (ground arith)
  ]

  pub lift_inv {κ} :
      {A : Type κ} (r : Result A String) (s : S) {a : A} {s' : S}
      → lift r s ≡ (ok a, s')
      → (r ≡ ok a) × (s ≡ s')
  lift_inv r s h = (ap (λ p. p.0) h, ap (λ p. p.1) h)

  pub read_inv {κ} :
      {A : Type κ} (f : S → Result A String) (s : S) {a : A} {s' : S}
      → read f s ≡ (ok a, s')
      → (f s ≡ ok a) × (s ≡ s')
  read_inv f s h = (ap (λ p. p.0) h, ap (λ p. p.1) h)
