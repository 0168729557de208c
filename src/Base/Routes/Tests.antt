-- ===== src/Base/Routes/Tests.antt =====
-- A router that goes through its table, as an instance of what is asked of axum.
use mathlib.Core.Path.{◌≡◌, refl, ap, ◌∙◌, subst}
use mathlib.Core.Bool.{Bool, true, false}
use mathlib.Core.List.{List, [], ◌∷◌}
use mathlib.Core.Logic.{inl, inr}
use Prim.Native.String.{String}
use native.Mathlib.Omega.{arith}
use text.Mathlib.TextEquality.{eq_iff}
use text.Mathlib.TextPositions.{eq_refl}
use package.kubernetes_identity_fede.Base.Lists.{Any, here, there}
use package.kubernetes_identity_fede.Base.Tests.{◌==◌, string_has_eq, if◌then◌else◌, Bool-cases}
use package.kubernetes_identity_fede.Base.Routes.{
  Method, get, post, Route, Matched, calls, no_route, no_method, has_path, distinct_paths, Axum,
}

abbrev same_method : Method → Method → Bool
same_method get get = true
same_method post post = true
same_method get post = false
same_method post get = false

same_method_refl : (m : Method) → same_method m m ≡ true
same_method_refl get = refl
same_method_refl post = refl

module _ {Handler : Type 0} where
  abbrev pub take : List (Route Handler) → Method → String → Matched Handler
  take [] method path = no_route
  take (r ∷ routes) method path =
      let rest = take routes method path in
      if r.path == path
      then (if same_method r.method method then calls r.handler else no_method)
      else rest

  has_path-Any :
      (routes : List (Route Handler)) (r : Route Handler)
      → Any (λ t. t ≡ r) routes
      → has_path r.path routes ≡ true
  has_path-Any [] r m = elim m [ ]
  has_path-Any (t ∷ routes) r (here e) =
      let path = ap (λ (x : Route Handler). x.path) e in ground (arith, eq_iff t.path r.path)
  has_path-Any (t ∷ routes) r (there later) = ground (arith, has_path-Any routes r later)

  pub take-route :
      (routes : List (Route Handler)) (r : Route Handler)
      → distinct_paths routes ≡ true
      → Any (λ t. t ≡ r) routes
      → take routes r.method r.path ≡ calls r.handler
  take-route [] r distinct m = elim m [ ]
  take-route (t ∷ routes) r distinct (here e) =
      subst (λ x. take (t ∷ routes) x.method x.path ≡ calls x.handler) e
        (rw (eq_refl t.path, same_method_refl t.method) refl)
  take-route (t ∷ routes) r distinct (there later) = elim (Bool-cases (t.path == r.path)) [
    | inl same ↦
        let path = (eq_iff t.path r.path).0 same in
        let twice = ap (λ p. has_path p routes) path ∙ has_path-Any routes r later in
        absurd (ground arith)
    | inr differs ↦ rw differs (take-route routes r (ground arith) later)
  ]

  pub take-absent :
      (routes : List (Route Handler)) (method : Method) (path : String)
      → has_path path routes ≡ false
      → take routes method path ≡ no_route
  take-absent [] method path h = refl
  take-absent (t ∷ routes) method path h = ground (arith, take-absent routes method path)

abbrev pub axum : (Handler : Type 0) → Axum Handler
axum Handler = record { matched = take; matched-route = take-route; matched-absent = take-absent }
