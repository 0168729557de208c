-- ===== src/Base/Routes.antt =====
-- The routers of axum: a table of routes, each with a method, a path and a handler. Which route a
-- request takes is axum's part, and is an argument with the laws that its documentation states.
pub mod Tests
use mathlib.Core.Path.{◌≡◌}
use mathlib.Core.Bool.{Bool, true, false, not, ◌&&◌}
use mathlib.Core.List.{List, [], ◌∷◌}
use Prim.Native.String.{String}
use package.kubernetes_identity_fede.Base.Lists.{any, Any}
use package.kubernetes_identity_fede.Base.Tests.{◌==◌, string_has_eq}

pub data Method : Type 0 where
  get post : Method

-- `route(path, get(handler))` or `route(path, post(handler))`.
pub record Route (Handler : Type 0) : Type 0 where
  pub method : Method
  pub path : String
  pub handler : Handler

abbrev pub route : {Handler : Type 0} → Method → String → Handler → Route Handler
route method path handler = record { method = method; path = path; handler = handler }

-- The handler that gets a request, or the status that axum answers itself: 404 or 405.
pub data Matched (Handler : Type 0) : Type 0 where
  calls : Handler → Matched Handler
  no_route no_method : Matched Handler

-- A route for this path.
abbrev pub has_path : {Handler : Type 0} → String → List (Route Handler) → Bool
has_path path routes = any (λ r. r.path == path) routes

-- No two routes have the same path.
abbrev pub distinct_paths : {Handler : Type 0} → List (Route Handler) → Bool
distinct_paths [] = true
distinct_paths (r ∷ routes) = not (has_path r.path routes) && distinct_paths routes

-- A path without captures matches itself only.
pub record Axum (Handler : Type 0) : Type 0 where
  pub matched : List (Route Handler) → Method → String → Matched Handler
  pub matched-route :
      (routes : List (Route Handler)) (r : Route Handler)
      → distinct_paths routes ≡ true
      → Any (λ t. t ≡ r) routes
      → matched routes r.method r.path ≡ calls r.handler
  pub matched-absent :
      (routes : List (Route Handler)) (method : Method) (path : String)
      → has_path path routes ≡ false
      → matched routes method path ≡ no_route
