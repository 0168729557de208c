-- ===== src/Federation/Router.antt =====
-- app/crates/kif-federation/src/http.rs: `router`.
use kubernetes_identity_fede.Base.{String, ◌≡◌, refl, Option, List, [], ◌∷◌, here, there}
use kubernetes_identity_fede.Base.Routes.{Route, get, post, route, calls, Axum}
use kubernetes_identity_fede.Federation.Mint.{
  StatusCode, MintContext, MintRequest, Response, mint, rotate_keys,
}
use kubernetes_identity_fede.Federation.Config.{livez}

-- A handler answers with a status alone, or takes a request and the Authorization header.
pub data Endpoint : Type 0 where
  plain : StatusCode → Endpoint
  mints : (MintRequest → Option String → Response) → Endpoint

unfoldable pub router : MintContext → List (Route Endpoint)
unfolding livez rotate_keys
router ctx =
    route get "/livez" (plain livez)
    ∷ route post "/v1/mint" (mints (λ req header. mint ctx req header))
    ∷ route post "/v1/rotate-keys" (plain rotate_keys)
    ∷ []

-- The path that the agent appends to the service's URL.
pub router-mint :
    (axum : Axum Endpoint) (ctx : MintContext)
    → axum.matched (router ctx) post "/v1/mint" ≡ calls (mints (λ req header. mint ctx req header))
unfolding router
router-mint axum ctx =
    axum.matched-route (router ctx)
      (route post "/v1/mint" (mints (λ req header. mint ctx req header))) refl (there (here refl))
