-- ===== src/Issuer/Router.antt =====
-- app/crates/kif-issuer/src/http.rs: `router`. A handler answers without reading the request.
use kubernetes_identity_fede.Base.{String, List, [], ◌∷◌, Result}
use kubernetes_identity_fede.Base.Routes.{Route, get, route}
use kubernetes_identity_fede.Issuer.Jwks.{Store}
use kubernetes_identity_fede.Issuer.Serve.{Reply, bare, livez, startupz, get_jwks}
use kubernetes_identity_fede.Issuer.Discovery.{Oidc, Metadata, openid_discovery_doc}

module _ (oidc : Oidc) (to_json : Metadata oidc → String) {KeySet : Type 0}
    (to_string : KeySet → Result String String) where
  unfoldable pub router : oidc.IssuerUrl → Store KeySet → List (Route Reply)
  unfolding openid_discovery_doc get_jwks startupz livez
  router issuer_url store =
      route get "/.well-known/openid-configuration" (openid_discovery_doc oidc to_json issuer_url)
      ∷ route get "/jwks.json" (get_jwks to_string store)
      ∷ route get "/startupz" (bare (startupz store))
      ∷ route get "/livez" (bare livez)
      ∷ []
