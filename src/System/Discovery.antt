-- ===== src/System/Discovery.antt =====
-- app/crates/kif-issuer/src/http.rs, seen from outside: a client that reads the discovery document and
-- follows it to the keys.
use Prim.Native.Char.{Char, code}
use text.Mathlib.TextLemmas.{nil-append, cons-append, append_assoc, append-nil}
use kubernetes_identity_fede.Base.{
  ℕ, zero, suc, String, ◌<>◌, ◌≡◌, refl, ap, ◌∙◌, List, Result, ok, here, there, Bool-cases, inl,
  inr, ◌==◌, string_has_eq, eq_iff, ◌≢◌, arith, false, nat_eq, if◌then◌else◌,
}
use kubernetes_identity_fede.Base.Routes.{Route, get, route, Axum, calls, no_route}
use kubernetes_identity_fede.Federation.Mint.{not_found}
use kubernetes_identity_fede.Issuer.Jwks.{Store}
use kubernetes_identity_fede.Issuer.Serve.{Reply, bare, get_jwks}
use kubernetes_identity_fede.Issuer.Discovery.{Oidc, Metadata, openid_discovery_doc, described}
use kubernetes_identity_fede.Issuer.Router.{router}

-- A number of slashes.
unfoldable pub slashes : ℕ → String
slashes zero = ""
slashes (suc n) = "/" <> slashes n

-- What a GET of a URL brings, if the routes are served at an origin: the reply of the handler that
-- axum finds for the path, or its own 404.
pub record IsServed (axum : Axum Reply) (routes : List (Route Reply)) (origin : String)
    (fetch : String → Reply) : Type 0 where
  pub answers :
      (rest : String) (reply : Reply)
      → axum.matched routes get ("/" <> rest) ≡ calls reply
      → fetch (origin <> ("/" <> rest)) ≡ reply
  pub absent :
      (rest : String)
      → axum.matched routes get ("/" <> rest) ≡ no_route
      → fetch (origin <> ("/" <> rest)) ≡ bare not_found

-- openidconnect accepts the two URLs of the document, and keeps their text.
pub record Accepts (oidc : Oidc) (issuer_url : oidc.IssuerUrl)
    (show_jwks : oidc.JsonWebKeySetUrl → String) : Type 0 where
  pub auth : oidc.AuthUrl
  pub jwks : oidc.JsonWebKeySetUrl
  pub auth_url : oidc.auth_url (oidc.show issuer_url <> "/authorize") ≡ ok auth
  pub jwks_url : oidc.jwks_url (oidc.show issuer_url <> "/jwks.json") ≡ ok jwks
  pub shown : show_jwks jwks ≡ oidc.show issuer_url <> "/jwks.json"

-- The code of the second character.
abbrev second_code : String → ℕ
second_code String.[] = 0
second_code (String.◌∷◌ c String.[]) = 0
second_code (String.◌∷◌ c (String.◌∷◌ d s)) = code d

second_code-double : (s : String) → second_code ("/" <> ("/" <> s)) ≡ 0x2f
second_code-double s =
    let c : Char = "/" in
    ap second_code (
      cons-append c "" ("/" <> s)
      ∙ ap (λ t. String.◌∷◌ c t)
          (nil-append _ ∙ cons-append c "" s ∙ ap (λ t. String.◌∷◌ c t) (nil-append s)))

double-differs : (p s : String) → second_code p ≢ 0x2f → (p == "/" <> ("/" <> s)) ≡ false
double-differs p s differs = elim (Bool-cases (p == "/" <> ("/" <> s))) [
  | inl same ↦ absurd (differs (ap second_code ((eq_iff p _).0 same) ∙ second_code-double s))
  | inr other ↦ other
]

module _ (oidc : Oidc) (to_json : Metadata oidc → String) {KeySet : Type 0}
    (to_string : KeySet → Result String String) (show_jwks : oidc.JsonWebKeySetUrl → String)
    (issuer_url : oidc.IssuerUrl) (store : Store KeySet) where
  abbrev routes : List (Route Reply)
  routes = router oidc to_json to_string issuer_url store

  router-discovery :
      (axum : Axum Reply)
      → axum.matched routes get "/.well-known/openid-configuration"
        ≡ calls (openid_discovery_doc oidc to_json issuer_url)
  unfolding router
  router-discovery axum =
      axum.matched-route routes
        (route get "/.well-known/openid-configuration"
          (openid_discovery_doc oidc to_json issuer_url))
        refl (here refl)

  router-jwks :
      (axum : Axum Reply) → axum.matched routes get "/jwks.json" ≡ calls (get_jwks to_string store)
  unfolding router
  router-jwks axum =
      axum.matched-route routes (route get "/jwks.json" (get_jwks to_string store)) refl
        (there (here refl))

  router-double :
      (axum : Axum Reply) (s : String) → axum.matched routes get ("/" <> ("/" <> s)) ≡ no_route
  unfolding router
  router-double axum s = axum.matched-absent routes get ("/" <> ("/" <> s)) (
      rw
        (
          double-differs "/.well-known/openid-configuration" s (omega arith),
          double-differs "/jwks.json" s (omega arith),
          double-differs "/startupz" s (omega arith),
          double-differs "/livez" s (omega arith),
        )
        refl)

  openid_discovery_doc-described :
      (a : Accepts oidc issuer_url show_jwks)
      → openid_discovery_doc oidc to_json issuer_url
        ≡ described oidc to_json issuer_url a.auth a.jwks
  unfolding openid_discovery_doc
  openid_discovery_doc-described a = rw (a.auth_url, a.jwks_url) refl

  module _ (axum : Axum Reply) (origin : String) (fetch : String → Reply)
      (served : IsServed axum routes origin fetch) (a : Accepts oidc issuer_url show_jwks) where
    pub fetch-discovery :
        fetch (origin <> "/.well-known/openid-configuration")
        ≡ described oidc to_json issuer_url a.auth a.jwks
    fetch-discovery =
        served.answers ".well-known/openid-configuration" _ (router-discovery axum)
        ∙ openid_discovery_doc-described a

    pub fetch-jwks : fetch (origin <> "/jwks.json") ≡ get_jwks to_string store
    fetch-jwks = served.answers "jwks.json" _ (router-jwks axum)

    fetch-slashes :
        (n : ℕ)
        → fetch ((origin <> slashes n) <> "/jwks.json")
          ≡ (if nat_eq n 0 then get_jwks to_string store else bare not_found)
    unfolding slashes
    fetch-slashes zero = ap (λ t. fetch (t <> "/jwks.json")) (append-nil origin) ∙ fetch-jwks
    fetch-slashes (suc zero) =
        ap fetch (append_assoc origin ("/" <> "") "/jwks.json")
        ∙ served.absent "/jwks.json" (router-double axum "jwks.json")
    fetch-slashes (suc (suc n)) =
        let rest = slashes n <> "/jwks.json" in
        let differs : nat_eq (suc (suc n)) 0 ≡ false = ground arith in
        rw differs (
          ap fetch (
            append_assoc origin ("/" <> ("/" <> slashes n)) "/jwks.json"
            ∙ ap (λ t. origin <> t)
                (append_assoc "/" ("/" <> slashes n) "/jwks.json"
                  ∙ ap (λ t. "/" <> t) (append_assoc "/" (slashes n) "/jwks.json")))
          ∙ served.absent ("/" <> rest) (router-double axum rest))

    -- If the configured issuer URL is the origin that the issuer is served at with some number of
    -- slashes behind it, the discovery document is served, and the key set URL that it names is
    -- answered with the key set if there is no slash, and is not found otherwise.
    pub jwks_uri-Served :
        (n : ℕ)
        → oidc.show issuer_url ≡ origin <> slashes n
        → (fetch (origin <> "/.well-known/openid-configuration")
            ≡ described oidc to_json issuer_url a.auth a.jwks)
          × (fetch (show_jwks a.jwks)
              ≡ (if nat_eq n 0 then get_jwks to_string store else bare not_found))
    jwks_uri-Served n h =
        (fetch-discovery, ap fetch (a.shown ∙ ap (λ t. t <> "/jwks.json") h) ∙ fetch-slashes n)
