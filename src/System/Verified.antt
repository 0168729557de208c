-- ===== src/System/Verified.antt =====
-- app/crates/kif-federation/src against app/crates/kif-issuer/src, for a third party: whoever gets a
-- token of the federation service can find the key for it at the issuer that the token names.
use kubernetes_identity_fede.Base.{
  String, ◌<>◌, ◌≡◌, ◌≢◌, sym, ap, ◌∙◌, false, Option, some, List, [], ◌∷◌, ◌++◌, Result, ok,
  map_err, >>=-eq-ok, map_err-eq-ok, ok-injective,
}
use mathlib.Core.Option.{some-injective}
use kubernetes_identity_fede.Base.Routes.{Axum}
use kubernetes_identity_fede.Federation.Claims.{
  Crypto, SigningMaterial, AwsClaims, new_claims, sign_rs256, jwks_json_from_private_pem,
}
use kubernetes_identity_fede.Federation.Keys.Secrets.{Secret}
use kubernetes_identity_fede.Federation.Keys.{Server, ensure_signing_and_jwks}
use kubernetes_identity_fede.Federation.Keys.Again.{Storage}
use kubernetes_identity_fede.Federation.Mint.{MintContext, MintRequest, claims_for, status_ok}
use kubernetes_identity_fede.Federation.Mint.Grant.{Grant}
use kubernetes_identity_fede.Issuer.Jwks.{Store, run_secret_watcher}
use kubernetes_identity_fede.Issuer.Serve.{Reply, get_jwks, served}
use kubernetes_identity_fede.Issuer.Discovery.{Oidc, Metadata, described}
use kubernetes_identity_fede.Issuer.Router.{router}
use kubernetes_identity_fede.System.Keys.{Keysets, library, published-Serves}
use kubernetes_identity_fede.System.Discovery.{IsServed, Accepts, fetch-discovery, fetch-jwks}

-- The third party's JWT library: a token that is signed with a private key verifies against the public
-- key of that private key, if the key set describes it by its modulus and its exponent.
pub record Verifier (crypto : Crypto) (keysets : Keysets) : Type 0 where
  pub verify : keysets.KeySet → String → Option AwsClaims
  pub verifies :
      (kid pem token text : String) (claims : AwsClaims) (key : crypto.EncodingKey)
      (rsa : crypto.RsaPrivateKey) (jwk : crypto.Jwk) (keys : keysets.KeySet)
      → crypto.from_rsa_pem pem ≡ ok key
      → crypto.encode kid claims key ≡ ok token
      → crypto.from_pkcs8_pem pem ≡ ok rsa
      → crypto.jwk_from_value (record {
        kty = "RSA";
        kid = kid;
        use_for = "sig";
        alg = "RS256";
        n = crypto.base64_url (crypto.n_bytes rsa);
        e = crypto.base64_url (crypto.e_bytes rsa);
      })
        ≡ ok jwk
      → crypto.jwks_to_string (jwk ∷ []) ≡ ok text
      → keysets.from_str text ≡ ok keys
      → verify keys token ≡ some claims
  -- serde reads a key set back from what it writes
  pub reads_back :
      (keys : keysets.KeySet) (body : String)
      → keysets.to_string keys ≡ ok body
      → keysets.from_str body ≡ ok keys

module _ {crypto : Crypto} {keysets : Keysets} (verifier : Verifier crypto keysets) where
  -- The two uses of the signing key belong together.
  sign_rs256-verifies :
      (material : SigningMaterial) (claims : AwsClaims) (token json : String)
      (keys : keysets.KeySet)
      → sign_rs256 crypto material claims ≡ ok token
      → jwks_json_from_private_pem crypto material ≡ ok json
      → keysets.from_str json ≡ ok keys
      → verifier.verify keys token ≡ some claims
  unfolding sign_rs256 jwks_json_from_private_pem
  sign_rs256-verifies material claims token json keys signed made parsed =
      let (key, pem, encoded) =
        >>=-eq-ok (map_err _ (crypto.from_rsa_pem material.private_key_pem)) _ signed in
      let (rsa, pkcs8, rest) =
        >>=-eq-ok (map_err _ (crypto.from_pkcs8_pem material.private_key_pem)) _ made in
      let (jwk, described_, written) = >>=-eq-ok (crypto.jwk_from_value _) _ rest in
      verifier.verifies material.kid material.private_key_pem token json claims key rsa jwk keys
        (map_err-eq-ok _ _ pem) encoded (map_err-eq-ok _ _ pkcs8) described_ written parsed

-- What a third party finds that starts with the issuer's URL, and what the keys make of the token.
pub record IsVerified {crypto : Crypto} {keysets : Keysets} (verifier : Verifier crypto keysets)
    (oidc : Oidc) (to_json : Metadata oidc → String) (show_jwks : oidc.JsonWebKeySetUrl → String)
    (issuer_url : oidc.IssuerUrl) (fetch : String → Reply) (claims : AwsClaims) (token : String)
    : Type 0 where
  pub auth : oidc.AuthUrl
  pub jwks_uri : oidc.JsonWebKeySetUrl
  pub body : String
  pub keys : keysets.KeySet
  pub document :
      fetch (claims.iss <> "/.well-known/openid-configuration")
      ≡ described oidc to_json issuer_url auth jwks_uri
  pub found :
      fetch (show_jwks jwks_uri)
      ≡ record { status = status_ok; cache_control = some "public, max-age=300"; body = some body }
  pub parsed : keysets.from_str body ≡ ok keys
  pub verified : verifier.verify keys token ≡ some claims

-- The store of an issuer whose watcher has received the secret last.
abbrev pub watched :
    (server : Server) (keysets : Keysets)
    → List (Result (Secret server.Bytes) String)
    → Secret server.Bytes
    → Store keysets.KeySet
    → Store keysets.KeySet
watched server keysets evs secret store =
    (run_secret_watcher (library server keysets) (ok tt) (evs ++ (ok secret ∷ [])) store).1

module _ (server : Server) {crypto : Crypto} {keysets : Keysets}
    (verifier : Verifier crypto keysets) (storage : Storage server) (signing jwks : String)
    (distinct : jwks ≢ signing) (material : SigningMaterial) (s s' : server.State)
    (started : ensure_signing_and_jwks server crypto signing jwks s ≡ (ok material, s'))
    (oidc : Oidc) (to_json : Metadata oidc → String) (show_jwks : oidc.JsonWebKeySetUrl → String)
    (issuer_url : oidc.IssuerUrl) (urls : Accepts oidc issuer_url show_jwks) where
  watched-serves :
      (json : String) (keys : keysets.KeySet)
      → jwks_json_from_private_pem crypto material ≡ ok json
      → keysets.from_str json ≡ ok keys
      → keysets.has_no_keys keys ≡ false
      → (evs : List (Result (Secret server.Bytes) String)) (store : Store keysets.KeySet)
        (secret : Secret server.Bytes)
      → server.get_opt jwks s' ≡ ok (some secret)
      → get_jwks keysets.to_string (watched server keysets evs secret store)
        ≡ served keysets.to_string (keysets.to_string keys)
  watched-serves json keys made parsed full evs store secret stored =
      let (public, published, serves) =
        published-Serves server keysets crypto storage signing jwks distinct material s s' started
          json keys made parsed full evs store in
      let same : public ≡ secret = some-injective _ _ (ok-injective (sym published ∙ stored)) in
      ap (λ x. get_jwks keysets.to_string (watched server keysets evs x store)) (sym same)
      ∙ serves.1

  -- If a start of the federation service has succeeded, the issuer's watcher has received its JWKS
  -- secret last, and the two have the same issuer URL without a slash at its end, then whoever
  -- goes to the issuer that a granted token names finds the discovery document there, finds the
  -- keys at the URL that the document names, and the token verifies against these keys with the
  -- very claims of the request.
  pub granted-IsVerified :
      {json body : String} {keys : keysets.KeySet}
      → jwks_json_from_private_pem crypto material ≡ ok json
      → keysets.from_str json ≡ ok keys
      → keysets.has_no_keys keys ≡ false
      → keysets.to_string keys ≡ ok body
      → (evs : List (Result (Secret server.Bytes) String)) (store : Store keysets.KeySet)
        (secret : Secret server.Bytes)
      → server.get_opt jwks s' ≡ ok (some secret)
      → (axum : Axum Reply) (fetch : String → Reply)
      → IsServed axum
          (router oidc to_json keysets.to_string issuer_url
            (watched server keysets evs secret store))
          (oidc.show issuer_url)
          fetch
      → (ctx : MintContext) → ctx.issuer_url ≡ oidc.show issuer_url
      → ((claims : AwsClaims) → ctx.sign claims ≡ sign_rs256 crypto material claims)
      → (req : MintRequest) (header : Option String) (token : String)
        (g : Grant ctx req header token)
      → IsVerified verifier oidc to_json show_jwks issuer_url fetch
          (claims_for ctx req g.username g.aws g.resolved)
          token
  unfolding new_claims
  granted-IsVerified {json} {body} {keys} made parsed full written evs store secret stored axum
        fetch public ctx same signs req header token g =
      let claims = claims_for ctx req g.username g.aws g.resolved in
      let document =
        fetch-discovery oidc to_json keysets.to_string show_jwks issuer_url
          (watched server keysets evs secret store) axum (oidc.show issuer_url) fetch public urls in
      let found =
        fetch-jwks oidc to_json keysets.to_string show_jwks issuer_url
          (watched server keysets evs secret store) axum (oidc.show issuer_url) fetch public urls in
      record {
        auth = urls.auth;
        jwks_uri = urls.jwks;
        body = body;
        keys = keys;
        document = ap (λ t. fetch (t <> "/.well-known/openid-configuration")) same ∙ document;
        found =
            ap fetch urls.shown
            ∙ found
            ∙ watched-serves json keys made parsed full evs store secret stored
            ∙ ap (served keysets.to_string) written;
        parsed = verifier.reads_back keys body written;
        verified =
            sign_rs256-verifies verifier material claims token json keys
              (sym (signs claims) ∙ g.signed) made parsed;
      }
