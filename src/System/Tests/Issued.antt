-- ===== src/System/Tests/Issued.antt =====
-- http.rs of the issuer: a client that follows the documents, at an issuer whose URL has a slash at its
-- end and at one whose URL has none, and a token that verifies.
use native.Mathlib.Decide.{ℕ_discrete}
use kubernetes_identity_fede.Base.{
  Bool-cases, inl, inr, ◌==◌, string_has_eq, eq_iff, String, ◌<>◌, ◌≡◌, refl, sym, ap, ◌∙◌, none,
  some, [], ◌∷◌, List, Result, ok, err, true, nat_eq, if◌then◌else◌, Option,
}
use kubernetes_identity_fede.Base.Text.{strip_prefix}
use kubernetes_identity_fede.Api.Bindings.{AwsProviderSpec}
use kubernetes_identity_fede.Api.Status.{ResolvedCloudRoleBindingStatus}
use kubernetes_identity_fede.Base.Routes.{Route, get, Matched, calls, no_route, no_method}
use kubernetes_identity_fede.Base.Routes.Tests.{take, axum}
use kubernetes_identity_fede.Federation.Claims.{
  AwsClaims, Crypto, sign_rs256, jwks_json_from_private_pem,
}
use kubernetes_identity_fede.Federation.Keys.{ensure_signing_and_jwks}
use kubernetes_identity_fede.Federation.Keys.Secrets.{Secret, opaque, jwks_secret_key}
use kubernetes_identity_fede.Federation.Keys.Tests as K
use kubernetes_identity_fede.Federation.Keys.Tests.{
  server, storage, signing, jwks, distinct, empty, material, after,
}
use kubernetes_identity_fede.Federation.Subject.{token_review, parse_service_account_username}
use kubernetes_identity_fede.Federation.Subject.Laws.{strip_prefix-append}
use kubernetes_identity_fede.Federation.Mint.{MintContext, MintRequest, claims_for, not_found}
use kubernetes_identity_fede.Federation.Mint.Grant.{Grant}
use kubernetes_identity_fede.Federation.Mint.Tests as M
use kubernetes_identity_fede.Issuer.Serve.{Reply, bare, get_jwks}
use kubernetes_identity_fede.Issuer.Discovery.{Oidc, Metadata, described}
use kubernetes_identity_fede.Issuer.Router.{router}
use kubernetes_identity_fede.System.Discovery.{IsServed, Accepts, slashes, jwks_uri-Served}
use kubernetes_identity_fede.System.Verified.{Verifier, IsVerified, watched, granted-IsVerified}
use kubernetes_identity_fede.System.Tests.Published.{keysets}

-- A URL is its text.
abbrev oidc : Oidc
oidc = record {
  IssuerUrl = String;
  AuthUrl = String;
  JsonWebKeySetUrl = String;
  show = λ t. t;
  auth_url = λ t. ok t;
  jwks_url = λ t. ok t;
}

abbrev to_json : Metadata oidc → String
to_json m = m.jwks_uri

abbrev show_jwks : String → String
show_jwks t = t

abbrev accepts : (url : String) → Accepts oidc url show_jwks
accepts url = record {
  auth = url <> "/authorize";
  jwks = url <> "/jwks.json";
  auth_url = refl;
  jwks_url = refl;
  shown = refl;
}

abbrev replied : Matched Reply → Reply
replied (calls r) = r
replied no_route = bare not_found
replied no_method = bare not_found

abbrev fetched : List (Route Reply) → Option String → Reply
fetched routes none = bare not_found
fetched routes (some path) = replied (take routes get path)

abbrev fetch : List (Route Reply) → String → String → Reply
fetch routes origin url = fetched routes (strip_prefix origin url)

serves :
    (routes : List (Route Reply)) (origin : String)
    → IsServed (axum Reply) routes origin (fetch routes origin)
serves routes origin = record {
  answers =
      λ rest reply h. ap (fetched routes) (strip_prefix-append origin ("/" <> rest)) ∙ ap replied h;
  absent = λ rest h. ap (fetched routes) (strip_prefix-append origin ("/" <> rest)) ∙ ap replied h;
}

abbrev with_slash : List (Route Reply)
with_slash = router oidc to_json keysets.to_string "https://issuer/" (some "keys")

shown : "https://issuer/" ≡ "https://issuer" <> slashes 1
unfolding slashes
shown = refl

jwks_uri-Served_example :
    (fetch with_slash "https://issuer" ("https://issuer" <> "/.well-known/openid-configuration")
      ≡ described oidc to_json "https://issuer/"
          ("https://issuer/" <> "/authorize")
          ("https://issuer/" <> "/jwks.json"))
    × (fetch with_slash "https://issuer" ("https://issuer/" <> "/jwks.json")
        ≡ (if nat_eq 1 0 then get_jwks keysets.to_string (some "keys") else bare not_found))
jwks_uri-Served_example =
    jwks_uri-Served oidc to_json keysets.to_string show_jwks "https://issuer/" (some "keys")
      (axum Reply) "https://issuer" (fetch with_slash "https://issuer")
      (serves with_slash "https://issuer") (accepts "https://issuer/") 1 shown

String-discrete : Discrete String
String-discrete a b = elim (Bool-cases (a == b)) [
  | inl same ↦ yes ((eq_iff a b).0 same)
  | inr differs ↦ no (λ e. cc (differs, (eq_iff a b).1 e))
]

AwsClaims-discrete : Discrete AwsClaims
AwsClaims-discrete = hlevel (String-discrete, ℕ_discrete)

abbrev aws : AwsProviderSpec
aws = record {
  role_arn = "arn";
  region = none;
  sts_regional_endpoints = true;
  audience = none;
  max_session_duration_seconds = some 900;
}

abbrev status : ResolvedCloudRoleBindingStatus
status = record {
  providers = "aws";
  conditions = [];
  sources = [];
  config_hash = some "hash";
  last_error = none;
}

abbrev req : MintRequest
req = record {
  namespace = "default";
  service_account_name = "test-sa";
  config_hash = "hash";
  pod_name = none;
}

-- The claims of the one token that is signed here.
abbrev own_claims : AwsClaims
own_claims = claims_for M.ctx req "system:serviceaccount:default:test-sa" aws M.binding

-- A library that signs these claims and no others.
abbrev signed_if : {claims : AwsClaims} → Dec (claims ≡ own_claims) → Result String String
signed_if (yes same) = ok "token"
signed_if (no differs) = err "other claims"

abbrev crypto : Crypto
crypto = record K.crypto {
  encode = λ kid claims key. signed_if (AwsClaims-discrete claims own_claims);
}

signed_if_inv :
    {claims : AwsClaims} {token : String} (d : Dec (claims ≡ own_claims))
    → signed_if d ≡ ok token
    → claims ≡ own_claims
signed_if_inv (yes same) h = same
signed_if_inv (no differs) h = absurd (cc h)

signed_if-own : (d : Dec (own_claims ≡ own_claims)) → signed_if d ≡ ok "token"
signed_if-own (yes same) = refl
signed_if-own (no differs) = absurd (differs refl)

verifier : Verifier crypto keysets
verifier = record {
  verify = λ keys token. some own_claims;
  verifies = λ kid pem token text claims key rsa jwk keys read encoded parsed made written stored.
      ap some (sym (signed_if_inv (AwsClaims-discrete claims own_claims) encoded));
  reads_back = λ keys body h. sym h;
}

starts : ensure_signing_and_jwks server crypto signing jwks empty ≡ (ok material, after)
unfolding ensure_signing_and_jwks jwks_json_from_private_pem
starts = refl

document : jwks_json_from_private_pem crypto material ≡ ok "keys"
unfolding jwks_json_from_private_pem
document = refl

abbrev ctx : MintContext
ctx = record M.ctx { sign = sign_rs256 crypto material }

signs : sign_rs256 crypto material own_claims ≡ ok "token"
unfolding sign_rs256
signs = signed_if-own (AwsClaims-discrete own_claims own_claims)

grant : Grant ctx req (some "Bearer test-sa") "token"
unfolding token_review parse_service_account_username
grant = record {
  bearer = "test-sa";
  username = "system:serviceaccount:default:test-sa";
  resolved = M.binding;
  status = status;
  aws = aws;
  carried = refl;
  authentic = refl;
  own = refl;
  found = refl;
  configured = refl;
  recorded = refl;
  current = refl;
  signed = signs;
}

abbrev secret : Secret String
secret = opaque jwks ((jwks_secret_key, "keys") ∷ [])

stored : server.get_opt jwks after ≡ ok (some secret)
unfolding ensure_signing_and_jwks jwks_json_from_private_pem
stored = refl

abbrev public : List (Route Reply)
public =
    router oidc to_json keysets.to_string "https://issuer" (watched server keysets [] secret none)

granted-IsVerified_example :
    IsVerified verifier oidc to_json show_jwks "https://issuer"
      (fetch public "https://issuer")
      own_claims
      "token"
unfolding grant
granted-IsVerified_example =
    granted-IsVerified server verifier storage signing jwks distinct material empty after starts
      oidc to_json show_jwks "https://issuer" (accepts "https://issuer") document refl refl refl []
      none secret stored (axum Reply) (fetch public "https://issuer")
      (serves public "https://issuer") ctx refl (λ claims. refl) req (some "Bearer test-sa") "token"
      grant
