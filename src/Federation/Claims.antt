-- ===== src/Federation/Claims.antt =====
-- app/crates/kif-federation/src/jwt.rs. The clock's two readings, the RSA, JWT and JSON libraries are
-- arguments; `now + ttl_seconds` wraps as a `u64` of a release build does.
pub mod Laws
mod Tests
use kubernetes_identity_fede.Base.{
  ℕ, ◌+◌, ◌%◌, String, ◌<>◌, Bool, ◌||◌, Option, none, some, List, [], ◌∷◌, Result, ◌>>=◌, map_err,
  is_some, if◌then◌else◌,
}
use kubernetes_identity_fede.Base.BTreeMap.{BTreeMap}
use kubernetes_identity_fede.Base.Decimal.{to_string}
use kubernetes_identity_fede.Base.Parse.{u64_mod}

pub record SigningMaterial : Type 0 where
  pub kid : String
  pub private_key_pem : String

pub record KifK8s : Type 0 where
  pub namespace : String
  pub service_account : String
  pub pod : Option String

pub record KifClaims : Type 0 where
  pub k8s : Option KifK8s
  pub attributes : Option (BTreeMap String)

pub record AwsClaims : Type 0 where
  pub iss : String
  pub sub : String
  pub aud : String
  pub iat : ℕ
  pub nbf : ℕ
  pub exp : ℕ
  pub jti : String
  pub kif : Option KifClaims

-- A reading of the clock in seconds, and a later one in nanoseconds.
pub record Clock : Type 0 where
  pub seconds : ℕ
  pub nanos : ℕ

unfoldable pub new_claims :
    Clock
    → String
    → String
    → String
    → ℕ
    → Bool
    → String
    → String
    → Option String
    → Option (BTreeMap String)
    → AwsClaims
unfolding to_string
new_claims clock issuer subject audience ttl_seconds include_provenance namespace service_account
      pod_name extra_attributes =
    record {
      iss = issuer;
      sub = subject;
      aud = audience;
      iat = clock.seconds;
      nbf = clock.seconds;
      exp = (clock.seconds + ttl_seconds) % u64_mod;
      jti = "kif-" <> to_string clock.nanos;
      kif =
          if include_provenance || is_some extra_attributes
          then some (record {
            k8s =
                if include_provenance
                then some (record {
                  namespace = namespace;
                  service_account = service_account;
                  pod = pod_name;
                })
                else none;
            attributes = extra_attributes;
          })
          else none;
    }

-- The JSON object that describes the public key.
pub record JwkFields : Type 0 where
  pub kty : String
  pub kid : String
  pub use_for : String
  pub alg : String
  pub n : String
  pub e : String

pub record Crypto : Type 1 where
  pub EncodingKey : Type 0
  pub RsaPrivateKey : Type 0
  pub Jwk : Type 0
  pub from_rsa_pem : String → Result EncodingKey String
  -- `encode` with the header RS256 and a key id
  pub encode : String → AwsClaims → EncodingKey → Result String String
  pub from_pkcs8_pem : String → Result RsaPrivateKey String
  pub n_bytes : RsaPrivateKey → List ℕ
  pub e_bytes : RsaPrivateKey → List ℕ
  pub base64_url : List ℕ → String
  pub jwk_from_value : JwkFields → Result Jwk String
  pub jwks_to_string : List Jwk → Result String String

module _ (crypto : Crypto) where
  open crypto use {
    from_rsa_pem, encode, from_pkcs8_pem, n_bytes, e_bytes, base64_url, jwk_from_value,
    jwks_to_string,
  }

  unfoldable pub sign_rs256 : SigningMaterial → AwsClaims → Result String String
  sign_rs256 signing claims = do
    key ← map_err (λ e. "invalid rsa pem: " <> e) (from_rsa_pem signing.private_key_pem)
    encode signing.kid claims key

  unfoldable pub jwks_json_from_private_pem : SigningMaterial → Result String String
  jwks_json_from_private_pem signing = do
    rsa ← map_err (λ e. "parse pkcs8 pem: " <> e) (from_pkcs8_pem signing.private_key_pem)
    jwk ← jwk_from_value (record {
      kty = "RSA";
      kid = signing.kid;
      use_for = "sig";
      alg = "RS256";
      n = base64_url (n_bytes rsa);
      e = base64_url (e_bytes rsa);
    })
    jwks_to_string (jwk ∷ [])
